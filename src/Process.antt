-- ===== src/Process.antt =====
-- src/utils.c: the privileges of a process, and the short files that are read for them.
use libxdxgpu_container.Base.{
  ℕ, zero, suc, ◌+◌, ◌-◌, ◌^◌, ◌%◌, Bool, not, ◌&&◌, ◌||◌, List, [], ◌∷◌, ◌++◌, Option, none, some,
  ◌==◌, ltb, if◌then◌else◌, ◌⊎◌, inl, inr,
}
use libxdxgpu_container.Libc.{Bytes, codes, strtoumax}
use libxdxgpu_container.Error.{setx, set_errno}
use libxdxgpu_container.Utils.Ids.{einval}
use libxdxgpu_container.Kernel.{
  Confinement, confine, CapFlag, cap_inheritable, cap_ambient, cap_set_proc, cap_ambient_clear_all,
  cap_ambient_raise, capbset_drop, setgroups, setregid, setreuid, no_new_privs, History, Kernel, Op,
  pure, fail, ◌>>=◌, ◌>>◌, ask, perform, error_set, or_errno,
}
use libxdxgpu_container.File.{eperm, ignoring, when, demand}

-- What the kernel answers of the process: the groups or errno, the effective ids, whether a
-- capability is in the bounding set, the variable NVC_INSECURE_MODE by secure_getenv, and errno where
-- clone or waitpid fails. libcap and libseccomp: whether the state of the capabilities can be had and changed,
-- and whether a filter can be made and a call added to it. `status` is what becomes of the program
-- that is executed.
pub data Status : Type 0 where
  exited signalled : ℕ → Status

pub record Process : Type 0 where
  pub groups : History → ℕ ⊎ List ℕ
  pub egid : History → ℕ
  pub euid : History → ℕ
  pub is_bounding : History → ℕ → Bool
  pub insecure_mode : Option Bytes
  pub cap_state : History → Option ℕ
  pub filter_made : Bool
  pub rule_added : Bytes → Bool
  pub clone : History → Option ℕ
  pub wait : History → Option ℕ
  pub status : History → Status

unfoldable pub call : Kernel → Confinement → Op (Unit {0})
unfolding perform
call kernel c = perform kernel (confine c)

-- `if (result < 0) goto fail;`, with errno where it fails
abbrev pub unless_failed : Option ℕ → Op (Unit {0})
unless_failed none = pure tt
unless_failed (some errno) = fail (set_errno errno [])

-- The conversion %u of a whole file
abbrev pub scanned : Bytes → ℕ × Option Bytes → Op ℕ
scanned path (n, none) = fail (setx (codes "file read error: " ++ path))
scanned path (n, some rest) = pure (n % 2 ^ 32)

unfoldable pub uint32_in : Bytes → ℕ ⊎ Option Bytes → Op ℕ
unfolding strtoumax
uint32_in path (inl errno) = fail (set_errno errno (codes "open failed: " ++ path))
uint32_in path (inr none) = fail (setx (codes "file read error: " ++ path))
uint32_in path (inr (some text)) = scanned path (strtoumax text)

unfoldable pub file_read_uint32 : Kernel → Bytes → Op ℕ
unfolding uint32_in
file_read_uint32 kernel path = ask (λ h. kernel.read_text h path) >>= uint32_in path

-- fgets: at most `n` bytes of the first line, with its newline.
unfoldable pub fgets : ℕ → Bytes → Bytes
fgets zero text = []
fgets (suc n) [] = []
fgets (suc n) (c ∷ text) = let rest = fgets n text in if c == b'\n' then c ∷ [] else c ∷ rest

unfoldable pub line_read : Bytes → ℕ → ℕ ⊎ Option Bytes → Op Bytes
unfolding fgets
line_read path size (inl errno) = fail (set_errno errno (codes "open failed: " ++ path))
line_read path size (inr none) = fail (setx (codes "file read error: " ++ path))
line_read path size (inr (some text)) = pure (fgets (size - 1) text)

unfoldable pub file_read_line : Kernel → Bytes → ℕ → Op Bytes
unfolding line_read
file_read_line kernel path size = ask (λ h. kernel.read_text h path) >>= line_read path size

-- Setting the groups, unless there are none, or only the one wanted.
unfoldable pub drop_groups : Kernel → ℕ → List ℕ → Op (Unit {0})
unfolding call
drop_groups kernel gid [] = pure tt
drop_groups kernel gid (egroup ∷ []) = when (not (egroup == gid)) (call kernel (setgroups gid))
drop_groups kernel gid (g ∷ h ∷ groups) = call kernel (setgroups gid)

unfoldable pub change_ids : Kernel → Process → ℕ → ℕ → Bool → ℕ → ℕ → Op (Unit {0})
unfolding call drop_groups
change_ids kernel process uid gid drop euid egid = do
  when drop ((ask (λ h. process.groups h) >>= or_errno) >>= drop_groups kernel gid)
  when (not (egid == gid)) (call kernel (setregid gid))
  when (not (euid == uid)) (call kernel (setreuid uid))
  egid' ← ask (λ h. process.egid h)
  euid' ← ask (λ h. process.euid h)
  demand ((egid == gid || egid' == gid) && (euid == uid || euid' == uid)) eperm
  call kernel no_new_privs

unfoldable pub perm_drop_privileges : Kernel → Process → ℕ → ℕ → Bool → Op (Unit {0})
unfolding change_ids
perm_drop_privileges kernel process uid gid drop = do
  euid ← ask (λ h. process.euid h)
  egid ← ask (λ h. process.egid h)
  error_set (codes "privilege change failed") (change_ids kernel process uid gid drop euid egid)

-- CAP_LAST_CAP, and PROC_LAST_CAP_PATH
abbrev pub cap_last_cap : ℕ
cap_last_cap = 40

abbrev pub last_cap_path : Bytes
last_cap_path = codes "/proc/sys/kernel/cap_last_cap"

-- The last capability: a number that is negative as an int does not count.
abbrev pub last_cap : ℕ → ℕ
last_cap n = if ltb n (2 ^ 31) && ltb cap_last_cap n then n else cap_last_cap

-- The loop, from `c` on for `n` capabilities, none of which is to be kept.
unfoldable pub drop_bounds : Kernel → Process → ℕ → ℕ → Op (Unit {0})
unfolding call
drop_bounds kernel process zero c = pure tt
drop_bounds kernel process (suc n) c = do
  bounding ← ask (λ h. process.is_bounding h c)
  when bounding (error_set (codes "capability change failed") (call kernel (capbset_drop c)))
  drop_bounds kernel process n (c + 1)

-- `perm_set_bounds(err, NULL, 0)`
unfoldable pub perm_set_bounds : Kernel → Process → Op (Unit {0})
unfolding file_read_uint32 last_cap drop_bounds
perm_set_bounds kernel process = do
  n ← file_read_uint32 kernel last_cap_path
  drop_bounds kernel process (suc (last_cap n)) 0

unfoldable pub raise_ambient : Kernel → List ℕ → Op (Unit {0})
unfolding call
raise_ambient kernel [] = pure tt
raise_ambient kernel (c ∷ caps) =
    ignoring einval (call kernel (cap_ambient_raise c)) >> raise_ambient kernel caps

-- The two sets that the process of ldconfig changes.
unfoldable pub set_caps : Kernel → Process → CapFlag → List ℕ → Op (Unit {0})
unfolding call raise_ambient
set_caps kernel process cap_ambient caps =
    ignoring einval (call kernel cap_ambient_clear_all) >> raise_ambient kernel caps
set_caps kernel process cap_inheritable caps =
    (ask (λ h. process.cap_state h) >>= unless_failed)
    >> call kernel (cap_set_proc cap_inheritable caps)

unfoldable pub perm_set_capabilities : Kernel → Process → CapFlag → List ℕ → Op (Unit {0})
unfolding set_caps
perm_set_capabilities kernel process flag caps =
    error_set (codes "capability change failed") (set_caps kernel process flag caps)
