-- ===== src/Mount/Profile.antt =====
-- src/nvc_mount.c: `update_app_profile`.
use libxdxgpu_container.Base.{
  ℕ, zero, suc, ◌+◌, ◌-◌, ◌*◌, ◌/◌, ◌%◌, ◌^◌, [], ◌∷◌, ◌++◌, Option, none, some, ltb, leb, ◌==◌,
  if◌then◌else◌, bit_or, ◌&&◌,
}
use libxdxgpu_container.Libc.{Bytes, codes, is_digit, strstr, uintmax_max, uintmax_mod}
use libxdxgpu_container.Error.{Result, ok, err, setx}
use libxdxgpu_container.Utils.Ids.{enoent}
use libxdxgpu_container.Cgroup.Setup.{minor}
use libxdxgpu_container.Container.{NvcContainer}
use libxdxgpu_container.Kernel.{Kernel, Op, pure, fail, crash, ◌>>=◌, try}
use libxdxgpu_container.File.{has_errno, file_read_text, file_create, mode_reg}
use libxdxgpu_container.Mount.{resolve}

-- NV_APP_PROFILE_DIR "/10-container.conf"
abbrev pub profile_path : Bytes
profile_path = codes "/etc/nvidia/nvidia-application-profiles-rc.d/10-container.conf"

-- A digit of "%x"
abbrev pub hex_digit : ℕ → ℕ
hex_digit d = if ltb d 10 then d + b'0' else d - 10 + b'a'

unfoldable pub push_hex : ℕ → ℕ → Bytes → Bytes
push_hex zero n text = text
push_hex (suc fuel) n text =
    let more = push_hex fuel (n / 16) (hex_digit (n % 16) ∷ text) in
    if ltb n 16 then hex_digit n ∷ text else more

-- The text in front of the number, and behind it, as the macro quotes them.
abbrev pub profile_head : Bytes
profile_head =
    codes
      "{ \"profiles\": [{\"name\": \"_container_\", \"settings\": [\"EGLVisibleDGPUDevices\", 0x"

abbrev pub profile_tail : Bytes
profile_tail = codes "]}], \"rules\": [{\"pattern\": [], \"profile\": \"_container_\"}]}"

unfoldable pub profile : ℕ → Bytes
unfolding push_hex
profile n = profile_head ++ push_hex (suc n) n profile_tail

-- The value of a hexadecimal digit, and 16 for every other character.
abbrev pub hex_value : ℕ → ℕ
hex_value c =
    if is_digit c
    then c - b'0'
    else if leb b'a' c && leb c b'f'
    then c - b'a' + 10
    else if leb b'A' c && leb c b'F'
    then c - b'A' + 10
    else 16

-- The leading digits on top of `acc`
unfoldable pub read_hex : ℕ → Bytes → ℕ
read_hex acc [] = acc
read_hex acc (c ∷ s) =
    let more = read_hex (acc * 16 + hex_value c) s in if ltb (hex_value c) 16 then more else acc

-- strtoumax(ptr, NULL, 16) where ptr begins with "0x"
abbrev pub behind_0x : Bytes → ℕ
unfolding read_hex
behind_0x (x ∷ y ∷ s) = let n = read_hex 0 s in if leb uintmax_mod n then uintmax_max else n
behind_0x s = 0

abbrev pub number_at : Option Bytes → Option ℕ
unfolding behind_0x
number_at none = none
number_at (some ptr) = if behind_0x ptr == uintmax_max then none else some (behind_0x ptr)

-- The number of a profile, unless it is invalid.
unfoldable pub read_profile : Bytes → Option ℕ
unfolding strstr number_at read_hex
read_profile text = number_at (strstr text (codes "0x"))

abbrev pub or_invalid : Bytes → Option ℕ → Op ℕ
or_invalid path none = fail (setx (codes "invalid application profile: " ++ path))
or_invalid path (some n) = pure n

-- The devices of the profile that is there: none without a file; an empty file gives NULL, which
-- strstr reads.
unfoldable pub devices_so_far : Bytes → Result (Option Bytes) → Op ℕ
unfolding read_profile
devices_so_far path (err e) = if has_errno enoent e then pure 0 else fail e
devices_so_far path (ok none) = crash
devices_so_far path (ok (some text)) = or_invalid path (read_profile text)

-- `1ull << minor(id)`: a shift by 64 or more is undefined.
unfoldable pub device_bit : ℕ → Op ℕ
unfolding minor
device_bit id = if ltb (minor id) 64 then pure (2 ^ minor id) else crash

unfoldable pub update_app_profile : Kernel → NvcContainer → ℕ → Op (Unit {0})
unfolding device_bit resolve file_read_text devices_so_far read_profile profile file_create
update_app_profile kernel cnt id = do
  dev ← device_bit id
  path ← resolve kernel cnt.rootfs profile_path
  text ← try (file_read_text kernel path)
  n ← devices_so_far path text
  file_create kernel path (some (profile (bit_or n dev))) cnt.uid cnt.gid (mode_reg 365)
