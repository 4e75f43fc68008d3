-- ===== src/Tests/Library.antt =====
-- Paths, cgroups, the cache and the driver's files, for src/utils.c, src/cgroup_legacy.c,
-- src/ldcache.c and src/nvc_info.c.
use libxdxgpu_container.Base.{
  ◌-◌, ◌^◌, ◌≡◌, refl, inr, true, false, List, [], ◌∷◌, ◌++◌, Option, none, some, All, arith,
  if◌then◌else◌, ◌==◌,
}
use libxdxgpu_container.Base.Bits.{bit}
use libxdxgpu_container.Libc.{Bytes, codes, strcmp_eq, strncmp_eq, strstr}
use libxdxgpu_container.Error.{ok}
use libxdxgpu_container.Utils.Ids.{einval}
use libxdxgpu_container.Path.{slash, path_append, path_join}
use libxdxgpu_container.Path.Append.{components, Fits, path_append-components, path_join-components}
use libxdxgpu_container.Path.Resolve.{Link, target, not_link, Files, path_resolve}
use libxdxgpu_container.Path.Confined.{IsConfined, path_resolve-IsConfined}
use libxdxgpu_container.Cgroup.{found, has_text, cgroup_mount, cgroup_root}
use libxdxgpu_container.Utils.Str.{str_equal, str_has_prefix}
use libxdxgpu_container.Cgroup.Lines.{IsWithout, mount_line, cgroup_mount-line, cgroup_root-line}
use libxdxgpu_container.Ldcache.{Entry, ldcache_resolve}
use libxdxgpu_container.Ldcache.Sound.{names, IsSound, ldcache_resolve-IsSound}
use libxdxgpu_container.Info.{
  lookup_devices, match_library_flags, NvcDeviceNode, dxcore_libs, utility_libs,
}

joined_bin : path_join (codes "/usr/") (codes "bin") ≡ ok (codes "/usr/bin")
unfolding path_join path_append
joined_bin = refl

path_join-components_example :
    (components (codes "/usr/bin") ≡ components (codes "/usr/") ++ components (codes "bin"))
    × Fits (codes "/usr/bin")
path_join-components_example =
    path_join-components (codes "/usr/") (codes "bin") {r = codes "/usr/bin"} joined_bin

appended_bin : path_append (codes "/usr") (codes "bin") ≡ ok (codes "/usr/bin")
unfolding path_append
appended_bin = refl

path_append-components_example :
    (components (codes "/usr/bin") ≡ components (codes "/usr") ++ components (codes "bin"))
    × Fits (codes "/usr/bin")
path_append-components_example =
    path_append-components (codes "/usr") (codes "bin") {r = codes "/usr/bin"} (omega arith)
      appended_bin

-- One link, "l", to "..".
abbrev link_up : Bytes → Link
link_up s = if strcmp_eq s (codes "l") then target b'.' (codes ".") else not_link einval

abbrev one_link_files : Files
one_link_files = record { openat = λ dir path d. inr 3; readlinkat = λ fd path. link_up path }

path_resolve-IsConfined_example :
    IsConfined (path_resolve one_link_files (codes "/root") (codes "a/l/b"))
path_resolve-IsConfined_example =
    path_resolve-IsConfined one_link_files (codes "/root") (codes "a/l/b") refl

devices_named : has_text (codes "rw,devices") (codes "devices") ≡ true
unfolding has_text strstr
devices_named = refl

devices_there : has_text (codes "devices") (codes "devices") ≡ true
unfolding has_text strstr
devices_there = refl

root_inside : str_has_prefix (codes "/") (codes "/..") ≡ false
unfolding str_has_prefix strncmp_eq
root_inside = refl

docker_inside : str_has_prefix (codes "/docker/1") (codes "/..") ≡ false
unfolding str_has_prefix strncmp_eq
docker_inside = refl

not_root : str_equal (codes "/docker") (codes "/") ≡ false
unfolding str_equal strcmp_eq
not_root = refl

cgroup_mount-line_example :
    cgroup_mount
      (mount_line
        (codes "36")
        (codes "32")
        (codes "0:33")
        (codes "/")
        (codes "/sys/fs/cgroup/devices")
        (codes "rw shared:9 ")
        (codes "cgroup")
        (codes "cgroup")
        (codes "rw,devices"))
      []
      (codes "devices")
    ≡ found (codes "/sys/fs/cgroup/devices") (codes "/")
cgroup_mount-line_example =
    cgroup_mount-line (codes "36") (codes "32") (codes "0:33") (codes "/")
      (codes "/sys/fs/cgroup/devices") (codes "rw shared:9 ") (codes "cgroup") (codes "rw,devices")
      [] (codes "devices") refl refl refl (refl, refl) (refl, refl) refl refl (refl, refl)
      devices_named (refl, root_inside)

cgroup_root-line_example :
    (kept : Bytes) × (cgroup_root
        (codes "4" ++ b':' ∷ (codes "devices" ++ b':' ∷ codes "/docker/1"))
        (codes "/docker")
        (codes "devices")
      ≡ found kept (codes "/docker"))
    × IsWithout (codes "/docker") (codes "/docker/1") kept
cgroup_root-line_example =
    cgroup_root-line (codes "4") (codes "devices") (codes "/docker/1") (codes "/docker")
      (codes "devices") refl (refl, refl) refl devices_there (refl, docker_inside)

abbrev one_entry : List Entry
one_entry = record { flags = 769; key = codes "libdrm.so.2"; value = codes "/lib/libdrm.so.2" } ∷ []

one_found :
    ldcache_resolve (λ v. ok v) (λ p q. ok true) 768 one_entry (codes "libdrm.so" ∷ [])
    ≡ ok ((codes "libdrm.so", some (codes "/lib/libdrm.so.2")) ∷ [])
unfolding ldcache_resolve strncmp_eq
one_found = refl

ldcache_resolve-IsSound_example :
    (names ((codes "libdrm.so", some (codes "/lib/libdrm.so.2")) ∷ []) ≡ codes "libdrm.so" ∷ [])
    × All
        (IsSound (λ v. ok v) 768 one_entry)
        ((codes "libdrm.so", some (codes "/lib/libdrm.so.2")) ∷ [])
ldcache_resolve-IsSound_example =
    ldcache_resolve-IsSound (λ v. ok v) (λ p q. ok true) 768 one_entry (codes "libdrm.so" ∷ [])
      {after = (codes "libdrm.so", some (codes "/lib/libdrm.so.2")) ∷ []} one_found

abbrev in_usr : Bytes → Bytes → Option Bytes
in_usr [] bin = none
in_usr (c ∷ dir) bin = if c == slash then some ((c ∷ dir) ++ (slash ∷ bin)) else none

abbrev dxg_nodes : List NvcDeviceNode
dxg_nodes = record { path = codes "/dev/dxg"; id = 7 } ∷ []

-- With dxcore, one node is stored in an array that has no room.
dxg_found : lookup_devices (λ path. ok 7) true ≡ ok (0, dxg_nodes)
unfolding lookup_devices
dxg_found = refl

drm_matches : match_library_flags (codes "libdrm.so.2") (2 ^ 13 - 1) ≡ true
unfolding match_library_flags strncmp_eq bit dxcore_libs utility_libs
drm_matches = refl
