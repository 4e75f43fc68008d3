-- ===== src/Mount/Libraries.antt =====
-- src/nvc_mount.c: the names of libraries. The regular expressions are written out for the two
-- shapes that occur.
use libxdxgpu_container.Base.{
  ℕ, ◌+◌, ◌-◌, Bool, true, false, ◌&&◌, ◌||◌, List, [], ◌∷◌, ◌++◌, map, Option, none, some, ltb,
  ◌==◌, if◌then◌else◌, length, drop,
}
use libxdxgpu_container.Libc.{Bytes, codes, is_digit, strstr, strspn, strncmp_eq}
use libxdxgpu_container.Path.{path_join}
use libxdxgpu_container.Utils.Str.{str_has_prefix, str_has_suffix}
use libxdxgpu_container.Utils.Array.{array_pack}
use libxdxgpu_container.Container.{NvcContainer}
use libxdxgpu_container.Kernel.{Kernel, Op, pure, ◌>>=◌, ◌>>◌, return}
use libxdxgpu_container.File.{file_create, mode_lnk}
use libxdxgpu_container.File.Paths.{basename, dirname}

-- `versions name` is "^name\.[0-9]+\.[0-9]+\.[0-9]+$", with the name's own dots escaped, and
-- `dri_driver` is "^xdxgpu_dr[iv].*\.so$".
pub data Pattern : Type 0 where
  versions : Bytes → Pattern
  dri_driver : Pattern

-- Digits, of which one was seen or not, and `n` more numbers behind dots.
unfoldable pub has_numbers : ℕ → Bool → Bytes → Bool
has_numbers n seen [] = seen && n == 0
has_numbers n seen (c ∷ s) =
    let rest = has_numbers (if is_digit c then n else n - 1) (is_digit c) s in
    (is_digit c || (c == b'.' && (seen && ltb 0 n))) && rest

abbrev pub is_dri : Bytes → Bool
is_dri [] = false
is_dri (c ∷ s) = (c == b'i' || c == b'v') && str_has_suffix s (codes ".so")

-- `macth_target_library`
unfoldable pub macth_target_library : Bytes → Pattern → Bool
unfolding str_has_prefix str_has_suffix has_numbers
macth_target_library lib (versions name) =
    str_has_prefix lib (name ++ codes ".") && has_numbers 2 false (drop (length name + 1) lib)
macth_target_library lib dri_driver = str_has_prefix lib (codes "xdxgpu_dr") && is_dri (drop 9 lib)

-- A library with its pattern: the links that it wants, each a target and a name.
abbrev pub when_matched : Bytes → Bytes → List (Bytes × Bytes) → List (Bytes × Bytes)
unfolding macth_target_library
when_matched lib name links = if macth_target_library lib (versions name) then links else []

-- The links of the chain of tests.
unfoldable pub links_of : Bytes → List (Bytes × Bytes)
unfolding str_has_prefix when_matched
links_of lib =
    if str_has_prefix lib (codes "libGL_xdxgpu.so")
    then when_matched lib (codes "libGL_xdxgpu.so") ((lib, codes "libGL_xdxgpu.so") ∷ [])
    else if str_has_prefix lib (codes "libxdxgpu-ml.so")
    then when_matched lib (codes "libxdxgpu-ml.so") ((lib, codes "libxdxgpu-ml.so") ∷ [])
    else if str_has_prefix lib (codes "libCL_xdxgpu.so")
    then when_matched lib (codes "libCL_xdxgpu.so")
        ((lib, codes "libOpenCL.so.1") ∷ (codes "libOpenCL.so.1", codes "libOpenCL.so") ∷ [])
    else if str_has_prefix lib (codes "libpciaccess.so")
    then when_matched lib (codes "libpciaccess.so") ((lib, codes "libpciaccess.so.0") ∷ [])
    else if str_has_prefix lib (codes "libvlk_xdxgpu.so")
    then when_matched lib (codes "libvlk_xdxgpu.so") ((lib, codes "libvlk_xdxgpu.so") ∷ [])
    else []

unfoldable pub symlink_library : Kernel → NvcContainer → Bytes → Bytes × Bytes → Op (Unit {0})
unfolding path_join dirname file_create
symlink_library kernel cnt src (target, linkname) = do
  path ← return (path_join (dirname src) linkname)
  file_create kernel path (some target) cnt.uid cnt.gid (mode_lnk 511)

unfoldable pub symlink_each : Kernel → NvcContainer → Bytes → List (Bytes × Bytes) → Op (Unit {0})
unfolding symlink_library
symlink_each kernel cnt src [] = pure tt
symlink_each kernel cnt src (l ∷ links) =
    symlink_library kernel cnt src l >> symlink_each kernel cnt src links

unfoldable pub symlink_libraries : Kernel → NvcContainer → List Bytes → Op (Unit {0})
unfolding links_of basename symlink_each
symlink_libraries kernel cnt [] = pure tt
symlink_libraries kernel cnt (path ∷ paths) =
    symlink_each kernel cnt path (links_of (basename path)) >> symlink_libraries kernel cnt paths

-- Whether the version of the driver begins with the digits behind ".so."; a library without a
-- version counts as such.
abbrev pub of_driver : Bytes → Option Bytes → Bool
of_driver nvrm_version none = true
of_driver nvrm_version (some rest) =
    let maj = drop 4 rest in strncmp_eq (strspn maj (codes "0123456789")) nvrm_version maj

unfoldable pub is_filtered : Bytes → Bytes → Bool
unfolding basename strstr strspn strncmp_eq
is_filtered nvrm_version path = of_driver nvrm_version (strstr (basename path) (codes ".so."))

abbrev pub keep_or_null : Bytes → Bytes → Option Bytes
unfolding is_filtered
keep_or_null nvrm_version path = if is_filtered nvrm_version path then none else some path

-- `filter_libraries`: the array, and the size that is left.
unfoldable pub filter_libraries : Bytes → List Bytes → List (Option Bytes) × ℕ
unfolding keep_or_null array_pack
filter_libraries nvrm_version paths =
    array_pack (map (keep_or_null nvrm_version) paths) (length paths)
