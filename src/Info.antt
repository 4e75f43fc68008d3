-- ===== src/Info.antt =====
-- src/nvc_info.c: which libraries, binaries and devices of the driver there are.
pub mod Binaries
pub mod Flags
use libxdxgpu_container.Base.{
  ℕ, ◌+◌, ◌*◌, Bool, true, false, not, ◌&&◌, ◌||◌, List, [], ◌∷◌, ◌++◌, map, Option, none, some,
  ltb, if◌then◌else◌, length,
}
use libxdxgpu_container.Base.Bits.{bit}
use libxdxgpu_container.Libc.{Bytes, codes, strstr, tokens}
use libxdxgpu_container.Error.{Result, ok, err, setx, ◌>>=◌, ◌>>◌}
use libxdxgpu_container.Options.Table.{
  opt_utility_bins, opt_utility_libs, opt_compute_libs, opt_video_libs, opt_graphics_libs,
}
use libxdxgpu_container.Utils.Str.{str_has_prefix, str_array_match_prefix}
use libxdxgpu_container.Utils.Array.{array_pack}
use libxdxgpu_container.Path.{path_join}
use libxdxgpu_container.Ldcache.{Entry, ldcache_resolve}

unfoldable pub utility_bins : List Bytes
utility_bins = codes "xdxsmi" ∷ []

unfoldable pub utility_libs : List Bytes
utility_libs =
    codes "libxdxgpu-ml.so"
    ∷ codes "libpciaccess.so"
    ∷ codes "libva.so"
    ∷ codes "libva-drm.so"
    ∷ codes "libdrm.so"
    ∷ []

unfoldable pub compute_libs : List Bytes
compute_libs = codes "libCL_xdxgpu.so" ∷ codes "libdrm.so" ∷ []

unfoldable pub video_libs : List Bytes
video_libs =
    codes "libva.so"
    ∷ codes "libva-x11.so"
    ∷ codes "xdxgpu_dri.so"
    ∷ codes "xdxgpu_drv_video.so"
    ∷ codes "xdxgpu_drv_video_a0.so"
    ∷ codes "xdxgpu_drv_video_b0.so"
    ∷ []

unfoldable pub graphics_libs : List Bytes
graphics_libs =
    codes "libEGL_mesa.so"
    ∷ codes "libEGL.so"
    ∷ codes "libglapi.so"
    ∷ codes "libGLdispatch.so"
    ∷ codes "libGLESv1_CM.so"
    ∷ codes "libGLESv1_CM_xdxgpu.so"
    ∷ codes "libGLESv2.so"
    ∷ codes "libGLESv2_xdxgpu.so"
    ∷ codes "libGL.so"
    ∷ codes "libGL_xdxgpu.so"
    ∷ codes "libGLX_mesa.so"
    ∷ codes "libGLX.so"
    ∷ codes "libOpenGL.so"
    ∷ codes "libusc_xdxgpu.so"
    ∷ codes "libufgen_xdxgpu.so"
    ∷ codes "libgsl_xdxgpu.so"
    ∷ codes "libdri_xdxgpu.so"
    ∷ codes "libdrm_xdxgpu.so"
    ∷ codes "libxdxgpu_mesa_wsi.so"
    ∷ codes "libvlk_xdxgpu.so"
    ∷ codes "xdxgpu_dri.so"
    ∷ []

unfoldable pub dxcore_libs : List Bytes
dxcore_libs = codes "libdxcore.so" ∷ []

-- `match_binary_flags`
unfoldable pub match_binary_flags : Bytes → ℕ → Bool
unfolding str_array_match_prefix bit
match_binary_flags bin flags = bit opt_utility_bins flags && str_array_match_prefix bin utility_bins

-- `match_library_flags`
unfoldable pub match_library_flags : Bytes → ℕ → Bool
unfolding str_array_match_prefix bit
match_library_flags lib flags =
    if str_array_match_prefix lib dxcore_libs
    then true
    else if bit opt_utility_libs flags && str_array_match_prefix lib utility_libs
    then true
    else if bit opt_compute_libs flags && str_array_match_prefix lib compute_libs
    then true
    else if bit opt_video_libs flags && str_array_match_prefix lib video_libs
    then true
    else bit opt_graphics_libs flags && str_array_match_prefix lib graphics_libs

abbrev pub xdx_library_dir : Bytes
xdx_library_dir = codes "/opt/xdxgpu/lib/x86_64-linux-gnu"

abbrev pub system_library_dir : Bytes
system_library_dir = codes "/usr/lib/x86_64-linux-gnu"

-- The system's library does not replace the one of the driver.
unfoldable pub prefers : Option Bytes → Bytes → Bool
unfolding str_has_prefix
prefers none alt_path = true
prefers (some orig_path) alt_path =
    not (str_has_prefix orig_path xdx_library_dir && str_has_prefix alt_path system_library_dir)

-- `select_libraries`; `elf_open` says whether libelf can open the file.
unfoldable pub select_libraries :
    (Bytes → Result (Unit {0})) → Bytes → Option Bytes → Bytes → Result Bool
unfolding path_join prefers
select_libraries elf_open root orig_path alt_path = do
  path ← path_join root alt_path
  elf_open path
  ok (prefers orig_path alt_path)

-- `select_wsl_libraries`
unfoldable pub select_wsl_libraries : Option Bytes → Bytes → Result Bool
unfolding strstr
select_wsl_libraries none alt_path = ok true
select_wsl_libraries (some orig_path) alt_path = elim (strstr orig_path (codes "/wsl/lib/")) [
  | none ↦ ok true
  | some s ↦ ok false
]

-- The names that `lookup_libraries` looks for.
unfoldable pub wanted_libraries : Bool → List Bytes
wanted_libraries dxcore =
    utility_libs
    ++ (compute_libs ++ (video_libs ++ (graphics_libs ++ (if dxcore then dxcore_libs else []))))

abbrev pub paths_of : List (Bytes × Option Bytes) → List (Option Bytes)
paths_of [] = []
paths_of ((lib, p) ∷ slots) = p ∷ paths_of slots

-- `lookup_libraries`, at one of the two architectures, on the entries that the cache holds: the
-- array and its size, packed.
unfoldable pub lookup_libraries :
    (Bytes → Result Bytes)
    → (Option Bytes → Bytes → Result Bool)
    → Bool
    → ℕ
    → List Entry
    → Result (List (Option Bytes) × ℕ)
unfolding ldcache_resolve wanted_libraries array_pack
lookup_libraries resolve select dxcore arch entries = do
  slots ← ldcache_resolve resolve select arch entries (wanted_libraries dxcore)
  ok (array_pack (paths_of slots) (length (paths_of slots)))

-- `*dir == '\0'`
abbrev pub or_dot : Bytes → Bytes
or_dot [] = codes "."
or_dot (c ∷ dir) = c ∷ dir

-- The inner loop of `find_binary_paths`, for one directory. `lookup` joins the two, resolves the path
-- below the root directory, and gives it if the file is there.
unfoldable pub search_dir :
    (Bytes → Bytes → Option Bytes)
    → Bytes
    → List (Bytes × Option Bytes)
    → List (Bytes × Option Bytes)
search_dir lookup dir [] = []
search_dir lookup dir ((bin, some path) ∷ slots) = (bin, some path) ∷ search_dir lookup dir slots
search_dir lookup dir ((bin, none) ∷ slots) =
    (bin, lookup (or_dot dir) bin) ∷ search_dir lookup dir slots

-- The outer loop
unfoldable pub search_dirs :
    (Bytes → Bytes → Option Bytes)
    → List Bytes
    → List (Bytes × Option Bytes)
    → List (Bytes × Option Bytes)
unfolding search_dir
search_dirs lookup [] slots = slots
search_dirs lookup (dir ∷ dirs) slots = search_dirs lookup dirs (search_dir lookup dir slots)

-- `find_binary_paths` without dxcore; `env` is the value of PATH.
unfoldable pub find_binary_paths :
    (Bytes → Bytes → Option Bytes)
    → Option Bytes
    → List Bytes
    → Result (List (Bytes × Option Bytes))
unfolding search_dirs
find_binary_paths lookup none bins = err (setx (codes "environment variable PATH not found"))
find_binary_paths lookup (some env) bins =
    ok (search_dirs lookup (tokens (codes ":") env) (map (λ (bin : Bytes). (bin, none)) bins))

-- `struct nvc_device_node`
pub record NvcDeviceNode : Type 0 where
  pub path : Bytes
  pub id : ℕ

-- makedev(226, 128)
abbrev pub render_id : ℕ
render_id = 226 * 256 + 128

abbrev pub render_node : NvcDeviceNode
render_node = record { path = codes "/dev/dri/renderD128"; id = render_id }

abbrev pub dxg_path : Bytes
dxg_path = codes "/dev/dxg"

-- `dxg`, where `has_dxg` is set.
unfoldable pub look_for_dxg : (Bytes → Result ℕ) → Bool → Result (Option NvcDeviceNode)
look_for_dxg stat true = do id ← stat dxg_path; ok (some (record { path = dxg_path; id = id }))
look_for_dxg stat false = ok none

-- `render`, where `has_render` is set.
unfoldable pub look_for_render : Bool → Option NvcDeviceNode
look_for_render true = none
look_for_render false = some render_node

-- `has_dxg` and `has_render` as numbers
unfoldable pub has : Option NvcDeviceNode → ℕ
has none = 0
has (some node) = 1

-- `if (has) *(node++) = ...`
unfoldable pub store_node : Option NvcDeviceNode → List NvcDeviceNode → List NvcDeviceNode
store_node none nodes = nodes
store_node (some node) nodes = nodes ++ node ∷ []

-- `lookup_devices`: the size of the array that is allocated, and the nodes that are stored in it.
-- `stat` gives the device of a path.
unfoldable pub lookup_devices : (Bytes → Result ℕ) → Bool → Result (ℕ × List NvcDeviceNode)
unfolding look_for_dxg look_for_render has store_node
lookup_devices stat dxcore = do
  dxg ← look_for_dxg stat dxcore
  let render = look_for_render dxcore
  ok (has render, store_node render (store_node dxg []))
