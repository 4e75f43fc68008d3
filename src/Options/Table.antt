-- ===== src/Options/Table.antt =====
-- src/options.h: the option tables. A flag `1 << k` is named by its bit `k`.
use libxdxgpu_container.Base.{ℕ, ◌+◌, ◌^◌, List, [], ◌∷◌}
use libxdxgpu_container.Libc.{Bytes, codes}
use libxdxgpu_container.Options.{OptionWord}

abbrev pub opt_supervised : ℕ
opt_supervised = 0

abbrev pub opt_standalone : ℕ
opt_standalone = 1

abbrev pub opt_no_cgroups : ℕ
opt_no_cgroups = 2

abbrev pub opt_no_devbind : ℕ
opt_no_devbind = 3

abbrev pub opt_no_cntlibs : ℕ
opt_no_cntlibs = 4

abbrev pub opt_utility_libs : ℕ
opt_utility_libs = 5

abbrev pub opt_compute_libs : ℕ
opt_compute_libs = 6

abbrev pub opt_ngx_libs : ℕ
opt_ngx_libs = 7

abbrev pub opt_video_libs : ℕ
opt_video_libs = 8

abbrev pub opt_graphics_libs : ℕ
opt_graphics_libs = 9

abbrev pub opt_display : ℕ
opt_display = 10

abbrev pub opt_utility_bins : ℕ
opt_utility_bins = 11

abbrev pub opt_compute_bins : ℕ
opt_compute_bins = 12

abbrev pub opt_compat32 : ℕ
opt_compat32 = 13

abbrev pub opt_no_glvnd : ℕ
opt_no_glvnd = 0

abbrev pub opt_no_uvm : ℕ
opt_no_uvm = 1

abbrev pub opt_no_modeset : ℕ
opt_no_modeset = 2

abbrev pub opt_no_mps : ℕ
opt_no_mps = 3

abbrev pub opt_no_persistenced : ℕ
opt_no_persistenced = 4

abbrev pub opt_no_fabricmanager : ℕ
opt_no_fabricmanager = 5

abbrev pub opt_load_kmods : ℕ
opt_load_kmods = 0

-- A table entry.
abbrev word : Bytes → ℕ → OptionWord
word name value = record { name = name; value = value }

abbrev pub library_opts : List OptionWord
library_opts = word (codes "load-kmods") (2 ^ opt_load_kmods) ∷ []

abbrev pub driver_opts : List OptionWord
driver_opts =
    word (codes "no-glvnd") (2 ^ opt_no_glvnd)
    ∷ word (codes "no-uvm") (2 ^ opt_no_uvm)
    ∷ word (codes "no-modeset") (2 ^ opt_no_modeset)
    ∷ word (codes "no-mps") (2 ^ opt_no_mps)
    ∷ word (codes "no-persistenced") (2 ^ opt_no_persistenced)
    ∷ word (codes "no-fabricmanager") (2 ^ opt_no_fabricmanager)
    ∷ []

abbrev pub container_opts : List OptionWord
container_opts =
    word (codes "supervised") (2 ^ opt_supervised)
    ∷ word (codes "standalone") (2 ^ opt_standalone)
    ∷ word (codes "no-cgroups") (2 ^ opt_no_cgroups)
    ∷ word (codes "no-devbind") (2 ^ opt_no_devbind)
    ∷ word (codes "no-cntlibs") (2 ^ opt_no_cntlibs)
    ∷ word (codes "utility") (2 ^ opt_utility_bins + 2 ^ opt_utility_libs)
    ∷ word (codes "compute") (2 ^ opt_compute_bins + 2 ^ opt_compute_libs)
    ∷ word (codes "video") (2 ^ opt_video_libs + 2 ^ opt_compute_libs)
    ∷ word (codes "graphics") (2 ^ opt_graphics_libs)
    ∷ word (codes "display") (2 ^ opt_display + 2 ^ opt_graphics_libs)
    ∷ word (codes "ngx") (2 ^ opt_ngx_libs)
    ∷ word (codes "compat32") (2 ^ opt_compat32)
    ∷ []

abbrev pub default_library_opts : Bytes
default_library_opts = []

abbrev pub default_driver_opts : Bytes
default_driver_opts = []

abbrev pub default_container_opts : Bytes
default_container_opts = codes "standalone no-cgroups no-devbind utility"
