-- ===== src/Info/Flags.antt =====
-- Which libraries the flags of a container let in.
use libxdxgpu_container.Base.{ℕ, ◌≡◌, true, arith}
use libxdxgpu_container.Base.Bits.{bit}
use libxdxgpu_container.Libc.{Bytes}
use libxdxgpu_container.Options.Table.{
  opt_utility_libs, opt_compute_libs, opt_video_libs, opt_graphics_libs,
}
use libxdxgpu_container.Info.{match_library_flags}

-- More flags never shut out a library that fewer flags let in.
pub match_library_flags_mono :
    (lib : Bytes) (f g : ℕ)
    → ((k : ℕ) → bit k f ≡ true → bit k g ≡ true)
    → match_library_flags lib f ≡ true
    → match_library_flags lib g ≡ true
unfolding match_library_flags
match_library_flags_mono lib f g h m =
    ground (arith, h opt_utility_libs, h opt_compute_libs, h opt_video_libs, h opt_graphics_libs)
