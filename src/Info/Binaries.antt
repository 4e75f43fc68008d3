-- ===== src/Info/Binaries.antt =====
-- src/nvc_info.c: the directories of PATH are searched in order.
use libxdxgpu_container.Base.{List, [], ◌∷◌, Option, none, some}
use libxdxgpu_container.Libc.{Bytes}
use libxdxgpu_container.Info.{or_dot}

-- The path in the first directory that has the binary.
abbrev pub first_in : (Bytes → Bytes → Option Bytes) → List Bytes → Bytes → Option Bytes
first_in lookup [] bin = none
first_in lookup (dir ∷ dirs) bin = elim (lookup (or_dot dir) bin) [
  | none ↦ first_in lookup dirs bin
  | some path ↦ some path
]

-- What a slot holds in the end.
abbrev filled :
    (Bytes → Bytes → Option Bytes) → List Bytes → Bytes × Option Bytes → Bytes × Option Bytes
filled lookup dirs (bin, some path) = (bin, some path)
filled lookup dirs (bin, none) = (bin, first_in lookup dirs bin)
