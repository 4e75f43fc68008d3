-- ===== src/Tests/Command.antt =====
-- The configure command, for src/cli/configure.c.
use libxdxgpu_container.Base.{◌≡◌, refl, true, false, List, [], ◌∷◌, ◌++◌, none, arith}
use libxdxgpu_container.Base.Int.{pos}
use libxdxgpu_container.Libc.{codes}
use libxdxgpu_container.Configure.{Context, Library}
use libxdxgpu_container.Configure.Command.{configure_command}
use libxdxgpu_container.Configure.Command.Phases.{Lawful}
use libxdxgpu_container.Configure.Command.Trace.{configure_command-Lawful}
use libxdxgpu_container.Configure.Command.Quiet.{mounted}
use libxdxgpu_container.Configure.Command.Gate.{IsCleared, configure_command-IsCleared}
use libxdxgpu_container.Configure.Parser.{Key, compute_option, argument, success, parse_keys}
use libxdxgpu_container.Configure.Parser.Open.{IsOpen, Leaves}
use libxdxgpu_container.Configure.Parser.Accepts.{IsClosed, parse_keys-IsClosed}

abbrev start : Context
start = record {
  init_flags = none;
  load_kmods = false;
  pid = pos 0;
  rootfs = none;
  reqs = [];
  ldconfig = none;
  container_flags = none;
  devices = none;
  mig_config = none;
  mig_monitor = none;
}

-- A library on which everything succeeds, with no device.
abbrev calm : Library
calm = record {
  respond = λ h c. none;
  drv = record { nvrm_version = none; cuda_version = none };
  dev = [];
}

configure_command-Lawful_example : Lawful (configure_command calm [] start).0
configure_command-Lawful_example = configure_command-Lawful calm [] start

mounts : mounted (configure_command calm [] start).0 ≡ true
unfolding configure_command
mounts = refl

configure_command-IsCleared_example : IsCleared calm [] start
configure_command-IsCleared_example = configure_command-IsCleared calm [] start mounts

abbrev keys : List Key
keys = compute_option ∷ argument 0 (codes "/container") ∷ []

start-IsOpen : IsOpen start
start-IsOpen = record { few = omega arith; rooted = tt; no_supervised = refl; no_standalone = refl }

parse_keys-IsClosed_example : Leaves IsClosed (parse_keys 1 (pos 7) (keys ++ success ∷ []) start)
parse_keys-IsClosed_example =
    parse_keys-IsClosed 1 (pos 7) keys start (refl, (refl, tt)) start-IsOpen
