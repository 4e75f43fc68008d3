-- ===== src/Mount/Inside.antt =====
-- src/nvc_mount.c: where the mounts happen. What every call but setns keeps, the bodies of the
-- operations keep; so they stay in the namespace that they have entered.
pub mod Single
pub mod Bodies
pub mod Operations
pub mod Capabilities
pub mod Entered
