-- ===== src/Mount/Undone.antt =====
-- src/nvc_mount.c: what stays mounted where nvc_driver_mount fails, and where it succeeds.
pub mod Rules
pub mod Single
pub mod Many
pub mod All
pub mod Whole
