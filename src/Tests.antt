-- ===== src/Tests.antt =====
-- The theorems at concrete inputs.
mod Library
mod Texts
mod Selection
mod Command
mod Container
mod Mounts
mod Updates
mod Contexts
