-- ===== src/Utils.antt =====
-- src/utils.c.
pub mod Str
pub mod Array
pub mod Ids
