-- ===== src/Util.antt =====
-- src/util.
pub mod Binary
pub mod Elf
