-- ===== src/Util.antt =====
-- The tools that build a boot image, blt/util.
pub mod Ini
pub mod Image
pub mod Tests
