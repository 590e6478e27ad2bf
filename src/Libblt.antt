-- ===== src/Libblt.antt =====
-- The support library, blt/lib/libblt.
pub mod Hash
