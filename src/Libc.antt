-- ===== src/Libc.antt =====
-- The C library, blt/lib/libc.
pub mod Str
pub mod Qsem
pub mod Snprintf
pub mod Files
