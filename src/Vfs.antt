-- ===== src/Vfs.antt =====
-- The file system server, blt/srv/vfs.
pub mod Types
pub mod Mounts
pub mod Rootfs
pub mod Bootfs
pub mod Server
pub mod Path
