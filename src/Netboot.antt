-- ===== src/Netboot.antt =====
-- The network boot loader, blt/netboot.
pub mod Console
pub mod Packets
pub mod Tests
