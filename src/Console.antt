-- ===== src/Console.antt =====
-- The console server, blt/srv/console2.
pub mod Screen
pub mod Ansi
