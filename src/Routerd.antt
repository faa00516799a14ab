-- ===== src/Routerd.antt =====
-- The routing daemon: routerd/src.
pub mod Table
pub mod Handlers
pub mod Server
pub mod Cli
pub mod Main
pub mod Startup
