-- ===== src/Mipd.antt =====
-- The link daemon: mipd/src.
pub mod Packaging
pub mod Link
pub mod Interface
pub mod Arp
pub mod Router
pub mod Server
pub mod Cli
pub mod Startup
mod Tests
