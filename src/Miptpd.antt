-- ===== src/Miptpd.antt =====
-- The transport daemon, miptpd/src/lib: windows, packages, the jobs of a sender and a receiver, and connections.
pub mod Window
pub mod Package
pub mod SendJob
pub mod ReceiveJob
pub mod Connection
pub mod Sending
pub mod Controller
pub mod Setup
pub mod Server
pub mod Config
pub mod Main
mod Tests
