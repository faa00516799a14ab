-- ===== src/Commons.antt =====
-- Code shared by the daemons: commons/src.
pub mod LinkedList
pub mod ClientPackage
pub mod MipdMessage
pub mod Strings
pub mod Sockets
mod Tests
