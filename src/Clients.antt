-- ===== src/Clients.antt =====
-- The sample programs around the daemons: ping-client, ping-server and tpclient.
pub mod Ping
pub mod Transport
mod Tests
