-- ===== src/Peer/Server.antt =====
-- peer/server: the connections that a server accepts.
pub mod Write
pub mod Read
pub mod Transfer
mod Tests
pub mod Sessions
