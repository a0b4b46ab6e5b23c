-- ===== src/Peer/Server/Transfer.antt =====
-- peer/server/write.go against conn.go: the frames of one end's `Write` read at the other end.
pub mod Links
pub mod Arrivals
pub mod Whole
