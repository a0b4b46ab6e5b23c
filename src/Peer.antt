-- ===== src/Peer.antt =====
-- peer: the sessions of a client and a server over signaling and transports.
pub mod Handshake
pub mod Codec
pub mod Replay
pub mod Buffer
pub mod DataChannel
pub mod SignalingChannel
pub mod Callbacks
pub mod Server
pub mod Client
mod Tests
