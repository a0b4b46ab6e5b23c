-- ===== src/Signaling/Broker.antt =====
-- signaling/websocket/broker/broker.go: `Broker`. Names of rooms and addresses are numbers.
pub mod Counts
pub mod Members
pub mod Queue
pub mod Backlog
pub mod Rooms
pub mod Reach
mod Tests
