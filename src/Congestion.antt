-- ===== src/Congestion.antt =====
-- transports/transport_quic/congestion/bbr: the data structures of the BBR congestion controller.
pub mod Ring
pub mod PacketQueue
pub mod WindowedFilter
mod Tests
