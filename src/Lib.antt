-- ===== src/Lib.antt =====
-- Telekit connects a client and a server by a signaling service and then by a direct transport. This
-- library models the parts of it that keep state of their own and that the rest relies on.
--
-- transports/transport_quic/congestion/bbr is the BBR congestion controller of the QUIC transport. Its
-- sender keeps one entry per packet in flight, in a queue that is indexed by packet number and stands
-- on a ring buffer, and it keeps the best bandwidth and acknowledgement samples in windowed filters.
--   Congestion/Ring.antt: ringbuffer.go, `RingBuffer`. Its children compare it with the list of its
--     elements.
--   Congestion/PacketQueue.antt: packet_number_indexed_queue.go, `packetNumberIndexedQueue`. Its
--     children compare it with the map from packet numbers to entries.
--   Congestion/WindowedFilter.antt: windowed_filter.go, `WindowedFilter`, `MaxFilter`, `MinFilter`.
--
-- peer holds what client and server share. A session checks the sequence number of each authenticated
-- frame against a replay window, and puts the plaintext in a receive buffer, whose size is taken from
-- a budget that all connections of a server share.
--   Peer/Handshake.antt: peer/handshake.go and peer/psk.go, the checks, derivations and signatures of
--     the two hellos; its children show what an encoding and a signature fix.
--   Peer/Codec.antt: peer/codec.go, `Codec`, with the packets of signaling.
--   Peer/DataChannel.antt: peer/data_channel.go, `DataChannel`, which puts a codec for each direction
--     together with a replay window.
--   Peer/SignalingChannel.antt: peer/signaling_channel.go, `SignalingChannel`, over the packets of the
--     codec.
--   Peer/Replay.antt: peer/replay.go, `ReplayWindow`.
--   Peer/Buffer.antt: peer/buffer.go, `ByteBudget` and `RecvBuffer`.
--   Peer/Client.antt: conn.go and disconnect.go of peer/client, the transport and agent of a client.
--   Peer/Callbacks.antt: peer/callback_pool.go, `CallbackPool`.
--   Peer/Server/Write.antt: peer/server/write.go, the loop that cuts bytes into frames, and the heartbeat;
--     peer/client/write.go has the same loop.
--   Peer/Server/Read.antt: `readTransport` and `readRawTransport` of peer/server/conn.go, over the data
--     channel, the receive buffer and the budget, up to the buffer's end when the connection is closed.
--   Peer/Server/Transfer.antt: the two put together.
--   Peer/Server/Sessions.antt: the connections of a server and their leases, from limits.go, close.go,
--     conn.go and listen.go of peer/server; Peer/Server/Sessions/Hello.antt: what a hello does to them,
--     from hello.go and security.go.
--
-- utils/encryption encrypts under nonces that are a random prefix and a counter.
--   Encryption.antt: utils/encryption/nonce.go, and `Encrypt` and `Decrypt` of the five kits.
--
-- A method that changes its receiver is a function that returns the new state. A method that holds a
-- lock is one step, and calls of several goroutines are a list of such steps in the order of the lock.
-- The compare-and-swap loop of `Reserve` takes effect in one step. A panic is `none`, and
-- a returned error is `error`. Slices are
-- lists. Sizes and positions are natural numbers, since they stay far below 2^63; uint64 values that
-- wrap are taken modulo 2^64. Packet numbers are stored one higher, so that the invalid one is 0.
--
-- The loops of `clearup` and of `RemoveUpTo` run on fuel, one round for each slot of the queue; each
-- round pops a slot. The two loops of `Write` run on fuel: each round of the inner one halves the chunk,
-- each round of the outer one sends a byte at least. The loop of `readTransport` has a round for each
-- frame, and the loop of a pool's `Close` one for each task that waits. The loop of `Read` is one look at the buffer, whose result may be to wait.
--
-- signaling names rooms, route prefixes and message types, which the adapters put into topics.
--   Signaling.antt: signaling/types.go, the checks of those names.
--   Signaling/Broker.antt: signaling/websocket/broker/broker.go. Its children are the counts of
--     connections, the rooms, and the queue of a client.
--
-- transports/transport_kcp runs KCP sessions.
--   Kcp.antt: settings.go, the windows of a session. Kcp/Control.antt: congestion.go and
--     `monitorCongestion` of kcp.go, which move the send window.
--
-- relays carries packets between peers that have no direct path.
--   Relays.antt: relays/websocket/protocol.go, the frames.
--
-- The libraries are parameters, with what they document: a cipher opens what it sealed (`Aead`), a
-- signature verifies under the public key of the same seed (`Signatures`), gob decodes what it encoded
-- without an error (`Gob`), the cache of nonces has what was added last and changes no other value but
-- by evicting it (`Lru`). Whether a transport takes a frame, and
-- whether an application takes a client, is an argument. HKDF is a function of key, salt and info.
--
-- Not modelled: network and signaling services, the insides of cryptography, clocks, sockets, the client's
-- handshake and reconnection, the BBR sender and its bandwidth sampler, the sessions of KCP and the other transports, the
-- programs under example.
pub mod Common
pub mod Congestion
pub mod Peer
pub mod Encryption
pub mod Kcp
pub mod Relays
pub mod Signaling
