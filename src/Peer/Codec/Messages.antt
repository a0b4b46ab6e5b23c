-- ===== src/Peer/Codec/Messages.antt =====
-- `EncodeMessage`, and `DecodeMessage` at the other end.
use telekit.Common.{refl, ℕ, ◌+◌, ◌<◌, ◌≡◌, true, List, []}
use telekit.Encryption.{max_uint64}
use telekit.Encryption.Kits.{used}
use telekit.Peer.Codec.{
  Codec, Gob, Message, marshal_header, marshal_payload, aad_domain_header, aad_domain_payload,
}
use telekit.Peer.Codec.Packets.{IsMatched, spent, sent_by, packet_of}

spent-IsMatched :
    (c d : Codec) (v : IsMatched c d)
    → v.kit.nonce.counter + 1 < max_uint64
    → IsMatched (spent v.kit c) d
spent-IsMatched c d v h = record {
  kit = used v.kit;
  other = v.other;
  sender_kit = refl;
  receiver_kit = v.receiver_kit;
  ready = record { sized = v.ready.sized; left = h };
  same_cipher = v.same_cipher;
  same_data = v.same_data;
  sender_prepared = record {
    data_prepared = v.sender_prepared.data_prepared;
    header_prepared = v.sender_prepared.header_prepared;
  };
  receiver_prepared = v.receiver_prepared;
}

-- gob encodes the header and the payload.
pub record IsEncodable {H P : Type 0} (gob : Gob H P) (m : Message H P) : Type 0 where
  pub header_encodes : (gob.write_header m.header).1 ≡ true
  pub payload_encodes : (gob.write_payload m.payload).1 ≡ true

module _ {H P : Type 0} (gob : Gob H P) (c d : Codec) (m : Message H P) (v : IsMatched c d)
    (g : IsEncodable gob m) where
  abbrev header : List ℕ
  header = marshal_header gob m.header

  abbrev payload : List ℕ
  payload = marshal_payload gob m.payload

  -- The packet with an encrypted header, which takes two nonces, and the one with a clear header.
  abbrev header_sent : List ℕ
  header_sent = sent_by v.kit c header aad_domain_header []

  abbrev payload_after : List ℕ
  payload_after = sent_by (used v.kit) (spent v.kit c) payload aad_domain_payload header

  abbrev payload_sent : List ℕ
  payload_sent = sent_by v.kit c payload aad_domain_payload header

  abbrev global_packet : List ℕ
  global_packet = packet_of gob header_sent payload_after 1

  abbrev partial_packet : List ℕ
  partial_packet = packet_of gob header payload_sent 0
