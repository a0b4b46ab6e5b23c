-- ===== src/Relays/Tests.antt =====
-- A concrete packet.
use telekit.Common.{ℕ, ◌+◌, ◌≡◌, refl, arith, List, [], ◌∷◌, ◌++◌, length, some}
use telekit.Common.Results.{ok}
use telekit.Relays.{UdpAddr, encode_frame, decode_frame, v4_in_v6_prefix, to16}
use telekit.Relays.Frames.{decode_frame-encode_frame}

abbrev destination : UdpAddr
destination = record { ip = 10 ∷ 0 ∷ 0 ∷ 7 ∷ []; port = 5000 }

abbrev packet : List ℕ
packet = 1 ∷ 2 ∷ 3 ∷ []

decode_frame-encode_frame_example :
    (frame : List ℕ) × (encode_frame (some destination) packet ≡ ok frame)
    × (length frame ≡ 22 + length packet)
    × (decode_frame frame
        ≡ ok (record { ip = v4_in_v6_prefix ++ destination.ip; port = 5000 }, packet))
unfolding to16
decode_frame-encode_frame_example =
    decode_frame-encode_frame destination packet (v4_in_v6_prefix ++ destination.ip) refl
      (omega arith) (omega arith)
