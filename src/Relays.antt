-- ===== src/Relays.antt =====
-- relays/websocket/protocol.go: the frames of a relay. `net.IP` is a byte string, of 4 bytes or of 16; a port
-- below 0 is refused as one above 65535 is. `none` is a destination that is no UDP address.
pub mod Frames
mod Tests
use telekit.Common.{
  ℕ, ◌+◌, ◌-◌, Bool, true, false, not, ◌&&◌, ◌||◌, Option, none, some, List, [], ◌∷◌, ◌++◌, ◌==◌,
  ltb, if◌then◌else◌, length, take, drop, replicate, get_elem?,
}
use telekit.Common.Bytes.{big_endian, number, same_bytes}
use telekit.Common.Results.{Result, ok, error}

pub record UdpAddr : Type 0 where
  pub ip : List ℕ
  pub port : ℕ

pub data FrameError : Type 0 where
  no_udp_address packet_too_large invalid_destination invalid_frame : FrameError

abbrev pub frame_magic0 : ℕ
frame_magic0 = 84

abbrev pub frame_magic1 : ℕ
frame_magic1 = 87

abbrev pub frame_version : ℕ
frame_version = 1

abbrev pub frame_header_size : ℕ
frame_header_size = 22

abbrev pub max_relay_packet : ℕ
max_relay_packet = 65535 - frame_header_size

-- `To4`, `To16` and `IPv4` of package net.
abbrev pub v4_in_v6_prefix : List ℕ
v4_in_v6_prefix = replicate 10 0 ++ 255 ∷ 255 ∷ []

unfoldable pub to4 : List ℕ → Option (List ℕ)
to4 ip =
    if length ip == 4
    then some ip
    else if length ip == 16 && same_bytes (take 12 ip) v4_in_v6_prefix
    then some (drop 12 ip)
    else none

unfoldable pub to16 : List ℕ → Option (List ℕ)
to16 ip =
    if length ip == 4
    then some (v4_in_v6_prefix ++ ip)
    else if length ip == 16
    then some ip
    else none

-- The family, and the bytes of the address.
unfoldable pub family_of : List ℕ → Option (ℕ × List ℕ)
family_of ip = elim (to4 ip) [
  | some v4 ↦ some (4, v4)
  | none ↦ elim (to16 ip) [ some v6 ↦ some (6, v6) | none ↦ none ]
]

-- `copy` into `n` fresh bytes.
abbrev pub copied : ℕ → List ℕ → List ℕ
copied n bytes = take n bytes ++ replicate (n - length bytes) 0

unfoldable pub frame_with : ℕ → List ℕ → ℕ → List ℕ → List ℕ
frame_with family ip port payload =
    frame_magic0 ∷ frame_magic1 ∷ frame_version ∷ family ∷ []
    ++ (big_endian 2 port ++ (copied 16 ip ++ payload))

unfoldable pub encode_frame : Option UdpAddr → List ℕ → Result FrameError (List ℕ)
encode_frame none payload = error no_udp_address
encode_frame (some a) payload =
    if ltb max_relay_packet (length payload)
    then error packet_too_large
    else (elim (family_of a.ip) [
      | none ↦ error invalid_destination
      | some (family, ip) ↦
          if ltb 65535 a.port
          then error invalid_destination
          else ok (frame_with family ip a.port payload)
    ])

abbrev pub byte_at : List ℕ → ℕ → ℕ
byte_at bytes i = elim (get_elem? bytes i) [ none ↦ 0 | some b ↦ b ]

unfoldable pub decode_frame : List ℕ → Result FrameError (UdpAddr × List ℕ)
decode_frame frame =
    if ltb (length frame) frame_header_size
      || not (byte_at frame 0 == frame_magic0)
      || not (byte_at frame 1 == frame_magic1)
      || not (byte_at frame 2 == frame_version)
    then error invalid_frame
    else (let port = number 0 (take 2 (drop 4 frame)) in
        if byte_at frame 3 == 4
        then ok
            (record { ip = v4_in_v6_prefix ++ take 4 (drop 6 frame); port = port }, drop 22 frame)
        else if byte_at frame 3 == 6
        then ok (record { ip = take 16 (drop 6 frame); port = port }, drop 22 frame)
        else error invalid_frame)
