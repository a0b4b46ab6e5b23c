-- ===== src/Relays/Frames.antt =====
-- What is encoded is decoded.
use telekit.Common.{
  ℕ, ◌+◌, ◌-◌, ◌≤◌, ◌≡◌, refl, ap, sym, ◌∙◌, false, none, some, List, ◌++◌, ◌==◌, ltb, length, take,
  drop, replicate, arith, ◌⊎◌, inl, inr, Bool-cases, length-append, length-drop, length-replicate,
  take-append-drop, take-append, take-front, drop-front, drop-add, take-all, append_assoc,
}
use telekit.Common.Bytes.{
  big_endian, length-big_endian, number, number-big_endian, same_bytes, same_bytes_sound,
}
use telekit.Common.Results.{Result, ok}
use telekit.Relays.{
  UdpAddr, FrameError, encode_frame, decode_frame, frame_with, family_of, to4, to16,
  v4_in_v6_prefix, copied, max_relay_packet,
}

-- The bytes of an address in its two forms.
family_of-cases :
    (ip : List ℕ)
    → (to16 ip ≡ none)
      ⊎ ((bytes : List ℕ) × (family_of ip ≡ some (4, bytes))
          × (length bytes ≡ 4)
          × (to16 ip ≡ some (v4_in_v6_prefix ++ bytes)))
      ⊎ ((bytes : List ℕ) × (family_of ip ≡ some (6, bytes))
          × (length bytes ≡ 16)
          × (to16 ip ≡ some bytes))
unfolding family_of to4 to16
family_of-cases ip = elim (Bool-cases (length ip == 4)) [
  | inl f ↦ inr (inl (ip, ground arith, ground arith, ground arith))
  | inr f ↦ elim (Bool-cases (length ip == 16)) [
    | inr g ↦ inl (ground arith)
    | inl g ↦ elim (Bool-cases (same_bytes (take 12 ip) v4_in_v6_prefix)) [
      | inr h ↦ inr (
          inr (
            ip,
            rw (f, g, h, family_of, to4, to16) (rw (f, g) refl),
            ground arith,
            rw (f, g, to16) refl,
          ))
      | inl h ↦
          let whole : ip ≡ v4_in_v6_prefix ++ drop 12 ip =
            sym (take-append-drop 12 ip)
            ∙ ap (λ xs. xs ++ drop 12 ip) (same_bytes_sound (take 12 ip) v4_in_v6_prefix h) in
          inr (
            inl (
              drop 12 ip,
              rw (f, g, h, family_of, to4) refl,
              ground (arith, length-drop 12 ip),
              rw (f, g, to16) (ap some whole),
            ))
    ]
  ]
]

-- A frame in its parts.
module _ (family : ℕ) (ip : List ℕ) (port : ℕ) (payload : List ℕ) (l : length ip ≤ 16) where
  abbrev frame : List ℕ
  frame = frame_with family ip port payload

  length-copied : length (copied 16 ip) ≡ 16
  length-copied =
      length-append (take 16 ip) (replicate (16 - length ip) 0)
      ∙ omega (arith, ap length (take-all 16 ip l), length-replicate {A = ℕ} (16 - length ip) 0)

  length-frame_with : length frame ≡ 22 + length payload
  unfolding frame_with
  length-frame_with = omega (
    arith,
    length-append (big_endian 2 port) (copied 16 ip ++ payload),
    length-append (copied 16 ip) payload,
    length-big_endian 2 port,
    length-copied,
  )

  frame-port : take 2 (drop 4 frame) ≡ big_endian 2 port
  unfolding frame_with
  frame-port = take-front 2 (big_endian 2 port) (copied 16 ip ++ payload) (length-big_endian 2 port)

  frame-rest : drop 6 frame ≡ copied 16 ip ++ payload
  unfolding frame_with
  frame-rest = drop-front 2 (big_endian 2 port) (copied 16 ip ++ payload) (length-big_endian 2 port)

  frame-payload : drop 22 frame ≡ payload
  frame-payload =
      drop-add 6 16 frame
      ∙ ap (drop 16) frame-rest
      ∙ drop-front 16 (copied 16 ip) payload length-copied

  frame-ip : take (length ip) (drop 6 frame) ≡ ip
  frame-ip =
      ap (take (length ip)) (
        frame-rest
        ∙ ap (λ xs. xs ++ replicate (16 - length ip) 0 ++ payload) (take-all 16 ip l)
        ∙ append_assoc ip (replicate (16 - length ip) 0) payload)
      ∙ take-append ip (replicate (16 - length ip) 0 ++ payload)

abbrev Decoded : Type 0
Decoded = Result FrameError (UdpAddr × List ℕ)

abbrev decoded : List ℕ → ℕ → List ℕ → Decoded
decoded ip port payload = ok (record { ip = ip; port = port }, payload)

decoded-eq :
    {ip ip' : List ℕ} {port port' : ℕ} {payload payload' : List ℕ}
    → ip ≡ ip'
    → port ≡ port'
    → payload ≡ payload'
    → decoded ip port payload ≡ decoded ip' port' payload'
decoded-eq e f g = cc

module _ (ip : List ℕ) (port : ℕ) (payload : List ℕ) (l : port ≤ 65535) where
  port-eq :
      (family : ℕ)
      → length ip ≤ 16
      → number 0 (take 2 (drop 4 (frame_with family ip port payload))) ≡ port
  port-eq family h =
      ap (number 0) (frame-port family ip port payload h) ∙ number-big_endian 2 port (omega arith)

  long_enough :
      (family : ℕ) → length ip ≤ 16 → ltb (length (frame_with family ip port payload)) 22 ≡ false
  long_enough family h = ground (arith, length-frame_with family ip port payload h)

  decode-v4 :
      length ip ≡ 4
      → decode_frame (frame_with 4 ip port payload) ≡ decoded (v4_in_v6_prefix ++ ip) port payload
  unfolding decode_frame frame_with
  decode-v4 e =
      let h : length ip ≤ 16 = omega arith in
      let taken : take 4 (drop 6 (frame_with 4 ip port payload)) ≡ ip =
        ap (λ k. take k (drop 6 (frame_with 4 ip port payload))) (sym e)
        ∙ frame-ip 4 ip port payload h in
      rw (long_enough 4 h, decode_frame)
        (decoded-eq (ap (λ xs. v4_in_v6_prefix ++ xs) taken) (port-eq 4 h)
          (frame-payload 4 ip port payload h))

  decode-v6 : length ip ≡ 16 → decode_frame (frame_with 6 ip port payload) ≡ decoded ip port payload
  unfolding decode_frame frame_with
  decode-v6 e =
      let h : length ip ≤ 16 = omega arith in
      let taken : take 16 (drop 6 (frame_with 6 ip port payload)) ≡ ip =
        ap (λ k. take k (drop 6 (frame_with 6 ip port payload))) (sym e)
        ∙ frame-ip 6 ip port payload h in
      rw (long_enough 6 h, decode_frame)
        (decoded-eq taken (port-eq 6 h) (frame-payload 6 ip port payload h))

-- A packet of at most 65513 bytes to an address of 4 or 16 bytes and a port of 16 bits is encoded in a frame
-- 22 bytes longer, and that frame is decoded to the address in its 16 bytes, the port and the packet.
pub decode_frame-encode_frame :
    (a : UdpAddr) (payload ip : List ℕ)
    → to16 a.ip ≡ some ip
    → a.port ≤ 65535
    → length payload ≤ max_relay_packet
    → (frame : List ℕ) × (encode_frame (some a) payload ≡ ok frame)
      × (length frame ≡ 22 + length payload)
      × (decode_frame frame ≡ ok (record { ip = ip; port = a.port }, payload))
unfolding encode_frame
decode_frame-encode_frame a payload ip e l k =
    let small : ltb max_relay_packet (length payload) ≡ false = ground arith in
    let port : ltb 65535 a.port ≡ false = ground arith in
    elim (family_of-cases a.ip) [
      | inl n ↦ absurd (cc (e, n))
      | inr (inl (bytes, f, g, whole)) ↦ (
        frame_with 4 bytes a.port payload,
        rw (small, f, port, encode_frame) refl,
        length-frame_with 4 bytes a.port payload (omega arith),
        decode-v4 bytes a.port payload l g ∙ ap (λ xs. decoded xs a.port payload) (cc (e, whole)),
      )
      | inr (inr (bytes, f, g, whole)) ↦ (
        frame_with 6 bytes a.port payload,
        rw (small, f, port, encode_frame) refl,
        length-frame_with 6 bytes a.port payload (omega arith),
        decode-v6 bytes a.port payload l g ∙ ap (λ xs. decoded xs a.port payload) (cc (e, whole)),
      )
    ]
