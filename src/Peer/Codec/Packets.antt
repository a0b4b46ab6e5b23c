-- ===== src/Peer/Codec/Packets.antt =====
-- What one codec encodes, another one with the same cipher and user data decodes.
use telekit.Common.{
  some, true, ℕ, ◌+◌, ◌≤◌, ◌<◌, ◌≡◌, ◌⊎◌, refl, ap, sym, ◌∙◌, List, [], ◌∷◌, ◌++◌, ◌==◌, length,
  arith, length-append, inr,
}
use telekit.Common.Bytes.{big_endian, length-big_endian}
use telekit.Common.Results.{ok}
use telekit.Encryption.{Kit, encrypt, decrypt}
use telekit.Encryption.Kits.{IsReady, used, sealed, encrypt-ok, decrypt-sealed}
use telekit.Peer.Codec.{
  Codec, build_additional_data, additional_data_for, encode_with_encryption, decode_with_decryption,
  limited, Gob, Message, decode_packet, open_payload, check_flag, validate_data_chunks,
  max_signaling_packet_size, aad_domain_payload, marshal_header, marshal_payload,
}
use telekit.Peer.Codec.Associated.{IsPrepared, additional_data_for-eq-build}

-- The receiver `d` opens what the sender `c` seals.
pub record IsMatched (c d : Codec) : Type 0 where
  pub kit : Kit
  pub other : Kit
  pub sender_kit : c.encryption_kit ≡ some kit
  pub receiver_kit : d.encryption_kit ≡ some other
  pub ready : IsReady kit
  pub same_cipher : other.aead ≡ kit.aead
  pub same_data : d.additional_data ≡ c.additional_data
  pub sender_prepared : IsPrepared c
  pub receiver_prepared : IsPrepared d

-- The codec once a nonce of its kit was used.
abbrev pub spent : Kit → Codec → Codec
spent kit c = record c { encryption_kit = some (used kit) }

same_associated :
    (c d : Codec) (domain : ℕ) (context : List ℕ)
    → IsMatched c d
    → additional_data_for d domain context ≡ additional_data_for c domain context
same_associated c d domain context m =
    additional_data_for-eq-build d domain context m.receiver_prepared
    ∙ ap (λ a. build_additional_data a domain context) m.same_data
    ∙ sym (additional_data_for-eq-build c domain context m.sender_prepared)

pub sealed-some : (kit : Kit) (plaintext aad : List ℕ) → 0 < length (sealed kit plaintext aad)
sealed-some kit plaintext aad =
    let n = big_endian 8 (kit.nonce.counter + 1) in
    let nonce = kit.nonce.prefix ++ n in
    omega (
      arith,
      length-append nonce (kit.aead.seal nonce plaintext aad),
      length-append kit.nonce.prefix n,
      length-big_endian 8 (kit.nonce.counter + 1),
    )

encode-sealed :
    (c : Codec) (bytes : List ℕ) (domain : ℕ) (context : List ℕ) {sent : List ℕ} {kit next : Kit}
    → 0 < length bytes
    → c.encryption_kit ≡ some kit
    → encrypt kit bytes (additional_data_for c domain context) ≡ ok (sent, next)
    → encode_with_encryption c bytes domain context
      ≡ ok (sent, record c { encryption_kit = some next })
unfolding encode_with_encryption
encode-sealed c bytes domain context p k e = ground arith

decode-opened :
    (d : Codec) (sent : List ℕ) (domain : ℕ) (context : List ℕ) (max : ℕ) {plain : List ℕ}
    {kit : Kit}
    → 0 < length sent
    → (max ≡ 0) ⊎ (length plain ≤ max)
    → d.encryption_kit ≡ some kit
    → decrypt kit sent (additional_data_for d domain context) ≡ ok plain
    → decode_with_decryption d sent domain context max ≡ ok plain
unfolding decode_with_decryption limited
decode-opened d sent domain context max p l k e = ground arith

abbrev pub sent_by : Kit → Codec → List ℕ → ℕ → List ℕ → List ℕ
sent_by kit c bytes domain context = sealed kit bytes (additional_data_for c domain context)

module _ (c d : Codec) (m : IsMatched c d) (bytes : List ℕ) (p : 0 < length bytes) (domain : ℕ)
    (context : List ℕ) where
  pub encode-sent :
      encode_with_encryption c bytes domain context
      ≡ ok (sent_by m.kit c bytes domain context, spent m.kit c)
  encode-sent =
      encode-sealed c bytes domain context p m.sender_kit
        (encrypt-ok m.kit bytes (additional_data_for c domain context) m.ready)

  pub decode-sent :
      (max : ℕ)
      → (max ≡ 0) ⊎ (length bytes ≤ max)
      → decode_with_decryption d (sent_by m.kit c bytes domain context) domain context max
        ≡ ok bytes
  decode-sent max l =
      decode-opened d (sent_by m.kit c bytes domain context) domain context max
        (sealed-some m.kit bytes (additional_data_for c domain context)) l m.receiver_kit
        (ap (decrypt m.other (sent_by m.kit c bytes domain context))
            (same_associated c d domain context m)
          ∙ decrypt-sealed m.kit m.other bytes (additional_data_for c domain context) m.ready
              m.same_cipher)

  -- A nonempty message that a codec seals is opened by a matched codec in the same domain and context,
  -- under any limit that the message is within.
  pub decode_with_decryption-encode_with_encryption :
      (max : ℕ)
      → (max ≡ 0) ⊎ (length bytes ≤ max)
      → (sent : List ℕ) × (encode_with_encryption c bytes domain context ≡ ok (sent, spent m.kit c))
        × (decode_with_decryption d sent domain context max ≡ ok bytes)
  decode_with_decryption-encode_with_encryption max l =
      (sent_by m.kit c bytes domain context, encode-sent, decode-sent max l)

module _ {H P : Type 0} (gob : Gob H P) where
  abbrev pub packet_of : List ℕ → List ℕ → ℕ → List ℕ
  packet_of header payload flag = gob.encode_chunks (header ∷ payload ∷ (flag ∷ []) ∷ [])

  pub decode_packet-packet_of :
      (header payload : List ℕ) (flag : ℕ)
      → 0 < length header
      → 0 < length payload
      → flag ≤ 1
      → length (packet_of header payload flag) ≤ max_signaling_packet_size
      → decode_packet gob (packet_of header payload flag) ≡ ok (header, payload, flag)
  unfolding decode_packet validate_data_chunks check_flag
  decode_packet-packet_of header payload flag h p f l = ground (
    arith,
    gob.decode-encode_chunks (header ∷ payload ∷ (flag ∷ []) ∷ []),
    gob.length-encode_chunks (header ∷ payload ∷ (flag ∷ []) ∷ []),
  )

  -- The payload, once the bytes of the header are there.
  pub open_payload-sent :
      (c d : Codec) (m : Message H P) (flag : ℕ) (v : IsMatched c d)
      → (gob.write_header m.header).1 ≡ true
      → (gob.write_payload m.payload).1 ≡ true
      → length (marshal_payload gob m.payload) ≤ max_signaling_packet_size
      → (flag == 1) ≡ m.encrypt
      → open_payload gob d
          (marshal_header gob m.header)
          (sent_by v.kit c
            (marshal_payload gob m.payload)
            aad_domain_payload
            (marshal_header gob m.header))
          flag
        ≡ ok m
  unfolding open_payload
  open_payload-sent c d m flag v h p l f =
      rw
        (
          gob.read-write_header m.header h,
          decode-sent c d v (marshal_payload gob m.payload) (gob.length-write_payload m.payload p)
              aad_domain_payload (marshal_header gob m.header) max_signaling_packet_size (inr l),
          gob.read-write_payload m.payload p,
          f,
        )
        refl
