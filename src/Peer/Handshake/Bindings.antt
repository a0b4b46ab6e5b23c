-- ===== src/Peer/Handshake/Bindings.antt =====
-- What a signature and a derived key are bound to.
use telekit.Common.{
  ℕ, ◌≡◌, ◌≢◌, refl, ap, sym, ◌∙◌, true, List, [], ◌∷◌, ◌++◌, length, take, arith, All,
  length-append, take-append,
}
use native.Mathlib.Nat.{mod-eq_of_lt}
use telekit.Common.{drop, ◌%◌, ◌^◌, take-front, drop-front}
use telekit.Common.Bytes.{same_bytes_refl, big_endian, number, number-big_endian, length-big_endian}
use telekit.Peer.Handshake.Labels.{client_hello_label, server_hello_label, session_label}
use telekit.Common.Results.{ok}
use telekit.Peer.Handshake.{
  Handshake, Signatures, sign_server_hello, verify_server_hello, server_hello_transcript,
  validate_server_hello_transcript, transcript_fields, client_hello_info, server_hello_info,
  session_info, encode_handshake_fields,
}
use telekit.Peer.Handshake.Fields.{IsShort, encode_handshake_fields-injective}

-- The fields of a transcript as a handshake again.
abbrev of_fields : List (List ℕ) → Handshake → Handshake
of_fields (_ ∷ r ∷ c ∷ s ∷ cn ∷ sn ∷ ck ∷ sk ∷ salt ∷ []) h = record {
  room_id = r;
  client_id = c;
  server_id = s;
  client_nonce = cn;
  server_nonce = sn;
  client_ephemeral_key = ck;
  server_ephemeral_key = sk;
  session_salt = salt;
}
of_fields _ h = h

-- Room, client and server have names shorter than 2^32 bytes.
pub record HasShortNames (h : Handshake) : Type 0 where
  pub short_room : IsShort h.room_id
  pub short_client : IsShort h.client_id
  pub short_server : IsShort h.server_id

-- A transcript that passed the checks has short fields.
record HasSizes (h : Handshake) : Type 0 where
  client_nonce_size : length h.client_nonce ≡ 32
  server_nonce_size : length h.server_nonce ≡ 32
  client_key_size : length h.client_ephemeral_key ≡ 32
  server_key_size : length h.server_ephemeral_key ≡ 32
  salt_size : length h.session_salt ≡ 32

sizes_of_valid : (h : Handshake) → validate_server_hello_transcript h ≡ ok tt → HasSizes h
unfolding validate_server_hello_transcript
sizes_of_valid h e = ground arith

transcript_fields-IsShort :
    (h : Handshake)
    → HasShortNames h
    → validate_server_hello_transcript h ≡ ok tt
    → All IsShort (transcript_fields h)
transcript_fields-IsShort h n e =
    let s = sizes_of_valid h e in
    (
      omega arith,
      (
        n.short_room,
        (
          n.short_client,
          (
            n.short_server,
            (
              omega (arith, s.client_nonce_size),
              (
                omega (arith, s.server_nonce_size),
                (
                  omega (arith, s.client_key_size),
                  (omega (arith, s.server_key_size), (omega (arith, s.salt_size), tt)),
                ),
              ),
            ),
          ),
        ),
      ),
    )

-- Two handshakes that pass the checks and have the same transcript are the same in every field, so
-- a signed transcript fixes room, identities, nonces, ephemeral keys and salt.
pub server_hello_transcript-injective :
    (h g : Handshake)
    → HasShortNames h
    → HasShortNames g
    → validate_server_hello_transcript h ≡ ok tt
    → validate_server_hello_transcript g ≡ ok tt
    → server_hello_transcript h ≡ server_hello_transcript g
    → h ≡ g
unfolding server_hello_transcript
server_hello_transcript-injective h g a b v w e =
    ap (λ fs. of_fields fs h)
      (encode_handshake_fields-injective (transcript_fields h) (transcript_fields g)
        (transcript_fields-IsShort h a v) (transcript_fields-IsShort g b w) e)

module _ (ed25519 : Signatures) (seed : List ℕ) (size : length seed ≡ 32) where
  abbrev private_key : List ℕ
  private_key = ed25519.new_key_from_seed seed

  length-private_key : length private_key ≡ 64
  length-private_key =
      ap length (ed25519.new_key_from_seed-eq-append seed size)
      ∙ omega (arith, length-append seed (ed25519.public_key seed), ed25519.length-public_key seed)

  take-private_key : take 32 private_key ≡ seed
  take-private_key =
      ap (take 32) (ed25519.new_key_from_seed-eq-append seed size)
      ∙ ap (λ n. take n (seed ++ ed25519.public_key seed)) (sym size)
      ∙ take-append seed (ed25519.public_key seed)

  -- The server signs every transcript that passes the checks, and the client that pins the public key
  -- of the same seed accepts the signature.
  pub verify_server_hello-sign_server_hello :
      (h : Handshake)
      → validate_server_hello_transcript h ≡ ok tt
      → (signature : List ℕ) × (sign_server_hello ed25519 private_key h ≡ ok signature)
        × (verify_server_hello ed25519 (ed25519.public_key seed) h signature ≡ true)
  unfolding sign_server_hello verify_server_hello
  verify_server_hello-sign_server_hello h v =
      let signature = ed25519.sign private_key (server_hello_transcript h) in
      (
        signature,
        rw (length-private_key, take-private_key, same_bytes_refl private_key, v) refl,
        rw
            (
              ed25519.length-public_key seed,
              ed25519.length-sign private_key (server_hello_transcript h),
              v,
            )
            (ed25519.verify-sign seed (server_hello_transcript h)),
      )

-- The field that a reader of the encoding finds first.
abbrev pub first_field : List ℕ → List ℕ
first_field bytes = take (number 0 (take 4 bytes)) (drop 4 bytes)

first_field-encode_handshake_fields :
    (f : List ℕ) (fs : List (List ℕ))
    → IsShort f
    → first_field (encode_handshake_fields (f ∷ fs)) ≡ f
unfolding encode_handshake_fields
first_field-encode_handshake_fields f fs a =
    let size = big_endian 4 (length f % 2 ^ 32) in
    let rest = f ++ encode_handshake_fields fs in
    let four = length-big_endian 4 (length f % 2 ^ 32) in
    let spelled : number 0 (take 4 (size ++ rest)) ≡ length f =
      ap (number 0) (take-front 4 size rest four)
      ∙ number-big_endian 4 (length f % 2 ^ 32) (omega arith)
      ∙ mod-eq_of_lt a in
    ap (λ n. take n (drop 4 (size ++ rest))) spelled
    ∙ ap (take (length f)) (drop-front 4 size rest four)
    ∙ take-append f (encode_handshake_fields fs)

apart :
    (f g : List ℕ) (fs gs : List (List ℕ))
    → IsShort f
    → IsShort g
    → f ≢ g
    → first_field (encode_handshake_fields (f ∷ fs))
      ≢ first_field (encode_handshake_fields (g ∷ gs))
apart f g fs gs a b ne e = ne (
    sym (first_field-encode_handshake_fields f fs a)
    ∙ e
    ∙ first_field-encode_handshake_fields g gs b)

abbrev byte_at : ℕ → List ℕ → ℕ
byte_at i bytes = number 0 (take 1 (drop i bytes))

differ : (i : ℕ) {f g : List ℕ} → f ≡ g → byte_at i f ≢ byte_at i g → ⊥
differ i e ne = ne (ap (byte_at i) e)

-- The first field of what HKDF is given for the client hello, the server hello and the session tells the three
-- apart, whatever the handshakes are and however many fields follow.
pub infos-differ :
    (h g : Handshake)
    → (first_field (encode_handshake_fields (client_hello_info h))
        ≢ first_field (encode_handshake_fields (server_hello_info g)))
      × (first_field (encode_handshake_fields (client_hello_info h))
          ≢ first_field (encode_handshake_fields (session_info g)))
      × (first_field (encode_handshake_fields (server_hello_info h))
          ≢ first_field (encode_handshake_fields (session_info g)))
infos-differ h g = (
  apart client_hello_label server_hello_label _ _ (omega arith) (omega arith)
      (λ e. differ 8 e (omega arith)),
  apart client_hello_label session_label _ _ (omega arith) (omega arith)
      (λ e. differ 8 e (omega arith)),
  apart server_hello_label session_label _ _ (omega arith) (omega arith)
      (λ e. differ 10 e (omega arith)),
)
