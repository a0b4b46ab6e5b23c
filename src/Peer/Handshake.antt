-- ===== src/Peer/Handshake.antt =====
-- peer/handshake.go and peer/psk.go: what the two hellos check, derive, sign and verify.
-- Strings are their bytes. `hkdf key salt info` are the 32 bytes that are read from HKDF-SHA256, which
-- never runs out at that length; `Signatures` is crypto/ed25519.
mod Labels
pub mod Fields
pub mod Bindings
mod Tests
pub use Labels.*
use telekit.Common.{
  ℕ, zero, suc, ◌+◌, ◌/◌, ◌^◌, ◌%◌, Bool, true, false, not, ◌&&◌, ◌||◌, List, [], ◌∷◌, ◌++◌, ◌==◌,
  ltb, leb, if◌then◌else◌, length, take, ◌≡◌,
}
use telekit.Common.Bytes.{big_endian, same_bytes}
use telekit.Common.Results.{Result, ok, error, and_then}

abbrev pub handshake_nonce_size : ℕ
handshake_nonce_size = 32

abbrev pub handshake_key_size : ℕ
handshake_key_size = 32

abbrev pub min_pre_shared_key_size : ℕ
min_pre_shared_key_size = 32

abbrev pub max_client_id_length : ℕ
max_client_id_length = 128

pub data HandshakeError : Type 0 where
  bad_client_id_length bad_client_id_byte short_pre_shared_key empty_identity bad_nonce_size
        bad_ephemeral_key_size bad_salt_size bad_secret_size bad_private_key bad_public_key
        unknown_client :
      HandshakeError

-- Letters, digits, underscore and hyphen.
abbrev pub is_id_byte : ℕ → Bool
is_id_byte c =
    (leb 65 c && leb c 90)
    || (leb 97 c && leb c 122)
    || (leb 48 c && leb c 57)
    || c == 95
    || c == 45

abbrev pub all_id_bytes : List ℕ → Bool
all_id_bytes [] = true
all_id_bytes (c ∷ cs) = is_id_byte c && all_id_bytes cs

unfoldable pub validate_client_id : List ℕ → Result HandshakeError Unit
validate_client_id id =
    if length id == 0 || ltb max_client_id_length (length id)
    then error bad_client_id_length
    else if all_id_bytes id
    then ok tt
    else error bad_client_id_byte

unfoldable pub validate_client_credentials : List ℕ → List ℕ → Result HandshakeError Unit
validate_client_credentials id key =
    and_then (validate_client_id id)
      (λ _. if ltb (length key) min_pre_shared_key_size then error short_pre_shared_key else ok tt)

pub record PreSharedKey : Type 0 where
  pub id : List ℕ
  pub key : List ℕ
  pub server_public_key : List ℕ

-- A digit of `encoding/hex`.
abbrev pub hex_digit : ℕ → ℕ
hex_digit n = if ltb n 10 then 48 + n else 87 + n

unfoldable pub hex : List ℕ → List ℕ
hex [] = []
hex (b ∷ bs) = hex_digit (b / 16) ∷ hex_digit (b % 16) ∷ hex bs

-- `ServerIDFromPublicKey`, at an Ed25519 key.
unfoldable pub server_id_from_public_key :
    (List ℕ → List ℕ) → List ℕ → Result HandshakeError (List ℕ)
server_id_from_public_key sha256 public_key =
    if not (length public_key == 32) then error bad_public_key else ok (hex (sha256 public_key))

-- `PreSharedKey.Validate`
unfoldable pub validate_pre_shared_key : PreSharedKey → Result HandshakeError Unit
validate_pre_shared_key p =
    and_then (validate_client_credentials p.id p.key)
      (λ _. if not (length p.server_public_key == 32) then error bad_public_key else ok tt)

-- `StaticKeyring`, whose entries stand in a list; the first one of an identity counts.
unfoldable pub keyring_key : List (List ℕ × List ℕ) → List ℕ → Result HandshakeError (List ℕ)
keyring_key [] client_id = error unknown_client
keyring_key ((id, key) ∷ entries) client_id =
    let rest = keyring_key entries client_id in if same_bytes id client_id then ok key else rest

-- Each field behind its length, as a 32-bit number.
unfoldable pub encode_handshake_fields : List (List ℕ) → List ℕ
encode_handshake_fields [] = []
encode_handshake_fields (f ∷ fs) =
    big_endian 4 (length f % 2 ^ 32) ++ (f ++ encode_handshake_fields fs)

-- The identities, nonces and keys of one handshake.
pub record Handshake : Type 0 where
  pub room_id : List ℕ
  pub client_id : List ℕ
  pub server_id : List ℕ
  pub client_nonce : List ℕ
  pub server_nonce : List ℕ
  pub client_ephemeral_key : List ℕ
  pub server_ephemeral_key : List ℕ
  pub session_salt : List ℕ

abbrev pub is_empty : List ℕ → Bool
is_empty s = length s == 0

unfoldable pub validate_handshake_key_context : List ℕ → Handshake → Result HandshakeError Unit
validate_handshake_key_context master_key h =
    and_then (validate_client_credentials h.client_id master_key) (λ _.
      if is_empty h.room_id || is_empty h.server_id
      then error empty_identity
      else if not (length h.client_nonce == handshake_nonce_size)
      then error bad_nonce_size
      else ok tt)

abbrev pub client_hello_info : Handshake → List (List ℕ)
client_hello_info h =
    client_hello_label ∷ h.room_id ∷ h.client_id ∷ h.server_id ∷ h.client_nonce
    ∷ client_to_server_label ∷ []

abbrev pub server_hello_info : Handshake → List (List ℕ)
server_hello_info h =
    server_hello_label ∷ h.room_id ∷ h.client_id ∷ h.server_id ∷ h.client_nonce ∷ h.server_nonce
    ∷ server_to_client_label ∷ []

abbrev pub session_info : Handshake → List (List ℕ)
session_info h =
    session_label ∷ h.room_id ∷ h.client_id ∷ h.server_id ∷ h.client_nonce ∷ h.server_nonce
    ∷ h.client_ephemeral_key ∷ h.server_ephemeral_key ∷ []

abbrev pub transcript_fields : Handshake → List (List ℕ)
transcript_fields h =
    transcript_label ∷ h.room_id ∷ h.client_id ∷ h.server_id ∷ h.client_nonce ∷ h.server_nonce
    ∷ h.client_ephemeral_key ∷ h.server_ephemeral_key ∷ h.session_salt ∷ []

module _ (hkdf : List ℕ → List ℕ → List ℕ → List ℕ) where
  unfoldable pub derive_client_hello_key : List ℕ → Handshake → Result HandshakeError (List ℕ)
  derive_client_hello_key master_key h =
      and_then (validate_handshake_key_context master_key h)
        (λ _. ok (hkdf master_key h.client_nonce (encode_handshake_fields (client_hello_info h))))

  unfoldable pub derive_server_hello_key : List ℕ → Handshake → Result HandshakeError (List ℕ)
  derive_server_hello_key master_key h =
      and_then (validate_handshake_key_context master_key h) (λ _.
        if not (length h.server_nonce == handshake_nonce_size)
        then error bad_nonce_size
        else ok (hkdf master_key h.server_nonce (encode_handshake_fields (server_hello_info h))))

  -- `DeriveSessionKey`, in psk.go.
  unfoldable pub derive_session_key : List ℕ → List ℕ → Handshake → Result HandshakeError (List ℕ)
  derive_session_key master_key shared_secret h =
      and_then (validate_client_credentials h.client_id master_key) (λ _.
        if is_empty h.room_id || is_empty h.server_id
        then error empty_identity
        else if not (length h.session_salt == handshake_nonce_size)
        then error bad_salt_size
        else if not (length h.client_nonce == handshake_nonce_size)
            || not (length h.server_nonce == handshake_nonce_size)
        then error bad_nonce_size
        else if not (length shared_secret == handshake_key_size)
        then error bad_secret_size
        else if not (length h.client_ephemeral_key == handshake_key_size)
            || not (length h.server_ephemeral_key == handshake_key_size)
        then error bad_ephemeral_key_size
        else ok (
            hkdf (encode_handshake_fields (master_key ∷ shared_secret ∷ [])) h.session_salt
              (encode_handshake_fields (session_info h))))

unfoldable pub validate_server_hello_transcript : Handshake → Result HandshakeError Unit
validate_server_hello_transcript h =
    if is_empty h.room_id || is_empty h.client_id || is_empty h.server_id
    then error empty_identity
    else if not (length h.client_nonce == handshake_nonce_size)
        || not (length h.server_nonce == handshake_nonce_size)
    then error bad_nonce_size
    else if not (length h.client_ephemeral_key == handshake_key_size)
        || not (length h.server_ephemeral_key == handshake_key_size)
    then error bad_ephemeral_key_size
    else if not (length h.session_salt == handshake_nonce_size)
    then error bad_salt_size
    else ok tt

unfoldable pub server_hello_transcript : Handshake → List ℕ
server_hello_transcript h = encode_handshake_fields (transcript_fields h)

-- crypto/ed25519: a private key is its seed of 32 bytes with the public key of 32 bytes, and a signature of 64
-- bytes made with a private key verifies under the public key of the same seed.
pub record Signatures : Type 0 where
  pub new_key_from_seed : List ℕ → List ℕ
  pub public_key : List ℕ → List ℕ
  pub sign : List ℕ → List ℕ → List ℕ
  pub verify : List ℕ → List ℕ → List ℕ → Bool
  pub new_key_from_seed-eq-append :
      (seed : List ℕ) → length seed ≡ 32 → new_key_from_seed seed ≡ seed ++ public_key seed
  pub length-public_key : (seed : List ℕ) → length (public_key seed) ≡ 32
  pub length-sign : (key message : List ℕ) → length (sign key message) ≡ 64
  pub verify-sign :
      (seed message : List ℕ)
      → verify (public_key seed) message (sign (new_key_from_seed seed) message) ≡ true

module _ (ed25519 : Signatures) where
  unfoldable pub sign_server_hello : List ℕ → Handshake → Result HandshakeError (List ℕ)
  sign_server_hello private_key h =
      if not (length private_key == 64)
      then error bad_private_key
      else if not (same_bytes (ed25519.new_key_from_seed (take 32 private_key)) private_key)
      then error bad_private_key
      else and_then (validate_server_hello_transcript h)
          (λ _. ok (ed25519.sign private_key (server_hello_transcript h)))

  unfoldable pub verify_server_hello : List ℕ → Handshake → List ℕ → Bool
  verify_server_hello public_key h signature =
      if not (length public_key == 32) || not (length signature == 64)
      then false
      else (elim (validate_server_hello_transcript h) [
        | error _ ↦ false
        | ok _ ↦ ed25519.verify public_key (server_hello_transcript h) signature
      ])
