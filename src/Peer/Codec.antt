-- ===== src/Peer/Codec.antt =====
-- peer/codec.go: `Codec`, whose packets are encoded by encoding/gob and encrypted by a kit of utils/encryption.
-- The lock makes each call one step.
pub mod Associated
pub mod Packets
pub mod Messages
pub mod Secrets
pub mod Samples
mod Tests
use telekit.Common.{
  ℕ, zero, suc, ◌+◌, ◌*◌, ◌^◌, ◌%◌, ◌<◌, Bool, true, false, not, ◌&&◌, ◌||◌, Option, none, some,
  List, [], ◌∷◌, ◌++◌, ◌==◌, ltb, leb, if◌then◌else◌, length, replicate, ◌≡◌,
}
use telekit.Common.Bytes.{big_endian, same_bytes}
use telekit.Common.Results.{Result, ok, error, and_then}
use telekit.Encryption.{Aead, CipherError, Kit, new_kit, encrypt, decrypt}

-- The names of the ciphers; `unknown` is any other string.
pub data EncryptionType : Type 0 where
  aes_256_gcm ascon_128a camellia_256 chacha20_poly1305 xchacha20_poly1305 : EncryptionType
  unknown : List ℕ → EncryptionType

pub data CodecError : Type 0 where
  cipher : CipherError → CodecError
  unknown_encryption_type no_cipher additional_data_too_long empty_message too_large not_gob
        bad_packet_length empty_chunk bad_encrypt_flag no_kit :
      CodecError

abbrev pub encrypt_partialy : ℕ
encrypt_partialy = 0

abbrev pub encrypt_globally : ℕ
encrypt_globally = 1

abbrev pub max_signaling_packet_size : ℕ
max_signaling_packet_size = 16 * 2 ^ 20

abbrev pub aad_domain_data : ℕ
aad_domain_data = 1

abbrev pub aad_domain_header : ℕ
aad_domain_header = 2

abbrev pub aad_domain_payload : ℕ
aad_domain_payload = 3

pub record Codec : Type 0 where
  pub secret : List ℕ
  pub typ : EncryptionType
  pub encryption_kit : Option Kit
  pub additional_data : List ℕ
  pub data_aad : List ℕ
  pub header_aad : List ℕ

-- `&peer.Codec{}`, which has no kit.
abbrev pub empty_codec : Codec
empty_codec = record {
  secret = [];
  typ = unknown [];
  encryption_kit = none;
  additional_data = [];
  data_aad = [];
  header_aad = [];
}

-- The version, a reserved byte, the domain, 15 reserved bytes; then the user's data and the context, each
-- behind its length.
unfoldable pub build_additional_data : List ℕ → ℕ → List ℕ → List ℕ
build_additional_data aad domain context =
    2 ∷ 0 ∷ domain ∷ replicate 15 0
    ++ (length aad % 256 ∷ aad ++ (big_endian 4 (length context % 2 ^ 32) ++ context))

unfoldable pub additional_data_for : Codec → ℕ → List ℕ → List ℕ
additional_data_for c domain context =
    if length context == 0 && domain == aad_domain_data
    then c.data_aad
    else if length context == 0 && domain == aad_domain_header
    then c.header_aad
    else build_additional_data c.additional_data domain context

-- `ciphers` are the ciphers of the libraries, under the key that HKDF-SHA512 makes of the secret.
module _ (random : ℕ → Option (List ℕ)) (ciphers : EncryptionType → List ℕ → Option Aead) where
  unfoldable pub kit_of : Option Aead → Result CodecError Kit
  kit_of none = error no_cipher
  kit_of (some aead) = elim (new_kit random aead) [ error e ↦ error (cipher e) | ok kit ↦ ok kit ]

  unfoldable pub create_encrypt_kit : EncryptionType → List ℕ → Result CodecError Kit
  create_encrypt_kit (unknown name) secret = error unknown_encryption_type
  create_encrypt_kit typ secret = kit_of (ciphers typ secret)

  unfoldable pub new_codec : EncryptionType → List ℕ → List ℕ → Result CodecError Codec
  new_codec typ secret aad =
      if ltb 64 (length aad)
      then error additional_data_too_long
      else and_then (create_encrypt_kit typ secret) (λ kit. ok (record {
        secret = secret;
        typ = typ;
        encryption_kit = some kit;
        additional_data = aad;
        data_aad = build_additional_data aad aad_domain_data [];
        header_aad = build_additional_data aad aad_domain_header [];
      }))

-- Each encryption type by its place among the constants.
abbrev pub place_of : EncryptionType → ℕ
place_of aes_256_gcm = 0
place_of ascon_128a = 1
place_of camellia_256 = 2
place_of chacha20_poly1305 = 3
place_of xchacha20_poly1305 = 4
place_of (unknown name) = 5

abbrev pub other_name : EncryptionType → List ℕ
other_name (unknown name) = name
other_name _ = []

abbrev pub same_type : EncryptionType → EncryptionType → Bool
same_type t u = place_of t == place_of u && same_bytes (other_name t) (other_name u)

-- The test for the key that is in use.
abbrev pub same_key : Codec → EncryptionType → List ℕ → Bool
same_key c typ secret = same_type c.typ typ && same_bytes c.secret secret

unfoldable pub update_secret :
    (ℕ → Option (List ℕ))
    → (EncryptionType → List ℕ → Option Aead)
    → Codec
    → EncryptionType
    → List ℕ
    → Result CodecError Codec
update_secret random ciphers c typ secret =
    if same_key c typ secret
    then ok c
    else and_then (create_encrypt_kit random ciphers typ secret)
        (λ kit. ok (record c { encryption_kit = some kit; secret = secret; typ = typ }))

unfoldable pub encode_with_encryption :
    Codec → List ℕ → ℕ → List ℕ → Result CodecError (List ℕ × Codec)
encode_with_encryption c bytes domain context =
    if length bytes == 0 then error empty_message else (elim c.encryption_kit [
      | none ↦ error no_kit
      | some kit ↦ elim (encrypt kit bytes (additional_data_for c domain context)) [
        | error e ↦ error (cipher e)
        | ok (sent, next) ↦ ok (sent, record c { encryption_kit = some next })
      ]
    ])

unfoldable pub limited : ℕ → List ℕ → Result CodecError (List ℕ)
limited max_decoded_size bytes =
    if not (max_decoded_size == 0) && ltb max_decoded_size (length bytes)
    then error too_large
    else ok bytes

-- A limit of 0 is none.
unfoldable pub decode_with_decryption : Codec → List ℕ → ℕ → List ℕ → ℕ → Result CodecError (List ℕ)
decode_with_decryption c bytes domain context max_decoded_size =
    if length bytes == 0 then error empty_message else (elim c.encryption_kit [
      | none ↦ error no_kit
      | some kit ↦ elim (decrypt kit bytes (additional_data_for c domain context)) [
        | error e ↦ error (cipher e)
        | ok plain ↦ limited max_decoded_size plain
      ]
    ])

unfoldable pub get_secret : Codec → EncryptionType × List ℕ
get_secret c = (c.typ, c.secret)

-- `EncodeWithEncryption`, `DecodeWithDecryption` and `DecodeWithDecryptionLimit`: data without a context.
unfoldable pub encode_data : Codec → List ℕ → Result CodecError (List ℕ × Codec)
encode_data c bytes = encode_with_encryption c bytes aad_domain_data []

unfoldable pub decode_data : Codec → List ℕ → Result CodecError (List ℕ)
decode_data c bytes = decode_with_decryption c bytes aad_domain_data [] max_signaling_packet_size

unfoldable pub decode_data_limit : Codec → List ℕ → ℕ → Result CodecError (List ℕ)
decode_data_limit c bytes max_decoded_size =
    decode_with_decryption c bytes aad_domain_data [] max_decoded_size

-- encoding/gob at a header, a payload and a list of byte strings. `Encode` fails on what it cannot transmit, such
-- as an interface value of a type that was not registered: the Boolean says whether it succeeded, behind the
-- bytes that the buffer then has. What was encoded decodes to the same value, a nil slice being an empty one.
pub record Gob (H P : Type 0) : Type 0 where
  pub write_header : H → List ℕ × Bool
  pub read_header : List ℕ → Option H
  pub write_payload : P → List ℕ × Bool
  pub read_payload : List ℕ → Option P
  pub encode_chunks : List (List ℕ) → List ℕ
  pub decode_chunks : List ℕ → Option (List (List ℕ))
  pub read-write_header :
      (h : H) → (write_header h).1 ≡ true → read_header (write_header h).0 ≡ some h
  pub read-write_payload :
      (p : P) → (write_payload p).1 ≡ true → read_payload (write_payload p).0 ≡ some p
  pub decode-encode_chunks : (cs : List (List ℕ)) → decode_chunks (encode_chunks cs) ≡ some cs
  pub length-write_header : (h : H) → (write_header h).1 ≡ true → 0 < length (write_header h).0
  pub length-write_payload : (p : P) → (write_payload p).1 ≡ true → 0 < length (write_payload p).0
  pub length-encode_chunks : (cs : List (List ℕ)) → 0 < length (encode_chunks cs)

-- marshal.go: `Marshal` drops the error of `Encode` and returns what the buffer has.
module _ {H P : Type 0} (gob : Gob H P) where
  abbrev pub marshal_header : H → List ℕ
  marshal_header h = (gob.write_header h).0

  abbrev pub unmarshal_header : List ℕ → Option H
  unmarshal_header bytes = gob.read_header bytes

  abbrev pub marshal_payload : P → List ℕ
  marshal_payload p = (gob.write_payload p).0

  abbrev pub unmarshal_payload : List ℕ → Option P
  unmarshal_payload bytes = gob.read_payload bytes

-- A nil header or payload is replaced by an empty one before it is encoded.
pub record Message (H P : Type 0) : Type 0 where
  pub header : H
  pub payload : P
  pub encrypt : Bool

module _ {H P : Type 0} (gob : Gob H P) where
  -- The header as it is sent.
  unfoldable pub encode_header : Codec → Message H P → Result CodecError (List ℕ × Codec)
  encode_header c m =
      if m.encrypt
      then encode_with_encryption c (marshal_header gob m.header) aad_domain_header []
      else ok (marshal_header gob m.header, c)

  unfoldable pub encode_message : Codec → Message H P → Result CodecError (List ℕ × Codec)
  encode_message c m = and_then (encode_header c m) (λ (header_bytes, c').
      and_then
        (encode_with_encryption c' (marshal_payload gob m.payload) aad_domain_payload
          (marshal_header gob m.header))
        (λ (payload_bytes, c''). ok (
          gob.encode_chunks (
              header_bytes
              ∷ payload_bytes
              ∷ ((if m.encrypt then encrypt_globally else encrypt_partialy) ∷ [])
              ∷ []),
          c'',
        )))

-- The flag of a packet with its other two chunks.
unfoldable pub check_flag : List ℕ → List ℕ → List ℕ → Result CodecError (List ℕ × List ℕ × ℕ)
check_flag header payload (f ∷ []) =
    if f == encrypt_partialy || f == encrypt_globally
    then ok (header, payload, f)
    else error bad_encrypt_flag
check_flag header payload _ = error bad_encrypt_flag

-- The three chunks of a packet, in the order of the checks.
unfoldable pub validate_data_chunks : List (List ℕ) → Result CodecError (List ℕ × List ℕ × ℕ)
validate_data_chunks (header ∷ payload ∷ flag ∷ []) =
    if length header == 0 || length payload == 0
    then error empty_chunk
    else check_flag header payload flag
validate_data_chunks _ = error bad_packet_length

abbrev pub or_not_gob : {A : Type 0} → Option A → Result CodecError A
or_not_gob none = error not_gob
or_not_gob (some a) = ok a

module _ {H P : Type 0} (gob : Gob H P) where
  -- The beginning that `DecodeMessageHeader` and `DecodeMessage` have alike: the chunks of the packet.
  unfoldable pub decode_packet : List ℕ → Result CodecError (List ℕ × List ℕ × ℕ)
  decode_packet bytes =
      if length bytes == 0
      then error empty_message
      else if ltb max_signaling_packet_size (length bytes)
      then error too_large
      else and_then (or_not_gob (gob.decode_chunks bytes)) validate_data_chunks

  -- The bytes of the header, decrypted when the flag says so.
  unfoldable pub open_header : Codec → List ℕ → ℕ → Result CodecError (List ℕ)
  open_header c header flag =
      if flag == encrypt_globally
      then decode_with_decryption c header aad_domain_header [] max_signaling_packet_size
      else ok header

  unfoldable pub decode_message_header : Codec → List ℕ → Result CodecError H
  decode_message_header c bytes = and_then (decode_packet bytes) (λ (header, payload, flag).
      and_then (open_header c header flag)
        (λ header_bytes. or_not_gob (unmarshal_header gob header_bytes)))

  -- What `DecodeMessage` does once it has the bytes of the header.
  unfoldable pub open_payload : Codec → List ℕ → List ℕ → ℕ → Result CodecError (Message H P)
  open_payload c header_bytes payload flag =
      and_then (or_not_gob (unmarshal_header gob header_bytes)) (λ h.
        and_then
          (decode_with_decryption c payload aad_domain_payload header_bytes
            max_signaling_packet_size)
          (λ payload_bytes.
            and_then (or_not_gob (unmarshal_payload gob payload_bytes))
              (λ p. ok (record { header = h; payload = p; encrypt = flag == encrypt_globally }))))

  unfoldable pub decode_message : Codec → List ℕ → Result CodecError (Message H P)
  decode_message c bytes = and_then (decode_packet bytes) (λ (header, payload, flag).
      and_then (open_header c header flag)
        (λ header_bytes. open_payload c header_bytes payload flag))
