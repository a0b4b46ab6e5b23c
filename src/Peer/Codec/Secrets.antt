-- ===== src/Peer/Codec/Secrets.antt =====
-- `UpdateSecret`: the key of a codec, and its nonces.
use telekit.Common.{
  ℕ, ◌≡◌, ◌≢◌, ◌⊎◌, refl, ap, sym, ◌∙◌, true, List, ◌==◌, if◌then◌else◌, arith, Bool-cases, inl,
  inr, Option, some,
}
use telekit.Common.Bytes.{same_bytes_sound, same_bytes_refl}
use telekit.Common.Results.{ok, Result-cases}
use telekit.Encryption.{Aead, Kit}
use telekit.Peer.Codec.{
  Codec, EncryptionType, unknown, aes_256_gcm, ascon_128a, camellia_256, chacha20_poly1305,
  xchacha20_poly1305, place_of, other_name, same_type, same_key, create_encrypt_kit, update_secret,
}

-- A type by its place and its name.
abbrev type_at : ℕ → List ℕ → EncryptionType
type_at n name =
    if n == 0
    then aes_256_gcm
    else if n == 1
    then ascon_128a
    else if n == 2
    then camellia_256
    else if n == 3
    then chacha20_poly1305
    else if n == 4
    then xchacha20_poly1305
    else unknown name

type_at-place_of : (t : EncryptionType) → type_at (place_of t) (other_name t) ≡ t
type_at-place_of aes_256_gcm = refl
type_at-place_of ascon_128a = refl
type_at-place_of camellia_256 = refl
type_at-place_of chacha20_poly1305 = refl
type_at-place_of xchacha20_poly1305 = refl
type_at-place_of (unknown name) = refl

same_type_sound : (t u : EncryptionType) → same_type t u ≡ true → t ≡ u
same_type_sound t u e =
    let place : place_of t ≡ place_of u = ground (arith, e) in
    let name = same_bytes_sound (other_name t) (other_name u) (ground (arith, e)) in
    sym (type_at-place_of t)
    ∙ ap (λ n. type_at n (other_name t)) place
    ∙ ap (type_at (place_of u)) name
    ∙ type_at-place_of u

-- What a codec is after its secret was updated: the same codec for the type and the secret that it had, and one
-- with a kit that was made for them when one of the two is another.
pub record IsUpdated (random : ℕ → Option (List ℕ))
    (ciphers : EncryptionType → List ℕ → Option Aead) (c : Codec) (typ : EncryptionType)
    (secret : List ℕ) (c' : Codec) : Type 0 where
  pub new_type : c'.typ ≡ typ
  pub new_secret : c'.secret ≡ secret
  pub data_kept : c'.additional_data ≡ c.additional_data
  pub all_kept : c.typ ≡ typ → c.secret ≡ secret → c' ≡ c
  pub kit_made :
      (c.typ ≢ typ) ⊎ (c.secret ≢ secret)
      → (kit : Kit) × (create_encrypt_kit random ciphers typ secret ≡ ok kit)
        × (c'.encryption_kit ≡ some kit)

module _ (random : ℕ → Option (List ℕ)) (ciphers : EncryptionType → List ℕ → Option Aead)
    (c : Codec) (typ : EncryptionType) (secret : List ℕ) where
  same_key_sound : same_key c typ secret ≡ true → (c.typ ≡ typ) × (c.secret ≡ secret)
  same_key_sound e = (
    same_type_sound c.typ typ (ground (arith, e)),
    same_bytes_sound c.secret secret (ground (arith, e)),
  )

  same_key_complete : c.typ ≡ typ → c.secret ≡ secret → same_key c typ secret ≡ true
  same_key_complete t s =
      ap (λ u. same_key c u secret) (sym t)
      ∙ ap (same_key c c.typ) (sym s)
      ∙ ground (arith, same_bytes_refl (other_name c.typ), same_bytes_refl c.secret)

  -- `UpdateSecret` to the type and the secret in use leaves the codec as it is, so that its nonces go on; when
  -- one of them differs it makes a new kit for the two, and keeps the user data.
  pub update_secret-IsUpdated :
      {c' : Codec}
      → update_secret random ciphers c typ secret ≡ ok c'
      → IsUpdated random ciphers c typ secret c'
  unfolding update_secret
  update_secret-IsUpdated {c'} e = elim (Bool-cases (same_key c typ secret)) [
    | inl s ↦
        let kept : c ≡ c' = cc (rw s at e) in
        let (t, k) = same_key_sound s in
        record {
          new_type = sym (ap (λ d. d.typ) kept) ∙ t;
          new_secret = sym (ap (λ d. d.secret) kept) ∙ k;
          data_kept = sym (ap (λ d. d.additional_data) kept);
          all_kept = λ _ _. sym kept;
          kit_made = λ o. elim o [ inl ne ↦ absurd (ne t) | inr ne ↦ absurd (ne k) ];
        }
    | inr s ↦ elim (Result-cases (create_encrypt_kit random ciphers typ secret)) [
      | inr (err, f) ↦ absurd (cc (rw (s, f) at e))
      | inl (kit, f) ↦
          let made : record c { encryption_kit = some kit; secret = secret; typ = typ } ≡ c' =
            cc (rw (s, f) at e) in
          record {
            new_type = sym (ap (λ d. d.typ) made);
            new_secret = sym (ap (λ d. d.secret) made);
            data_kept = sym (ap (λ d. d.additional_data) made);
            all_kept = λ t k. absurd (cc (s, same_key_complete t k));
            kit_made = λ _. (kit, f, sym (ap (λ d. d.encryption_kit) made));
          }
    ]
  ]
