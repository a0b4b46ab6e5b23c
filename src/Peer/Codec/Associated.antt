-- ===== src/Peer/Codec/Associated.antt =====
-- The associated data of a codec: one string for each domain, user data and context.
use telekit.Common.{ℕ, ◌%◌, ◌^◌, ◌≤◌, ◌≡◌, sym, ◌∙◌, List, [], ◌∷◌, ◌++◌, length, arith, Option}
use native.Mathlib.Nat.{mod-eq_of_lt}
use telekit.Common.Bytes.{big_endian, length-big_endian, append-injective}
use telekit.Common.Results.{ok}
use telekit.Encryption.{Aead}
use telekit.Peer.Codec.{
  Codec, EncryptionType, build_additional_data, additional_data_for, aad_domain_data,
  aad_domain_header, new_codec,
}

abbrev context_length : List ℕ → List ℕ
context_length context = big_endian 4 (length context % 2 ^ 32)

-- Behind the fixed part.
abbrev variable : List ℕ → List ℕ → List ℕ
variable aad context = length aad % 256 ∷ aad ++ (context_length context ++ context)

variable-injective :
    (aad aad' context context' : List ℕ)
    → length aad ≤ 64
    → length aad' ≤ 64
    → variable aad context ≡ variable aad' context'
    → (aad ≡ aad') × (context ≡ context')
variable-injective aad aad' context context' a b e =
    let same : length aad % 256 ≡ length aad' % 256 = cc e in
    let parts =
      append-injective aad aad' {us = context_length context ++ context}
        {vs = context_length context' ++ context'}
        (sym (mod-eq_of_lt (omega arith)) ∙ same ∙ mod-eq_of_lt (omega arith)) (cc e) in
    (
      parts.0,
      (append-injective (context_length context) (context_length context') {us = context}
          {vs = context'} (length-big_endian 4 _ ∙ sym (length-big_endian 4 _)) parts.1).1,
    )

-- Equal associated data come from the same domain, the same user data and the same context.
pub build_additional_data-injective :
    (aad aad' context context' : List ℕ) (domain domain' : ℕ)
    → length aad ≤ 64
    → length aad' ≤ 64
    → build_additional_data aad domain context ≡ build_additional_data aad' domain' context'
    → (domain ≡ domain') × (aad ≡ aad') × (context ≡ context')
unfolding build_additional_data
build_additional_data-injective aad aad' context context' domain domain' a b e =
    let r = variable-injective aad aad' context context' a b (cc e) in (cc e, r.0, r.1)

-- The strings that `NewCodec` prepares are those that it would build.
pub record IsPrepared (c : Codec) : Type 0 where
  pub data_prepared : c.data_aad ≡ build_additional_data c.additional_data aad_domain_data []
  pub header_prepared : c.header_aad ≡ build_additional_data c.additional_data aad_domain_header []

pub additional_data_for-eq-build :
    (c : Codec) (domain : ℕ) (context : List ℕ)
    → IsPrepared c
    → additional_data_for c domain context ≡ build_additional_data c.additional_data domain context
unfolding additional_data_for
additional_data_for-eq-build c domain [] v = ground (arith, v.data_prepared, v.header_prepared)
additional_data_for-eq-build c domain (b ∷ context) v = ground arith

-- A new codec is prepared.
pub new_codec-IsPrepared :
    (random : ℕ → Option (List ℕ)) (ciphers : EncryptionType → List ℕ → Option Aead)
    (typ : EncryptionType) (secret aad : List ℕ) {c : Codec}
    → new_codec random ciphers typ secret aad ≡ ok c
    → IsPrepared c × (c.additional_data ≡ aad) × (length aad ≤ 64)
unfolding new_codec
new_codec-IsPrepared random ciphers typ secret aad e = ground arith
