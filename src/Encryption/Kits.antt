-- ===== src/Encryption/Kits.antt =====
-- What one kit encrypts, every kit with the same cipher decrypts.
use telekit.Common.{
  ℕ, ◌+◌, ◌-◌, ◌<◌, ◌≡◌, refl, ap, sym, ◌∙◌, Option, some, List, ◌++◌, length, take, drop, arith,
  length-append, take-append, drop-append, Option-cases, inl, inr,
}
use telekit.Common.Bytes.{big_endian, length-big_endian}
use telekit.Common.Results.{ok}
use telekit.Encryption.{Aead, max_uint64, Kit, encrypt, decrypt, new_kit, new_nonce_source}
use telekit.Encryption.Nonces.{numbered, next-ok}

-- The nonces have the cipher's size, and the counter has not run out.
pub record IsReady (kit : Kit) : Type 0 where
  pub sized : kit.aead.nonce_size ≡ length kit.nonce.prefix + 8
  pub left : kit.nonce.counter < max_uint64

abbrev pub used : Kit → Kit
used kit = record kit { nonce = record kit.nonce { counter = kit.nonce.counter + 1 } }

abbrev pub sealed : Kit → List ℕ → List ℕ → List ℕ
sealed kit plaintext aad =
    let nonce = numbered kit.nonce (kit.nonce.counter + 1) in
    nonce ++ kit.aead.seal nonce plaintext aad

pub encrypt-ok :
    (kit : Kit) (plaintext aad : List ℕ)
    → IsReady kit
    → encrypt kit plaintext aad ≡ ok (sealed kit plaintext aad, used kit)
unfolding encrypt
encrypt-ok kit plaintext aad v =
    rw (next-ok kit.nonce kit.aead.nonce_size v.sized v.left, encrypt) refl

decrypt-of :
    (kit : Kit) (nonce ciphertext aad : List ℕ) {plaintext : List ℕ}
    → length nonce ≡ kit.aead.nonce_size
    → kit.aead.unseal nonce ciphertext aad ≡ some plaintext
    → decrypt kit (nonce ++ ciphertext) aad ≡ ok plaintext
unfolding decrypt
decrypt-of kit nonce ciphertext aad e o = ground (
  arith,
  o,
  length-append nonce ciphertext,
  ap (λ n. take n (nonce ++ ciphertext)) (sym e) ∙ take-append nonce ciphertext,
  ap (λ n. drop n (nonce ++ ciphertext)) (sym e) ∙ drop-append nonce ciphertext,
)

pub decrypt-sealed :
    (kit other : Kit) (plaintext aad : List ℕ)
    → IsReady kit
    → other.aead ≡ kit.aead
    → decrypt other (sealed kit plaintext aad) aad ≡ ok plaintext
decrypt-sealed kit other plaintext aad v e =
    let digits = big_endian 8 (kit.nonce.counter + 1) in
    let nonce = kit.nonce.prefix ++ digits in
    ap (λ a. decrypt (record { aead = a; nonce = other.nonce }) (sealed kit plaintext aad) aad) e
    ∙ decrypt-of (record { aead = kit.aead; nonce = other.nonce }) nonce
        (kit.aead.seal nonce plaintext aad) aad
        (omega (
          arith,
          v.sized,
          length-append kit.nonce.prefix digits,
          length-big_endian 8 (kit.nonce.counter + 1),
        ))
        (kit.aead.unseal-seal nonce plaintext aad)

-- A kit that is ready encrypts, and any kit with the same cipher decrypts what it sent.
pub decrypt-encrypt :
    (kit other : Kit) (plaintext aad : List ℕ)
    → IsReady kit
    → other.aead ≡ kit.aead
    → (bytes : List ℕ) × (encrypt kit plaintext aad ≡ ok (bytes, used kit))
      × (decrypt other bytes aad ≡ ok plaintext)
decrypt-encrypt kit other plaintext aad v e = (
  sealed kit plaintext aad,
  encrypt-ok kit plaintext aad v,
  decrypt-sealed kit other plaintext aad v e,
)

-- A kit that was just made is ready.
pub new_kit-IsReady :
    (random : ℕ → Option (List ℕ)) (aead : Aead)
    → ((n : ℕ) (p : List ℕ) → random n ≡ some p → length p ≡ n)
    → (kit : Kit) → new_kit random aead ≡ ok kit
    → IsReady kit × (kit.aead ≡ aead)
unfolding new_kit new_nonce_source
new_kit-IsReady random aead h kit e = elim (Option-cases (random (aead.nonce_size - 8))) [
  | inl n ↦ ground (arith, n)
  | inr (p, f) ↦ ground (arith, f, h (aead.nonce_size - 8) p f)
]
