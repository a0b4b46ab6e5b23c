-- ===== src/Encryption.antt =====
-- utils/encryption: nonce.go, and the `Encrypt` and `Decrypt` that aes-256-gcm.go, ascon-128a.go,
-- camellia-256-gcm.go, chacha20-poly1305.go and xchacha20-poly-1305.go have alike.
-- The ciphers are libraries: `Aead` is `cipher.AEAD` under one key, with what its documentation says.
-- Bytes are numbers. The compare-and-swap loop of a counter takes effect in one step.
pub mod Nonces
pub mod Kits
pub mod Samples
mod Tests
use telekit.Common.{
  ℕ, ◌+◌, ◌-◌, ◌^◌, ◌≡◌, Option, none, some, List, [], ◌++◌, ◌==◌, leb, ltb, not, if◌then◌else◌,
  length, take, drop,
}
use telekit.Common.Bytes.{big_endian}
use telekit.Common.Results.{Result, ok, error}

pub record Aead : Type 0 where
  pub nonce_size : ℕ
  pub seal : List ℕ → List ℕ → List ℕ → List ℕ
  pub unseal : List ℕ → List ℕ → List ℕ → Option (List ℕ)
  pub unseal-seal :
      (nonce plaintext aad : List ℕ) → unseal nonce (seal nonce plaintext aad) aad ≡ some plaintext

pub data CipherError : Type 0 where
  nonce_too_small no_randomness invalid_nonce_size counter_exhausted ciphertext_too_short
        not_authentic :
      CipherError

abbrev pub nonce_counter_size : ℕ
nonce_counter_size = 8

abbrev pub max_uint64 : ℕ
max_uint64 = 2 ^ 64 - 1

pub record NonceSource : Type 0 where
  pub prefix : List ℕ
  pub counter : ℕ

-- `random` is what the system's random source gives for a prefix of that length.
unfoldable pub new_nonce_source : (ℕ → Option (List ℕ)) → ℕ → Result CipherError NonceSource
new_nonce_source random size =
    if leb size nonce_counter_size
    then error nonce_too_small
    else (elim (random (size - nonce_counter_size)) [
      | none ↦ error no_randomness
      | some prefix ↦ ok (record { prefix = prefix; counter = 0 })
    ])

-- `next` into a slice of `size` bytes.
unfoldable pub next : NonceSource → ℕ → Result CipherError (List ℕ × NonceSource)
next s size =
    if not (size == length s.prefix + nonce_counter_size)
    then error invalid_nonce_size
    else if s.counter == max_uint64
    then error counter_exhausted
    else ok (s.prefix ++ big_endian 8 (s.counter + 1), record s { counter = s.counter + 1 })

-- `AES256GCMimpl` and its four likes.
pub record Kit : Type 0 where
  pub aead : Aead
  pub nonce : NonceSource

unfoldable pub new_kit : (ℕ → Option (List ℕ)) → Aead → Result CipherError Kit
new_kit random aead = elim (new_nonce_source random aead.nonce_size) [
  | error e ↦ error e
  | ok s ↦ ok (record { aead = aead; nonce = s })
]

unfoldable pub encrypt : Kit → List ℕ → List ℕ → Result CipherError (List ℕ × Kit)
encrypt kit plaintext aad = elim (next kit.nonce kit.aead.nonce_size) [
  | error e ↦ error e
  | ok (nonce, s) ↦ ok (nonce ++ kit.aead.seal nonce plaintext aad, record kit { nonce = s })
]

unfoldable pub decrypt : Kit → List ℕ → List ℕ → Result CipherError (List ℕ)
decrypt kit bytes aad =
    if ltb (length bytes) kit.aead.nonce_size
    then error ciphertext_too_short
    else (elim (kit.aead.unseal (take kit.aead.nonce_size bytes) (drop kit.aead.nonce_size bytes)
        aad) [ none ↦ error not_authentic | some plaintext ↦ ok plaintext ])
