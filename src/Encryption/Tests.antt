-- ===== src/Encryption/Tests.antt =====
-- Concrete runs of a nonce source and of two kits.
use telekit.Common.{ℕ, ◌≡◌, refl, arith, List, [], ◌∷◌, some, get_elem?}
use telekit.Common.Bytes.{big_endian}
use telekit.Common.Results.{ok}
use telekit.Encryption.{NonceSource, next, encrypt, decrypt}
use telekit.Encryption.Nonces.{nonces, nonces-distinct}
use telekit.Encryption.Kits.{used, decrypt-encrypt}
use telekit.Encryption.Samples.{sender_kit, receiver_kit, sender_kit-IsReady}

abbrev source : NonceSource
source = record { prefix = 7 ∷ []; counter = 255 }

second_nonce : get_elem? (nonces 3 source) 1 ≡ some (7 ∷ 0 ∷ 0 ∷ 0 ∷ 0 ∷ 0 ∷ 0 ∷ 1 ∷ 1 ∷ [])
unfolding nonces next big_endian
second_nonce = refl

abbrev place : ℕ
place = 1

nonces-distinct_example : place ≡ place
nonces-distinct_example =
    nonces-distinct 3 place place source (omega arith) second_nonce second_nonce

decrypt-encrypt_example :
    (bytes : List ℕ) × (encrypt sender_kit (10 ∷ 20 ∷ []) (9 ∷ []) ≡ ok (bytes, used sender_kit))
    × (decrypt receiver_kit bytes (9 ∷ []) ≡ ok (10 ∷ 20 ∷ []))
decrypt-encrypt_example =
    decrypt-encrypt sender_kit receiver_kit (10 ∷ 20 ∷ []) (9 ∷ []) sender_kit-IsReady refl
