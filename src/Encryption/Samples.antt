-- ===== src/Encryption/Samples.antt =====
-- A cipher and kits for concrete runs.
use telekit.Common.{ℕ, refl, arith, Option, some, List, [], ◌∷◌, replicate}
use telekit.Encryption.{Aead, Kit}
use telekit.Encryption.Kits.{IsReady}

-- It hides nothing, which no law asks for.
abbrev pub plain_aead : Aead
plain_aead = record {
  nonce_size = 12;
  seal = λ nonce plaintext aad. plaintext;
  unseal = λ nonce ciphertext aad. some ciphertext;
  unseal-seal = λ nonce plaintext aad. refl;
}

abbrev pub sevens : ℕ → Option (List ℕ)
sevens n = some (replicate n 7)

abbrev pub sender_kit : Kit
sender_kit = record {
  aead = plain_aead;
  nonce = record { prefix = 7 ∷ 7 ∷ 7 ∷ 7 ∷ []; counter = 5 };
}

abbrev pub receiver_kit : Kit
receiver_kit = record {
  aead = plain_aead;
  nonce = record { prefix = 1 ∷ 2 ∷ 3 ∷ 4 ∷ []; counter = 0 };
}

pub sender_kit-IsReady : IsReady sender_kit
sender_kit-IsReady = record { sized = refl; left = omega arith }
