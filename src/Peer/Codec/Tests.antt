-- ===== src/Peer/Codec/Tests.antt =====
-- A concrete message between two codecs.
use telekit.Common.{ℕ, ◌≡◌, refl, arith, true, List, [], ◌∷◌}
use telekit.Common.Results.{ok}
use telekit.Encryption.Samples.{sender_kit}
use telekit.Peer.Codec.{Codec, Message}
use telekit.Peer.Codec.Associated.{build_additional_data-injective}
use telekit.Peer.Codec.Secrets.{IsUpdated, update_secret-IsUpdated}
use telekit.Peer.Codec.{EncryptionType, chacha20_poly1305, update_secret}
use telekit.Encryption.{Aead}
use telekit.Encryption.Samples.{plain_aead, sevens}
use telekit.Common.{Option, some}
use telekit.Peer.Codec.Samples.{codec_with}

abbrev message : Message (List ℕ) (List ℕ)
message = record { header = 4 ∷ []; payload = 5 ∷ 6 ∷ []; encrypt = true }

abbrev domain : ℕ
domain = 2

abbrev user_data : List ℕ
user_data = 8 ∷ []

abbrev context : List ℕ
context = 7 ∷ []

build_additional_data-injective_example :
    (domain ≡ domain) × (user_data ≡ user_data) × (context ≡ context)
build_additional_data-injective_example =
    build_additional_data-injective user_data user_data context context domain domain (omega arith)
      (omega arith) refl

abbrev ciphers : EncryptionType → List ℕ → Option Aead
ciphers typ secret = some plain_aead

-- The same key again.
update_made :
    update_secret sevens ciphers (codec_with sender_kit) chacha20_poly1305 (3 ∷ [])
    ≡ ok (codec_with sender_kit)
unfolding update_secret
update_made = refl

update_secret-IsUpdated_example :
    IsUpdated sevens ciphers
      (codec_with sender_kit)
      chacha20_poly1305
      (3 ∷ [])
      (codec_with sender_kit)
update_secret-IsUpdated_example =
    update_secret-IsUpdated sevens ciphers (codec_with sender_kit) chacha20_poly1305 (3 ∷ [])
      update_made
