-- ===== src/Peer/SignalingChannel/Tests.antt =====
-- Concrete ends of a signaling session.
use telekit.Common.{
  ℕ, ◌≡◌, refl, Option, some, List, [], ◌∷◌, length, length-replicate, replicate, ap, ◌∙◌,
}
use telekit.Common.Results.{ok}
use telekit.Encryption.{Aead, new_kit, new_nonce_source}
use telekit.Encryption.Samples.{plain_aead, sevens}
use telekit.Peer.Codec.{
  Codec, EncryptionType, chacha20_poly1305, kit_of, create_encrypt_kit, new_codec,
}
use telekit.Peer.Codec.Samples.{codec_with}
use telekit.Peer.Codec.Packets.{IsMatched}
use telekit.Peer.SignalingChannel.{
  SignalingChannel, new_signaling_channel, signaling_channel_for, signaling_codec,
  derive_signaling_key,
}
use telekit.Peer.SignalingChannel.Exchange.{new_signaling_channel-IsMatched}

abbrev fresh : Codec
fresh =
    codec_with
      (record { aead = plain_aead; nonce = record { prefix = 7 ∷ 7 ∷ 7 ∷ 7 ∷ []; counter = 0 } })

abbrev signaling_end : SignalingChannel
signaling_end = record { send_codec = fresh; receive_codec = fresh; session_key = 3 ∷ [] }

abbrev ciphers : EncryptionType → List ℕ → Option Aead
ciphers typ secret = some plain_aead

abbrev first_of : List ℕ → List ℕ → List ℕ → List ℕ
first_of key salt info = key

client_made :
    new_signaling_channel first_of sevens ciphers chacha20_poly1305 (3 ∷ []) (8 ∷ []) 1
    ≡ ok signaling_end
unfolding new_signaling_channel signaling_channel_for derive_signaling_key signaling_codec new_codec
    create_encrypt_kit kit_of new_kit new_nonce_source
client_made = refl

server_made :
    new_signaling_channel first_of sevens ciphers chacha20_poly1305 (3 ∷ []) (8 ∷ []) 2
    ≡ ok signaling_end
unfolding new_signaling_channel signaling_channel_for derive_signaling_key signaling_codec new_codec
    create_encrypt_kit kit_of new_kit new_nonce_source
server_made = refl

sevens-IsSized : (n : ℕ) (p : List ℕ) → sevens n ≡ some p → length p ≡ n
sevens-IsSized n p e = ap length {x = p} {y = replicate n 7} (cc e) ∙ length-replicate n 7

new_signaling_channel-IsMatched_example : IsMatched fresh fresh × IsMatched fresh fresh
new_signaling_channel-IsMatched_example =
    new_signaling_channel-IsMatched first_of ciphers chacha20_poly1305 (3 ∷ []) (8 ∷ []) sevens
      sevens sevens-IsSized sevens-IsSized client_made server_made
