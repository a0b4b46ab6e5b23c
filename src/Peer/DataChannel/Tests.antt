-- ===== src/Peer/DataChannel/Tests.antt =====
-- Concrete frames between the two ends of a channel.
use telekit.Common.{
  ℕ, ◌≡◌, inr, refl, arith, Option, some, List, [], ◌∷◌, length, replicate, length-replicate, ap,
  ◌∙◌,
}
use telekit.Common.Results.{ok}
use telekit.Encryption.{Aead, new_kit, new_nonce_source}
use telekit.Encryption.Samples.{plain_aead, sender_kit, receiver_kit, sevens}
use telekit.Peer.Codec.{EncryptionType, chacha20_poly1305, kit_of, create_encrypt_kit, new_codec}
use telekit.Peer.Codec.Samples.{codec_with, codecs-IsMatched}
use telekit.Peer.Replay
use telekit.Peer.Replay.History.{Tracks}
use telekit.Peer.Replay.Once.{reset-Tracks}
use telekit.Peer.DataChannel.{
  DataChannel, client_to_server, server_to_client, seal_frame, open_frame, new_data_channel,
  derive_data_key, codec_for,
}
use telekit.Peer.DataChannel.Frames.{IsPaired, open_frame-seal_frame, frame_aad-injective}
use telekit.Peer.DataChannel.Delivery.{IsFresh, Arrival, deliver_all, delivers_once}
use telekit.Peer.DataChannel.Pairing.{new_data_channel-IsPaired}

abbrev client_end : DataChannel
client_end = record {
  send_codec = codec_with sender_kit;
  receive_codec = codec_with receiver_kit;
  send_direction = client_to_server;
  receive_direction = server_to_client;
  send_sequence = 0;
  receive_window = Replay.new;
}

abbrev server_end : DataChannel
server_end = record client_end {
  send_direction = server_to_client;
  receive_direction = client_to_server;
}

ends-IsPaired : IsPaired client_end server_end
ends-IsPaired = record { matched = codecs-IsMatched; same_direction = refl }

new-Tracks : Tracks Replay.new []
unfolding Replay.reset
new-Tracks = reset-Tracks Replay.new

open_frame-seal_frame_example :
    (bytes : List ℕ) × (c' : DataChannel) × (s' : DataChannel) × (seal_frame client_end 1
        (104 ∷ 105 ∷ [])
      ≡ (ok (1, bytes), c'))
    × (open_frame server_end 1 bytes 100 ≡ (ok (1, 104 ∷ 105 ∷ []), s'))
    × Tracks s'.receive_window (1 ∷ [])
open_frame-seal_frame_example =
    open_frame-seal_frame client_end server_end ends-IsPaired 1 (104 ∷ 105 ∷ []) refl (omega arith)
      100 [] (inr (omega arith)) new-Tracks refl

abbrev arrivals : List Arrival
arrivals =
    record { sequence = 1; ciphertext = replicate 15 1; max_decoded_size = 0 }
    ∷ record { sequence = 1; ciphertext = replicate 15 1; max_decoded_size = 0 }
    ∷ []

delivers_once_example :
    let (c', delivered) = deliver_all server_end [] arrivals in IsFresh c' delivered
delivers_once_example =
    delivers_once arrivals server_end [] (record { tracked = new-Tracks; distinct = tt })

abbrev user_data : List ℕ
user_data = 8 ∷ []

abbrev sequence : ℕ
sequence = 3

frame_aad-injective_example :
    (user_data ≡ user_data) × (client_to_server ≡ client_to_server) × (sequence ≡ sequence)
frame_aad-injective_example =
    frame_aad-injective user_data user_data client_to_server client_to_server sequence sequence
      (omega arith) (omega arith) (omega arith) (omega arith) refl

abbrev new_end : DataChannel
new_end = record client_end {
  send_codec =
      codec_with
        (record { aead = plain_aead; nonce = record { prefix = 7 ∷ 7 ∷ 7 ∷ 7 ∷ []; counter = 0 } });
  receive_codec =
      codec_with
        (record { aead = plain_aead; nonce = record { prefix = 7 ∷ 7 ∷ 7 ∷ 7 ∷ []; counter = 0 } });
}

abbrev new_server_end : DataChannel
new_server_end = record new_end {
  send_direction = server_to_client;
  receive_direction = client_to_server;
}

abbrev ciphers : EncryptionType → List ℕ → Option Aead
ciphers typ secret = some plain_aead

abbrev first_of : List ℕ → List ℕ → List ℕ → List ℕ
first_of key salt info = key

new_client_made :
    new_data_channel first_of sevens ciphers chacha20_poly1305 (3 ∷ []) (8 ∷ []) 1 ≡ ok new_end
unfolding new_data_channel derive_data_key codec_for new_codec create_encrypt_kit kit_of new_kit
    new_nonce_source
new_client_made = refl

new_server_made :
    new_data_channel first_of sevens ciphers chacha20_poly1305 (3 ∷ []) (8 ∷ []) 2
    ≡ ok new_server_end
unfolding new_data_channel derive_data_key codec_for new_codec create_encrypt_kit kit_of new_kit
    new_nonce_source
new_server_made = refl

sevens-IsSized : (n : ℕ) (p : List ℕ) → sevens n ≡ some p → length p ≡ n
sevens-IsSized n p e = ap length {x = p} {y = replicate n 7} (cc e) ∙ length-replicate n 7

new_data_channel-IsPaired_example :
    IsPaired new_end new_server_end × IsPaired new_server_end new_end
new_data_channel-IsPaired_example =
    new_data_channel-IsPaired first_of ciphers chacha20_poly1305 (3 ∷ []) (8 ∷ []) sevens sevens
      sevens-IsSized sevens-IsSized new_client_made new_server_made
