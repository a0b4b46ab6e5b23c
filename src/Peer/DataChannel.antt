-- ===== src/Peer/DataChannel.antt =====
-- peer/data_channel.go: `DataChannel`. `hkdf` is as in Peer/Handshake.antt. The compare-and-swap loop of the
-- send sequence takes effect in one step. A channel is one that `NewDataChannel` made, so it is not nil.
pub mod Frames
pub mod Delivery
pub mod Pairing
mod Tests
use telekit.Common.{
  ℕ, zero, suc, ◌+◌, ◌-◌, ◌^◌, Bool, true, false, not, ◌&&◌, ◌||◌, Option, none, some, List, [],
  ◌∷◌, ◌++◌, ◌==◌, if◌then◌else◌, length,
}
use telekit.Common.Bytes.{big_endian}
use telekit.Common.Results.{Result, ok, error, and_then}
use telekit.Encryption.{Aead, max_uint64}
use telekit.Peer.Handshake.{encode_handshake_fields, data_label}
use telekit.Peer.Codec
use telekit.Peer.Codec.{
  Codec, CodecError, EncryptionType, encode_with_encryption, decode_with_decryption,
  aad_domain_data,
}
use telekit.Peer.Replay
use telekit.Peer.Replay.{ReplayWindow}

pub data ChannelError : Type 0 where
  codec : CodecError → ChannelError
  invalid_role empty_session_key unexpected_frame_type sequence_exhausted sequence_zero
        frame_replayed :
      ChannelError

abbrev pub data_frame_application : ℕ
data_frame_application = 1

abbrev pub data_frame_heartbeat : ℕ
data_frame_heartbeat = 2

abbrev pub data_role_client : ℕ
data_role_client = 1

abbrev pub data_role_server : ℕ
data_role_server = 2

pub data DataDirection : Type 0 where
  client_to_server server_to_client : DataDirection

-- The byte of a direction.
abbrev pub direction_byte : DataDirection → ℕ
direction_byte client_to_server = 1
direction_byte server_to_client = 2

pub record DataChannel : Type 0 where
  pub send_codec : Codec
  pub receive_codec : Codec
  pub send_direction : DataDirection
  pub receive_direction : DataDirection
  pub send_sequence : ℕ
  pub receive_window : ReplayWindow

-- The direction that a role sends in and the one that it receives in.
abbrev pub directions : ℕ → Result ChannelError (DataDirection × DataDirection)
directions role =
    if role == data_role_client
    then ok (client_to_server, server_to_client)
    else if role == data_role_server
    then ok (server_to_client, client_to_server)
    else error invalid_role

abbrev pub of_codec : {A : Type 0} → Result CodecError A → Result ChannelError A
of_codec (ok a) = ok a
of_codec (error e) = error (codec e)

module _ (hkdf : List ℕ → List ℕ → List ℕ → List ℕ) (random : ℕ → Option (List ℕ))
    (ciphers : EncryptionType → List ℕ → Option Aead) where
  unfoldable pub derive_data_key : List ℕ → DataDirection → Result ChannelError (List ℕ)
  derive_data_key session_key direction =
      if length session_key == 0
      then error empty_session_key
      else ok (
          hkdf session_key []
            (encode_handshake_fields (data_label ∷ (direction_byte direction ∷ []) ∷ [])))

  -- The codec of one direction.
  unfoldable pub codec_for : EncryptionType → List ℕ → List ℕ → Result ChannelError Codec
  codec_for typ key aad = of_codec (Codec.new_codec random ciphers typ key aad)

  unfoldable pub new_data_channel :
      EncryptionType → List ℕ → List ℕ → ℕ → Result ChannelError DataChannel
  new_data_channel typ session_key aad role = and_then (directions role) (λ (send, receive).
      and_then (derive_data_key session_key send) (λ send_key.
        and_then (derive_data_key session_key receive) (λ receive_key.
          and_then (codec_for typ send_key aad) (λ send_codec.
            and_then (codec_for typ receive_key aad) (λ receive_codec. ok (record {
              send_codec = send_codec;
              receive_codec = receive_codec;
              send_direction = send;
              receive_direction = receive;
              send_sequence = 0;
              receive_window = Replay.new;
            }))))))

-- The byte of the direction and the sequence number.
unfoldable pub data_frame_context : DataDirection → ℕ → List ℕ
data_frame_context direction sequence = direction_byte direction ∷ big_endian 8 sequence

abbrev pub is_frame_type : ℕ → Bool
is_frame_type t = t == data_frame_application || t == data_frame_heartbeat

-- The sequence number is taken before the frame is encrypted, also when that fails.
unfoldable pub seal_frame :
    DataChannel → ℕ → List ℕ → Result ChannelError (ℕ × List ℕ) × DataChannel
seal_frame c frame_type plaintext =
    if not (is_frame_type frame_type)
    then (error unexpected_frame_type, c)
    else if c.send_sequence == max_uint64
    then (error sequence_exhausted, c)
    else (let sequence = c.send_sequence + 1 in
        let c' : DataChannel = record c { send_sequence = sequence } in
        elim (encode_with_encryption c.send_codec (frame_type ∷ plaintext) aad_domain_data
          (data_frame_context c.send_direction sequence)) [
            | error e ↦ (error (codec e), c')
            | ok (ciphertext, send_codec) ↦
                (ok (sequence, ciphertext), record c' { send_codec = send_codec })
          ])

unfoldable pub seal : DataChannel → List ℕ → Result ChannelError (ℕ × List ℕ) × DataChannel
seal c plaintext = seal_frame c data_frame_application plaintext

unfoldable pub seal_heartbeat : DataChannel → Result ChannelError (ℕ × List ℕ) × DataChannel
seal_heartbeat c = seal_frame c data_frame_heartbeat []

-- A frame that was authenticated: its type is checked, then its sequence number.
unfoldable pub accept_frame :
    DataChannel → ℕ → List ℕ → Result ChannelError (ℕ × List ℕ) × DataChannel
accept_frame c sequence [] = (error unexpected_frame_type, c)
accept_frame c sequence (t ∷ plaintext) =
    if not (is_frame_type t)
    then (error unexpected_frame_type, c)
    else if t == data_frame_heartbeat && not (length plaintext == 0)
    then (error unexpected_frame_type, c)
    else (let (window, fresh) = Replay.accept c.receive_window sequence in
        let c' : DataChannel = record c { receive_window = window } in
        if fresh then (ok (t, plaintext), c') else (error frame_replayed, c'))

unfoldable pub open_frame :
    DataChannel → ℕ → List ℕ → ℕ → Result ChannelError (ℕ × List ℕ) × DataChannel
open_frame c sequence ciphertext max_decoded_size =
    if sequence == 0
    then (error sequence_zero, c)
    else (elim (decode_with_decryption c.receive_codec ciphertext aad_domain_data
        (data_frame_context c.receive_direction sequence) max_decoded_size) [
          | error e ↦ (error (codec e), c)
          | ok frame ↦ accept_frame c sequence frame
        ])

-- `Open`: an application frame.
unfoldable pub open_application :
    DataChannel → ℕ → List ℕ → ℕ → Result ChannelError (List ℕ) × DataChannel
open_application c sequence ciphertext max_decoded_size =
    let (r, c') = open_frame c sequence ciphertext max_decoded_size in
    (
      and_then r (λ (t, plaintext).
          if t == data_frame_application then ok plaintext else error unexpected_frame_type),
      c',
    )
