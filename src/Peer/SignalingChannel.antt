-- ===== src/Peer/SignalingChannel.antt =====
-- peer/signaling_channel.go: `SignalingChannel`. `hkdf` is as in Peer/Handshake.antt. A channel is one that
-- `NewSignalingChannel` made, so it is not nil.
pub mod Exchange
mod Tests
use telekit.Common.{ℕ, ◌+◌, Option, List, [], ◌∷◌, ◌==◌, if◌then◌else◌, length}
use telekit.Common.Results.{Result, ok, error, and_then}
use telekit.Encryption.{Aead}
use telekit.Peer.Handshake.{encode_handshake_fields, signaling_label}
use telekit.Peer.Codec
use telekit.Peer.Codec.{Codec, CodecError, EncryptionType, Gob, Message}
use telekit.Peer.DataChannel.{data_role_client, data_role_server}

pub data SignalingError : Type 0 where
  codec : CodecError → SignalingError
  invalid_role empty_session_key : SignalingError

-- `signalingClientToServer` and `signalingServerToClient`
pub data SignalingDirection : Type 0 where
  client_to_server server_to_client : SignalingDirection

abbrev pub signaling_direction_byte : SignalingDirection → ℕ
signaling_direction_byte client_to_server = 1
signaling_direction_byte server_to_client = 2

pub record SignalingChannel : Type 0 where
  pub send_codec : Codec
  pub receive_codec : Codec
  pub session_key : List ℕ

-- The direction that a role sends in and the one that it receives in.
abbrev pub signaling_directions :
    ℕ → Result SignalingError (SignalingDirection × SignalingDirection)
signaling_directions role =
    if role == data_role_client
    then ok (client_to_server, server_to_client)
    else if role == data_role_server
    then ok (server_to_client, client_to_server)
    else error invalid_role

abbrev pub lift_codec : {A : Type 0} → Result CodecError A → Result SignalingError A
lift_codec (ok a) = ok a
lift_codec (error e) = error (codec e)

module _ (hkdf : List ℕ → List ℕ → List ℕ → List ℕ) (random : ℕ → Option (List ℕ))
    (ciphers : EncryptionType → List ℕ → Option Aead) where
  unfoldable pub derive_signaling_key : List ℕ → SignalingDirection → Result SignalingError (List ℕ)
  derive_signaling_key session_key direction =
      if length session_key == 0
      then error empty_session_key
      else ok (
          hkdf session_key [] (
            encode_handshake_fields
              (signaling_label ∷ (signaling_direction_byte direction ∷ []) ∷ [])))

  -- The codec of one direction.
  unfoldable pub signaling_codec : EncryptionType → List ℕ → List ℕ → Result SignalingError Codec
  signaling_codec typ key aad = lift_codec (Codec.new_codec random ciphers typ key aad)

  -- The codecs and the key, once the directions are known.
  unfoldable pub signaling_channel_for :
      EncryptionType
      → List ℕ
      → List ℕ
      → SignalingDirection
      → SignalingDirection
      → Result SignalingError SignalingChannel
  signaling_channel_for typ session_key aad send receive =
      and_then (derive_signaling_key session_key send) (λ send_key.
        and_then (derive_signaling_key session_key receive) (λ receive_key.
          and_then (signaling_codec typ send_key aad) (λ s.
            and_then (signaling_codec typ receive_key aad)
              (λ r. ok (record { send_codec = s; receive_codec = r; session_key = session_key })))))

  unfoldable pub new_signaling_channel :
      EncryptionType → List ℕ → List ℕ → ℕ → Result SignalingError SignalingChannel
  new_signaling_channel typ session_key aad role =
      and_then (signaling_directions role)
        (λ (send, receive). signaling_channel_for typ session_key aad send receive)

module _ {H P : Type 0} (gob : Gob H P) where
  -- `EncodeMessage` and `DecodeMessage` of the channel.
  unfoldable pub send_message :
      SignalingChannel → Message H P → Result CodecError (List ℕ × SignalingChannel)
  send_message c m =
      and_then (Codec.encode_message gob c.send_codec m)
        (λ (packet, send_codec). ok (packet, record c { send_codec = send_codec }))

  unfoldable pub receive_message : SignalingChannel → List ℕ → Result CodecError (Message H P)
  receive_message c packet = Codec.decode_message gob c.receive_codec packet
