-- ===== src/Peer/SignalingChannel/Exchange.antt =====
-- The two ends of one signaling session.
use telekit.Common.{ℕ, ◌≡◌, ap, ◌∙◌, Option, List, arith, inl, inr}
use telekit.Common.Results.{ok, Result-cases}
use telekit.Encryption.{Aead}
use telekit.Peer.Codec.{Codec, EncryptionType, new_codec}
use telekit.Peer.Codec.Packets.{IsMatched}
use telekit.Peer.DataChannel.{data_role_client, data_role_server}
use telekit.Peer.DataChannel.Pairing.{IsSized, new_codec-IsMatched}
use telekit.Peer.SignalingChannel.{
  SignalingChannel, SignalingDirection, client_to_server, server_to_client, derive_signaling_key,
  signaling_codec, signaling_channel_for, new_signaling_channel,
}

-- How a new channel is put together.
record IsAssembled (hkdf : List ℕ → List ℕ → List ℕ → List ℕ) (random : ℕ → Option (List ℕ))
    (ciphers : EncryptionType → List ℕ → Option Aead) (typ : EncryptionType)
    (session_key aad : List ℕ) (send receive : SignalingDirection) (c : SignalingChannel)
    : Type 0 where
  send_key : List ℕ
  receive_key : List ℕ
  send_derived : derive_signaling_key hkdf random ciphers session_key send ≡ ok send_key
  receive_derived : derive_signaling_key hkdf random ciphers session_key receive ≡ ok receive_key
  sender : new_codec random ciphers typ send_key aad ≡ ok c.send_codec
  receiver : new_codec random ciphers typ receive_key aad ≡ ok c.receive_codec

module _ (hkdf : List ℕ → List ℕ → List ℕ → List ℕ)
    (ciphers : EncryptionType → List ℕ → Option Aead) (typ : EncryptionType)
    (session_key aad : List ℕ) where
  signaling_codec-ok :
      (random : ℕ → Option (List ℕ)) (key : List ℕ) {c : Codec}
      → signaling_codec hkdf random ciphers typ key aad ≡ ok c
      → new_codec random ciphers typ key aad ≡ ok c
  unfolding signaling_codec
  signaling_codec-ok random key e = ground (arith, e)

  signaling_channel_for-IsAssembled :
      (random : ℕ → Option (List ℕ)) (send receive : SignalingDirection) {c : SignalingChannel}
      → signaling_channel_for hkdf random ciphers typ session_key aad send receive ≡ ok c
      → IsAssembled hkdf random ciphers typ session_key aad send receive c
  unfolding signaling_channel_for
  signaling_channel_for-IsAssembled random send receive {c} e =
      elim (Result-cases (derive_signaling_key hkdf random ciphers session_key send)) [
        | inr (err, f) ↦ absurd (cc (rw f at e))
        | inl (sk, f) ↦
            elim (Result-cases (derive_signaling_key hkdf random ciphers session_key receive)) [
              | inr (err, g) ↦ absurd (cc (rw (f, g) at e))
              | inl (rk, g) ↦ elim (Result-cases (signaling_codec hkdf random ciphers typ sk aad)) [
                | inr (err, h) ↦ absurd (cc (rw (f, g, h) at e))
                | inl (s, h) ↦
                    elim (Result-cases (signaling_codec hkdf random ciphers typ rk aad)) [
                      | inr (err, k) ↦ absurd (cc (rw (f, g, h, k) at e))
                      | inl (r, k) ↦
                          let same : record {
                            send_codec = s;
                            receive_codec = r;
                            session_key = session_key;
                          }
                              ≡ c =
                            cc (rw (f, g, h, k) at e) in
                          record {
                            send_key = sk;
                            receive_key = rk;
                            send_derived = f;
                            receive_derived = g;
                            sender =
                                signaling_codec-ok random sk h ∙ ap (λ d. ok d.send_codec) same;
                            receiver =
                                signaling_codec-ok random rk k ∙ ap (λ d. ok d.receive_codec) same;
                          }
                    ]
              ]
            ]
      ]

  assembled-IsMatched :
      (random random' : ℕ → Option (List ℕ)) (sized : IsSized random) (sized' : IsSized random')
      (send receive : SignalingDirection) {c s : SignalingChannel}
      → IsAssembled hkdf random ciphers typ session_key aad send receive c
      → IsAssembled hkdf random' ciphers typ session_key aad receive send s
      → IsMatched c.send_codec s.receive_codec
  unfolding derive_signaling_key
  assembled-IsMatched random random' sized sized' send receive b d =
      let same : b.send_key ≡ d.receive_key = cc (b.send_derived, d.receive_derived) in
      new_codec-IsMatched ciphers random random' sized sized' typ b.send_key aad b.sender
        (ap (λ k. new_codec random' ciphers typ k aad) same ∙ d.receiver)

  -- The signaling channels that a client and a server make of one session key, type and user data read
  -- each other's messages.
  pub new_signaling_channel-IsMatched :
      (random random' : ℕ → Option (List ℕ)) {c s : SignalingChannel}
      → IsSized random
      → IsSized random'
      → new_signaling_channel hkdf random ciphers typ session_key aad data_role_client ≡ ok c
      → new_signaling_channel hkdf random' ciphers typ session_key aad data_role_server ≡ ok s
      → IsMatched c.send_codec s.receive_codec × IsMatched s.send_codec c.receive_codec
  unfolding new_signaling_channel
  new_signaling_channel-IsMatched random random' sized sized' e f =
      let b = signaling_channel_for-IsAssembled random client_to_server server_to_client e in
      let d = signaling_channel_for-IsAssembled random' server_to_client client_to_server f in
      (
        assembled-IsMatched random random' sized sized' client_to_server server_to_client b d,
        assembled-IsMatched random' random sized' sized server_to_client client_to_server d b,
      )
