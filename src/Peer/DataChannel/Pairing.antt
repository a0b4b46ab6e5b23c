-- ===== src/Peer/DataChannel/Pairing.antt =====
-- `NewDataChannel` at the two ends of one session.
use telekit.Common.{ℕ, ◌≡◌, ap, sym, ◌∙◌, List, length, arith, inl, inr, Option, some, Option-cases}
use telekit.Common.Results.{Result, ok, and_then, Result-cases}
use telekit.Encryption.{Aead, Kit, new_kit}
use telekit.Encryption.Kits.{IsReady, new_kit-IsReady}
use telekit.Peer.Codec.{
  Codec, EncryptionType, unknown, aes_256_gcm, ascon_128a, camellia_256, chacha20_poly1305,
  xchacha20_poly1305, kit_of, create_encrypt_kit, new_codec,
}
use telekit.Peer.Codec.Associated.{new_codec-IsPrepared}
use telekit.Peer.Codec.Packets.{IsMatched}
use telekit.Peer.Replay
use telekit.Peer.DataChannel.{
  DataChannel, DataDirection, ChannelError, derive_data_key, codec_for, new_data_channel,
  data_role_client, data_role_server, client_to_server, server_to_client,
}
use telekit.Peer.DataChannel.Frames.{IsPaired}

-- A random source that gives as many bytes as it is asked for, or fails.
abbrev pub IsSized : (ℕ → Option (List ℕ)) → Type 0
IsSized random = (n : ℕ) (p : List ℕ) → random n ≡ some p → length p ≡ n

module _ (ciphers : EncryptionType → List ℕ → Option Aead) where
  -- A kit that is ready, for the cipher of a type and a secret.
  record IsKitFor (typ : EncryptionType) (secret : List ℕ) (kit : Kit) : Type 0 where
    aead : Aead
    found : ciphers typ secret ≡ some aead
    keyed : kit.aead ≡ aead
    ready : IsReady kit

  module _ (random : ℕ → Option (List ℕ)) (sized : IsSized random) where
    kit_of-IsReady :
        (aead : Aead) (kit : Kit)
        → kit_of random ciphers (some aead) ≡ ok kit
        → IsReady kit × (kit.aead ≡ aead)
    unfolding kit_of
    kit_of-IsReady aead kit e = elim (Result-cases (new_kit random aead)) [
      | inl (k, f) ↦
          new_kit-IsReady random aead sized kit (f ∙ ap ok {x = k} {y = kit} (ground (arith, e, f)))
      | inr (err, f) ↦ ground (arith, e, f)
    ]

    kit_of-IsKitFor :
        (typ : EncryptionType) (secret : List ℕ) (kit : Kit)
        → kit_of random ciphers (ciphers typ secret) ≡ ok kit
        → IsKitFor typ secret kit
    unfolding kit_of
    kit_of-IsKitFor typ secret kit e = elim (Option-cases (ciphers typ secret)) [
      | inl n ↦ ground (arith, e, n)
      | inr (aead, f) ↦
          let r = kit_of-IsReady aead kit (ap (kit_of random ciphers) (sym f) ∙ e) in
          record { aead = aead; found = f; keyed = r.1; ready = r.0 }
    ]

    create_encrypt_kit-IsKitFor :
        (typ : EncryptionType) (secret : List ℕ) (kit : Kit)
        → create_encrypt_kit random ciphers typ secret ≡ ok kit
        → IsKitFor typ secret kit
    unfolding create_encrypt_kit
    create_encrypt_kit-IsKitFor (unknown name) secret kit e = absurd (cc e)
    create_encrypt_kit-IsKitFor aes_256_gcm secret kit e = kit_of-IsKitFor aes_256_gcm secret kit e
    create_encrypt_kit-IsKitFor ascon_128a secret kit e = kit_of-IsKitFor ascon_128a secret kit e
    create_encrypt_kit-IsKitFor camellia_256 secret kit e =
        kit_of-IsKitFor camellia_256 secret kit e
    create_encrypt_kit-IsKitFor chacha20_poly1305 secret kit e =
        kit_of-IsKitFor chacha20_poly1305 secret kit e
    create_encrypt_kit-IsKitFor xchacha20_poly1305 secret kit e =
        kit_of-IsKitFor xchacha20_poly1305 secret kit e

    new_codec-kit :
        (typ : EncryptionType) (secret aad : List ℕ) {c : Codec}
        → new_codec random ciphers typ secret aad ≡ ok c
        → (kit : Kit) × (create_encrypt_kit random ciphers typ secret ≡ ok kit)
          × (c.encryption_kit ≡ some kit)
    unfolding new_codec
    new_codec-kit typ secret aad {c} e =
        elim (Result-cases (create_encrypt_kit random ciphers typ secret)) [
          | inl (k, f) ↦ (k, f, ground (arith, e, f))
          | inr (err, f) ↦ absurd (ground (arith, e, f))
        ]

  module _ (random random' : ℕ → Option (List ℕ)) (sized : IsSized random)
      (sized' : IsSized random') where
    -- Two codecs of one type, secret and user data: each opens what the other seals.
    pub new_codec-IsMatched :
        (typ : EncryptionType) (secret aad : List ℕ) {c d : Codec}
        → new_codec random ciphers typ secret aad ≡ ok c
        → new_codec random' ciphers typ secret aad ≡ ok d
        → IsMatched c d
    new_codec-IsMatched typ secret aad {c} {d} e f =
        let (kit, made, there) = new_codec-kit random sized typ secret aad e in
        let (kit', made', there') = new_codec-kit random' sized' typ secret aad f in
        let k = create_encrypt_kit-IsKitFor random sized typ secret kit made in
        let l = create_encrypt_kit-IsKitFor random' sized' typ secret kit' made' in
        let p = new_codec-IsPrepared random ciphers typ secret aad e in
        let q = new_codec-IsPrepared random' ciphers typ secret aad f in
        record {
          kit = kit;
          other = kit';
          sender_kit = there;
          receiver_kit = there';
          ready = k.ready;
          same_cipher = l.keyed ∙ cc (k.found, l.found) ∙ sym k.keyed;
          same_data = q.1 ∙ sym p.1;
          sender_prepared = p.0;
          receiver_prepared = q.0;
        }

-- How a new channel is put together.
record IsBuilt (hkdf : List ℕ → List ℕ → List ℕ → List ℕ) (random : ℕ → Option (List ℕ))
    (ciphers : EncryptionType → List ℕ → Option Aead) (typ : EncryptionType)
    (session_key aad : List ℕ) (send receive : DataDirection) (c : DataChannel) : Type 0 where
  send_key : List ℕ
  receive_key : List ℕ
  send_derived : derive_data_key hkdf random ciphers session_key send ≡ ok send_key
  receive_derived : derive_data_key hkdf random ciphers session_key receive ≡ ok receive_key
  sender : new_codec random ciphers typ send_key aad ≡ ok c.send_codec
  receiver : new_codec random ciphers typ receive_key aad ≡ ok c.receive_codec
  send_way : c.send_direction ≡ send
  receive_way : c.receive_direction ≡ receive

module _ (hkdf : List ℕ → List ℕ → List ℕ → List ℕ)
    (ciphers : EncryptionType → List ℕ → Option Aead) (typ : EncryptionType)
    (session_key aad : List ℕ) where
  abbrev key_for : (ℕ → Option (List ℕ)) → DataDirection → Result ChannelError (List ℕ)
  key_for random d = derive_data_key hkdf random ciphers session_key d

  abbrev codec_at : (ℕ → Option (List ℕ)) → List ℕ → Result ChannelError Codec
  codec_at random key = codec_for hkdf random ciphers typ key aad

  codec_for-ok :
      (random : ℕ → Option (List ℕ)) (key : List ℕ) {c : Codec}
      → codec_at random key ≡ ok c
      → new_codec random ciphers typ key aad ≡ ok c
  unfolding codec_for
  codec_for-ok random key e = ground (arith, e)

  abbrev assembled : DataDirection → DataDirection → Codec → Codec → DataChannel
  assembled send receive s r = record {
    send_codec = s;
    receive_codec = r;
    send_direction = send;
    receive_direction = receive;
    send_sequence = 0;
    receive_window = Replay.new;
  }

  -- The end of `NewDataChannel`, once the directions are known.
  abbrev built_from :
      (ℕ → Option (List ℕ)) → DataDirection → DataDirection → Result ChannelError DataChannel
  built_from random send receive = and_then (key_for random send) (λ sk.
      and_then (key_for random receive) (λ rk.
        and_then (codec_at random sk)
          (λ s. and_then (codec_at random rk) (λ r. ok (assembled send receive s r)))))

  built_from-IsBuilt :
      (random : ℕ → Option (List ℕ)) (send receive : DataDirection) {c : DataChannel}
      → built_from random send receive ≡ ok c
      → IsBuilt hkdf random ciphers typ session_key aad send receive c
  built_from-IsBuilt random send receive {c} e = elim (Result-cases (key_for random send)) [
    | inr (err, f) ↦ absurd (cc (rw f at e))
    | inl (sk, f) ↦ elim (Result-cases (key_for random receive)) [
      | inr (err, g) ↦ absurd (cc (rw (f, g) at e))
      | inl (rk, g) ↦ elim (Result-cases (codec_at random sk)) [
        | inr (err, h) ↦ absurd (cc (rw (f, g, h) at e))
        | inl (s, h) ↦ elim (Result-cases (codec_at random rk)) [
          | inr (err, k) ↦ absurd (cc (rw (f, g, h, k) at e))
          | inl (r, k) ↦
              let same : assembled send receive s r ≡ c = cc (rw (f, g, h, k) at e) in
              record {
                send_key = sk;
                receive_key = rk;
                send_derived = f;
                receive_derived = g;
                sender = codec_for-ok random sk h ∙ ap (λ d. ok d.send_codec) same;
                receiver = codec_for-ok random rk k ∙ ap (λ d. ok d.receive_codec) same;
                send_way = sym (ap (λ d. d.send_direction) same);
                receive_way = sym (ap (λ d. d.receive_direction) same);
              }
        ]
      ]
    ]
  ]

  module _ (random random' : ℕ → Option (List ℕ)) (sized : IsSized random)
      (sized' : IsSized random') where
    built-IsPaired :
        (send receive : DataDirection) {c s : DataChannel}
        → IsBuilt hkdf random ciphers typ session_key aad send receive c
        → IsBuilt hkdf random' ciphers typ session_key aad receive send s
        → IsPaired c s
    unfolding derive_data_key
    built-IsPaired send receive {c} {s} b d =
        let same : b.send_key ≡ d.receive_key = cc (b.send_derived, d.receive_derived) in
        record {
          matched =
              new_codec-IsMatched ciphers random random' sized sized' typ b.send_key aad b.sender
                (ap (λ k. new_codec random' ciphers typ k aad) same ∙ d.receiver);
          same_direction = d.receive_way ∙ sym b.send_way;
        }

  -- A client's channel and a server's channel of one session open each other's frames.
  pub new_data_channel-IsPaired :
      (random random' : ℕ → Option (List ℕ)) {c s : DataChannel}
      → IsSized random
      → IsSized random'
      → new_data_channel hkdf random ciphers typ session_key aad data_role_client ≡ ok c
      → new_data_channel hkdf random' ciphers typ session_key aad data_role_server ≡ ok s
      → IsPaired c s × IsPaired s c
  unfolding new_data_channel
  new_data_channel-IsPaired random random' sized sized' e f =
      let b = built_from-IsBuilt random client_to_server server_to_client e in
      let d = built_from-IsBuilt random' server_to_client client_to_server f in
      (
        built-IsPaired random random' sized sized' client_to_server server_to_client b d,
        built-IsPaired random' random sized' sized server_to_client client_to_server d b,
      )
