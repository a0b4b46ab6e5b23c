-- ===== src/Peer/DataChannel/Frames.antt =====
-- What one end of a data channel seals, the other end opens.
use telekit.Common.{
  ℕ, ◌+◌, ◌≤◌, ◌<◌, ◌≡◌, ◌⊎◌, refl, ap, ◌∙◌, Bool, true, ◌&&◌, ◌||◌, List, ◌∷◌, ◌==◌, length, arith,
}
use telekit.Common.Bytes.{big_endian, big_endian-injective}
use telekit.Common.Results.{ok}
use telekit.Encryption.{max_uint64}
use telekit.Peer.Codec.{aad_domain_data, build_additional_data}
use telekit.Peer.Codec.Associated.{build_additional_data-injective}
use telekit.Peer.Codec.Packets.{IsMatched, spent, sent_by, encode-sent, decode-sent}
use telekit.Peer.Replay
use telekit.Peer.Replay.{ReplayWindow}
use telekit.Peer.Replay.History.{Tracks}
use telekit.Peer.Replay.Once.{admits, accept-Accepted}
use telekit.Peer.DataChannel.{
  DataChannel, DataDirection, seal_frame, accept_frame, open_frame, data_frame_context,
  direction_byte, client_to_server, server_to_client,
}

-- The receiver `s` opens what `c` seals.
pub record IsPaired (c s : DataChannel) : Type 0 where
  pub matched : IsMatched c.send_codec s.receive_codec
  pub same_direction : s.receive_direction ≡ c.send_direction

-- A frame that may be sent: an application frame, or an empty heartbeat.
abbrev pub is_frame : ℕ → List ℕ → Bool
is_frame t plaintext = t == 1 || (t == 2 && length plaintext == 0)

module _ (c s : DataChannel) (v : IsPaired c s) (t : ℕ) (plaintext : List ℕ)
    (f : is_frame t plaintext ≡ true) (left : c.send_sequence < max_uint64) where
  abbrev pub frame : List ℕ
  frame = t ∷ plaintext

  abbrev pub sequence : ℕ
  sequence = c.send_sequence + 1

  abbrev pub context : List ℕ
  context = data_frame_context c.send_direction sequence

  abbrev pub ciphertext : List ℕ
  ciphertext = sent_by v.matched.kit c.send_codec frame aad_domain_data context

  pub seal-sent : seal_frame c t plaintext ≡ (
    ok (sequence, ciphertext),
    record c { send_sequence = sequence; send_codec = spent v.matched.kit c.send_codec },
  )
  unfolding seal_frame
  seal-sent = ground (
    arith,
    encode-sent c.send_codec s.receive_codec v.matched frame (omega arith) aad_domain_data context,
  )

  accept-sent :
      {w : ReplayWindow}
      → Replay.accept s.receive_window sequence ≡ (w, true)
      → accept_frame s sequence frame ≡ (ok (t, plaintext), record s { receive_window = w })
  unfolding accept_frame
  accept-sent e = ground (arith, e)

  pub open-sent :
      (max : ℕ) {w : ReplayWindow}
      → (max ≡ 0) ⊎ (length plaintext + 1 ≤ max)
      → Replay.accept s.receive_window sequence ≡ (w, true)
      → open_frame s sequence ciphertext max ≡ (ok (t, plaintext), record s { receive_window = w })
  unfolding open_frame
  open-sent max l e =
      rw
        (
          ap (λ d. data_frame_context d sequence) v.same_direction,
          decode-sent c.send_codec s.receive_codec v.matched frame (omega arith) aad_domain_data
              context max (ground (arith, l)),
          open_frame,
        )
        (ground (arith, accept-sent e))

  -- A frame that one end seals is opened at the other end, with its type and its bytes, when its number is
  -- one that the window admits; the receiver then knows that it delivered that number.
  pub open_frame-seal_frame :
      (max : ℕ) (taken : List ℕ)
      → (max ≡ 0) ⊎ (length plaintext + 1 ≤ max)
      → Tracks s.receive_window taken
      → admits s.receive_window taken (c.send_sequence + 1) ≡ true
      → (bytes : List ℕ) × (c' : DataChannel) × (s' : DataChannel) × (seal_frame c t plaintext
          ≡ (ok (c.send_sequence + 1, bytes), c'))
        × (open_frame s (c.send_sequence + 1) bytes max ≡ (ok (t, plaintext), s'))
        × Tracks s'.receive_window ((c.send_sequence + 1) ∷ taken)
  open_frame-seal_frame max taken l k a =
      let w = (Replay.accept s.receive_window sequence).0 in
      let (e, tracked) = accept-Accepted s.receive_window taken k sequence in
      let fresh : (Replay.accept s.receive_window sequence).1 ≡ true = e ∙ a in
      (
        ciphertext,
        record c { send_sequence = sequence; send_codec = spent v.matched.kit c.send_codec },
        record s { receive_window = w },
        seal-sent,
        open-sent max l (ap (λ b. (w, b)) fresh),
        rw fresh at tracked,
      )

direction_byte-injective : (d d' : DataDirection) → direction_byte d ≡ direction_byte d' → d ≡ d'
direction_byte-injective client_to_server client_to_server e = refl
direction_byte-injective client_to_server server_to_client e = cc
direction_byte-injective server_to_client client_to_server e = cc
direction_byte-injective server_to_client server_to_client e = refl

-- The associated data of a frame fix its direction and its number, so that no frame can be shown to the
-- other direction or under another number.
pub frame_aad-injective :
    (aad aad' : List ℕ) (d d' : DataDirection) (n n' : ℕ)
    → length aad ≤ 64
    → length aad' ≤ 64
    → n ≤ max_uint64
    → n' ≤ max_uint64
    → build_additional_data aad aad_domain_data (data_frame_context d n)
      ≡ build_additional_data aad' aad_domain_data (data_frame_context d' n')
    → (aad ≡ aad') × (d ≡ d') × (n ≡ n')
unfolding data_frame_context
frame_aad-injective aad aad' d d' n n' a b l l' e =
    let r =
      build_additional_data-injective aad aad' (direction_byte d ∷ big_endian 8 n)
        (direction_byte d' ∷ big_endian 8 n') aad_domain_data aad_domain_data a b e in
    (
      r.1,
      direction_byte-injective d d' (cc r.2),
      big_endian-injective 8 n n' (omega arith) (omega arith) (cc r.2),
    )
