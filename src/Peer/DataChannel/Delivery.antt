-- ===== src/Peer/DataChannel/Delivery.antt =====
-- The frames that a channel delivers, whatever arrives.
use telekit.Common.{
  ℕ, Bool, true, false, not, ◌&&◌, List, [], ◌∷◌, ◌==◌, if◌then◌else◌, length, arith, Bool-cases,
  inl, inr,
}
use telekit.Common.Results.{Result, ok, error, Result-cases}
use telekit.Peer.Codec.{decode_with_decryption, aad_domain_data}
use telekit.Peer.Replay
use telekit.Peer.Replay.{ReplayWindow}
use telekit.Peer.Replay.History.{Tracks}
use telekit.Peer.Replay.Once.{Accepted, accept-Accepted, Distinct}
use telekit.Peer.DataChannel.{
  DataChannel, ChannelError, frame_replayed, is_frame_type, accept_frame, open_frame,
  data_frame_context,
}

-- The sequence numbers of the delivered frames, the newest first, with this one when it was delivered.
abbrev pub received : Result ChannelError (ℕ × List ℕ) → ℕ → List ℕ → List ℕ
received (ok _) sequence taken = sequence ∷ taken
received (error _) sequence taken = taken

-- The channel knows what it delivered, and delivered nothing twice.
pub record IsFresh (c : DataChannel) (taken : List ℕ) : Type 0 where
  pub tracked : Tracks c.receive_window taken
  pub distinct : Distinct taken

abbrev Kept : ℕ → List ℕ → Result ChannelError (ℕ × List ℕ) × DataChannel → Type 0
Kept sequence taken (r, c) = IsFresh c (received r sequence taken)

module _ (c : DataChannel) (taken : List ℕ) (v : IsFresh c taken) (sequence : ℕ) where
  -- The end of `OpenFrame`, on what `Accept` returned.
  abbrev decided : ℕ → List ℕ → ReplayWindow × Bool → Result ChannelError (ℕ × List ℕ) × DataChannel
  decided t plaintext (w, fresh) =
      let c' : DataChannel = record c { receive_window = w } in
      if fresh then (ok (t, plaintext), c') else (error frame_replayed, c')

  decided-Kept :
      (t : ℕ) (plaintext : List ℕ) (o : ReplayWindow × Bool)
      → Accepted c.receive_window taken sequence o
      → Kept sequence taken (decided t plaintext o)
  decided-Kept t plaintext (w, true) (e, k) = record {
    tracked = k;
    distinct = (ground arith, ground arith, v.distinct);
  }
  decided-Kept t plaintext (w, false) (e, k) = record { tracked = k; distinct = v.distinct }

  accept_frame-Kept : (frame : List ℕ) → Kept sequence taken (accept_frame c sequence frame)
  unfolding accept_frame
  accept_frame-Kept [] = v
  accept_frame-Kept (t ∷ plaintext) = elim (Bool-cases (not (is_frame_type t))) [
    | inl e ↦ simp e v
    | inr e ↦ simp e (elim (Bool-cases (t == 2 && not (length plaintext == 0))) [
      | inl f ↦ simp f v
      | inr f ↦ simp f (
          decided-Kept t plaintext (Replay.accept c.receive_window sequence)
            (accept-Accepted c.receive_window taken v.tracked sequence))
    ])
  ]

  -- `OpenFrame` delivers a frame only under a sequence number that it delivered none under before, and a
  -- frame that it refuses uses up no number.
  pub open_frame-IsFresh :
      (ciphertext : List ℕ) (max : ℕ)
      → let (r, c') = open_frame c sequence ciphertext max in IsFresh c' (received r sequence taken)
  unfolding open_frame
  open_frame-IsFresh ciphertext max = elim (Bool-cases (sequence == 0)) [
    | inl z ↦ rw z v
    | inr z ↦
        rw z
          (elim (Result-cases (
            decode_with_decryption c.receive_codec ciphertext aad_domain_data
              (data_frame_context c.receive_direction sequence) max)) [
                | inl (frame, e) ↦ rw (e, open_frame) (accept_frame-Kept frame)
                | inr (err, e) ↦ rw (e, open_frame) v
              ])
  ]

-- A frame as it arrives: the number it claims, its bytes, and the limit on its size.
pub record Arrival : Type 0 where
  pub sequence : ℕ
  pub ciphertext : List ℕ
  pub max_decoded_size : ℕ

-- Arrivals in turn, with the numbers of the frames that were delivered.
unfoldable pub deliver_all : DataChannel → List ℕ → List Arrival → DataChannel × List ℕ
deliver_all c taken [] = (c, taken)
deliver_all c taken (a ∷ arrivals) =
    let (r, c') = open_frame c a.sequence a.ciphertext a.max_decoded_size in
    deliver_all c' (received r a.sequence taken) arrivals

-- Whatever arrives at a channel, forged, repeated or out of order, no two frames are delivered under one
-- sequence number, and none under 0.
pub delivers_once :
    (arrivals : List Arrival) (c : DataChannel) (taken : List ℕ)
    → IsFresh c taken
    → let (c', delivered) = deliver_all c taken arrivals in IsFresh c' delivered
unfolding deliver_all
delivers_once [] c taken v = v
delivers_once (a ∷ arrivals) c taken v =
    delivers_once arrivals (open_frame c a.sequence a.ciphertext a.max_decoded_size).1 _
      (open_frame-IsFresh c taken v a.sequence a.ciphertext a.max_decoded_size)
