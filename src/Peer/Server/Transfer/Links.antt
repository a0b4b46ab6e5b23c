-- ===== src/Peer/Server/Transfer/Links.antt =====
-- Two ends of which the receiver has seen no number that the sender still has to give.
use telekit.Common.{ℕ, ◌+◌, ◌≤◌, ◌<◌, ◌≡◌, ◌≢◌, refl, subst, true, List, ◌∷◌, length, arith, inr}
use telekit.Common.Results.{ok}
use telekit.Encryption
use telekit.Encryption.{max_uint64, encrypt, Kit}
use telekit.Encryption.Kits.{used}
use telekit.Common.{some}
use telekit.Peer.Codec.{encode_with_encryption}
use telekit.Peer.Codec.Associated.{IsPrepared}
use telekit.Peer.Codec.Packets.{spent, sealed-some}
use telekit.Peer.Replay
use telekit.Peer.Replay.{ReplayWindow, advance}
use telekit.Peer.DataChannel.{DataChannel, seal, seal_frame, open_frame}
use telekit.Peer.DataChannel.Frames.{IsPaired, seal-sent, open-sent, ciphertext}

pub record Linked (c s : DataChannel) : Type 0 where
  pub kit : Kit
  pub other : Kit
  pub sender_kit : c.send_codec.encryption_kit ≡ some kit
  pub receiver_kit : s.receive_codec.encryption_kit ≡ some other
  pub sized : kit.aead.nonce_size ≡ length kit.nonce.prefix + 8
  pub counter : kit.nonce.counter ≤ max_uint64
  pub numbers : c.send_sequence ≤ max_uint64
  pub same_cipher : other.aead ≡ kit.aead
  pub same_data : s.receive_codec.additional_data ≡ c.send_codec.additional_data
  pub sender_prepared : IsPrepared c.send_codec
  pub receiver_prepared : IsPrepared s.receive_codec
  pub same_direction : s.receive_direction ≡ c.send_direction
  pub behind : s.receive_window.highest ≤ c.send_sequence

abbrev Linked-IsPaired :
    (c s : DataChannel) (v : Linked c s) → v.kit.nonce.counter < max_uint64 → IsPaired c s
Linked-IsPaired c s v h = record {
  matched = record {
    kit = v.kit;
    other = v.other;
    sender_kit = v.sender_kit;
    receiver_kit = v.receiver_kit;
    ready = record { sized = v.sized; left = h };
    same_cipher = v.same_cipher;
    same_data = v.same_data;
    sender_prepared = v.sender_prepared;
    receiver_prepared = v.receiver_prepared;
  };
  same_direction = v.same_direction;
}

abbrev Seals : DataChannel → List ℕ → ℕ → List ℕ → DataChannel → Type 0
Seals c plaintext q ct c' = seal c plaintext ≡ (ok (q, ct), c')

-- What was sealed had a number and a nonce left.
seal-left :
    (c : DataChannel) (plaintext : List ℕ) {q : ℕ} {ct : List ℕ} {c' : DataChannel} {kit : Kit}
    → c.send_codec.encryption_kit ≡ some kit
    → seal c plaintext ≡ (ok (q, ct), c')
    → (c.send_sequence ≢ max_uint64) × (kit.nonce.counter ≢ max_uint64)
unfolding seal seal_frame encode_with_encryption encrypt Encryption.next
seal-left c plaintext k e = (λ f. ground (arith, f), λ f. ground (arith, f))

accept-ahead :
    (w : ReplayWindow) (q : ℕ)
    → w.highest < q
    → (w' : ReplayWindow) × (Replay.accept w q ≡ (w', true)) × (w'.highest ≡ q)
unfolding Replay.accept advance
accept-ahead w q h = ((Replay.accept w q).0, ground arith, ground arith)

-- What happened to the receiver `s` when it opened the bytes sealed last.
pub record IsOpened (s c' : DataChannel) (max q : ℕ) (plaintext ct : List ℕ) : Type 0 where
  pub receiver : DataChannel
  pub opens : open_frame s q ct max ≡ (ok (1, plaintext), receiver)
  pub linked : Linked c' receiver
  pub number : q ≤ max_uint64
  pub nonempty : 0 < length ct

abbrev after_seal : Kit → DataChannel → DataChannel
after_seal kit c = record c {
  send_sequence = c.send_sequence + 1;
  send_codec = spent kit c.send_codec;
}

Linked-spent :
    (c s : DataChannel) (w : ReplayWindow) (v : Linked c s)
    → c.send_sequence < max_uint64
    → v.kit.nonce.counter < max_uint64
    → w.highest ≤ c.send_sequence + 1
    → Linked (after_seal v.kit c) (record s { receive_window = w })
Linked-spent c s w v n k h = record {
  kit = used v.kit;
  other = v.other;
  sender_kit = refl;
  receiver_kit = v.receiver_kit;
  sized = v.sized;
  counter = omega arith;
  numbers = omega arith;
  same_cipher = v.same_cipher;
  same_data = v.same_data;
  sender_prepared = record {
    data_prepared = v.sender_prepared.data_prepared;
    header_prepared = v.sender_prepared.header_prepared;
  };
  receiver_prepared = v.receiver_prepared;
  same_direction = v.same_direction;
  behind = h;
}

module _ (c s : DataChannel) (plaintext : List ℕ) (max : ℕ) (v : Linked c s)
    (l : length plaintext + 1 ≤ max) where
  sent-IsOpened :
      (left : c.send_sequence < max_uint64) (k : v.kit.nonce.counter < max_uint64)
      → let p = Linked-IsPaired c s v k in
        IsOpened s
          (after_seal v.kit c)
          max
          (c.send_sequence + 1)
          plaintext
          (ciphertext c s p 1 plaintext refl left)
        × Linked (after_seal v.kit c) s
  sent-IsOpened left k =
      let p = Linked-IsPaired c s v k in
      let (w, fresh, high) =
        accept-ahead s.receive_window (c.send_sequence + 1) (omega (arith, v.behind)) in
      (
        record {
          receiver = record s { receive_window = w };
          opens = open-sent c s p 1 plaintext refl left max (inr l) fresh;
          linked = Linked-spent c s w v left k (omega (arith, high));
          number = omega arith;
          nonempty = sealed-some v.kit (1 ∷ plaintext) _;
        },
        Linked-spent c s s.receive_window v left k (omega (arith, v.behind)),
      )

  -- What the sender seals the receiver opens, and may as well never see.
  pub seal-IsOpened :
      {q : ℕ} {ct : List ℕ} {c' : DataChannel}
      → seal c plaintext ≡ (ok (q, ct), c')
      → IsOpened s c' max q plaintext ct × Linked c' s
  unfolding seal
  seal-IsOpened {q} {ct} {c'} e =
      let (numbers, counters) = seal-left c plaintext v.sender_kit e in
      let left : c.send_sequence < max_uint64 = omega (arith, v.numbers) in
      let k : v.kit.nonce.counter < max_uint64 = omega (arith, v.counter) in
      let p = Linked-IsPaired c s v k in
      let sent = seal-sent c s p 1 plaintext refl left in
      let q-eq : c.send_sequence + 1 ≡ q = cc in
      let ct-eq : ciphertext c s p 1 plaintext refl left ≡ ct = cc in
      let c-eq : after_seal v.kit c ≡ c' = cc in
      subst (λ d. IsOpened s d max q plaintext ct × Linked d s) c-eq
        (subst
          (λ xs. IsOpened s (after_seal v.kit c) max q plaintext xs × Linked (after_seal v.kit c) s)
          ct-eq
          (subst
            (λ n.
              IsOpened s (after_seal v.kit c) max n plaintext
                (ciphertext c s p 1 plaintext refl left)
              × Linked (after_seal v.kit c) s)
            q-eq (sent-IsOpened left k)))
