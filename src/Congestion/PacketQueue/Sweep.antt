-- ===== src/Congestion/PacketQueue/Sweep.antt =====
-- `clearup` and `RemoveUpTo`: popping slots from the front of the queue.
use telekit.Common.{
  ℕ, zero, suc, ◌+◌, ◌≤◌, ◌<◌, ◌≡◌, ◌∙◌, true, false, none, some, List, [], ◌∷◌, arith, length,
  get_elem?, refl, ap, sym, ◌⊎◌, inl, inr, Bool-cases,
}
use telekit.Congestion.Ring.{RingBuffer, front, pop_front, len}
use telekit.Congestion.Ring.Contents
use telekit.Congestion.Ring.Contents.{contents, empty-true, empty-false, len-eq-length}
use telekit.Congestion.Ring.Pop.{pop_front_lem}
use telekit.Congestion.Ring.Access.{front-eq-get_elem?}
use telekit.Congestion.PacketQueue.{EntryWrapper, PacketQueue, blank, clearup_loop, clearup}
use telekit.Congestion.PacketQueue.Slots.{slots, look, look-lt, count_present, IsValid}

-- What `clearup` promises of the queue that it leaves.
abbrev pub Cleared : {A : Type 0} → PacketQueue A → PacketQueue A → Type 0
Cleared q q' =
    IsValid q' × ((m : ℕ) → look (slots q') q'.first_packet m ≡ look (slots q) q.first_packet m)

module _ {A : Type 0} (z : A) where
  -- What a loop over the front keeps, and why it stops.
  record Swept (q q' : PacketQueue A) : Type 0 where
    ring_kept : Contents.IsValid q'.entries
    counted :
        q.number_of_present_entries ≡ count_present (slots q)
        → q'.number_of_present_entries ≡ count_present (slots q')
    numbers : (m : ℕ) → look (slots q') q'.first_packet m ≡ look (slots q) q.first_packet m
    stopped :
        (slots q' ≡ [])
        ⊎ ((w : EntryWrapper A) × (ws : List (EntryWrapper A)) × (slots q' ≡ w ∷ ws)
            × (w.present ≡ true))
    first_kept : q.first_packet ≤ q'.first_packet

  abbrev after_pop : PacketQueue A → RingBuffer (EntryWrapper A) → PacketQueue A
  after_pop q r = record q { entries = r; first_packet = q.first_packet + 1 }

  clearup_loop-present :
      (fuel : ℕ) (q : PacketQueue A) {w : EntryWrapper A}
      → front q.entries ≡ some w
      → w.present ≡ true
      → clearup_loop z (suc fuel) q ≡ q
  unfolding clearup_loop
  clearup_loop-present fuel q e p = ground arith

  clearup_loop-none :
      (fuel : ℕ) (q : PacketQueue A) → front q.entries ≡ none → clearup_loop z (suc fuel) q ≡ q
  unfolding clearup_loop
  clearup_loop-none fuel q e = ground arith

  clearup_loop-blank :
      (fuel : ℕ) (q : PacketQueue A) {w x : EntryWrapper A} {r : RingBuffer (EntryWrapper A)}
      → front q.entries ≡ some w
      → w.present ≡ false
      → pop_front (blank z) q.entries ≡ some (x, r)
      → clearup_loop z (suc fuel) q ≡ clearup_loop z fuel (after_pop q r)
  unfolding clearup_loop
  clearup_loop-blank fuel q e p o = ground arith

  pub front_of_contents :
      (r : RingBuffer (EntryWrapper A)) {w : EntryWrapper A} {ws : List (EntryWrapper A)}
      → Contents.IsValid r
      → contents r ≡ w ∷ ws
      → front r ≡ some w
  front_of_contents r v e = front-eq-get_elem? r v ∙ ap (λ xs. get_elem? xs 0) e

  pub front_of_nil :
      (r : RingBuffer (EntryWrapper A)) → Contents.IsValid r → contents r ≡ [] → front r ≡ none
  front_of_nil r v e = front-eq-get_elem? r v ∙ ap (λ xs. get_elem? xs 0) e

  look-blank :
      (w : EntryWrapper A) (ws : List (EntryWrapper A)) (p m : ℕ)
      → w.present ≡ false
      → look ws (p + 1) m ≡ look (w ∷ ws) p m
  look-blank w ws p m h = ground (arith, look-lt ws (p + 1) m)

  Swept-refl :
      (q : PacketQueue A)
      → Contents.IsValid q.entries
      → (slots q ≡ [])
        ⊎ ((w : EntryWrapper A) × (ws : List (EntryWrapper A)) × (slots q ≡ w ∷ ws)
            × (w.present ≡ true))
      → Swept q q
  Swept-refl q v s = record {
    ring_kept = v;
    counted = λ h. h;
    numbers = λ m. refl;
    stopped = s;
    first_kept = omega arith;
  }

  Swept-pop :
      (q q' : PacketQueue A) (w : EntryWrapper A) (ws : List (EntryWrapper A))
      (r : RingBuffer (EntryWrapper A))
      → slots q ≡ w ∷ ws
      → w.present ≡ false
      → contents r ≡ ws
      → Swept (after_pop q r) q'
      → Swept q q'
  Swept-pop q q' w ws r e p c s = record {
    ring_kept = s.ring_kept;
    counted = λ h. s.counted (h ∙ ap count_present e ∙ (rw (p, c) (omega arith)));
    numbers = λ m. s.numbers m ∙ (rw (c, e) (look-blank w ws q.first_packet m p));
    stopped = s.stopped;
    first_kept = omega (arith, s.first_kept);
  }

  clearup_loop-Swept :
      (fuel : ℕ) (q : PacketQueue A) (ws : List (EntryWrapper A))
      → slots q ≡ ws
      → length ws ≤ fuel
      → Contents.IsValid q.entries
      → Swept q (clearup_loop z fuel q)
  unfolding clearup_loop
  clearup_loop-Swept zero q [] e h v = Swept-refl q v (inl e)
  clearup_loop-Swept zero q (w ∷ ws) e h v = absurd (omega arith)
  clearup_loop-Swept (suc fuel) q [] e h v =
      rw (clearup_loop-none fuel q (front_of_nil q.entries v e)) (Swept-refl q v (inl e))
  clearup_loop-Swept (suc fuel) q (w ∷ ws) e h v = elim (Bool-cases w.present) [
    | inl p ↦
        rw (clearup_loop-present fuel q (front_of_contents q.entries v e) p)
          (Swept-refl q v (inr (w, ws, e, p)))
    | inr p ↦
        let (r, popped, valid, rest) = pop_front_lem (blank z) w ws q.entries v e in
        rw (clearup_loop-blank fuel q (front_of_contents q.entries v e) p popped) (
          Swept-pop q _ w ws r e p rest
            (clearup_loop-Swept fuel (after_pop q r) ws rest (omega arith) valid))
  ]

  swept : PacketQueue A → PacketQueue A
  swept q = clearup_loop z (len q.entries) q

  swept-Swept : (q : PacketQueue A) → Contents.IsValid q.entries → Swept q (swept q)
  unfolding swept
  swept-Swept q v =
      clearup_loop-Swept (len q.entries) q (slots q) refl (omega (arith, len-eq-length q.entries v))
        v

  clearup-nil :
      (q : PacketQueue A)
      → Contents.IsValid (swept q).entries
      → slots (swept q) ≡ []
      → clearup z q ≡ record (swept q) { first_packet = 0 }
  unfolding clearup swept
  clearup-nil q v e = rw (empty-true (swept q).entries v (ap length e))

  clearup-cons :
      (q : PacketQueue A) {w : EntryWrapper A} {ws : List (EntryWrapper A)}
      → Contents.IsValid (swept q).entries
      → slots (swept q) ≡ w ∷ ws
      → clearup z q ≡ swept q
  unfolding clearup swept
  clearup-cons q v e = rw (empty-false (swept q).entries v (rw e (omega arith)))

  look-head :
      (w : EntryWrapper A) (ws : List (EntryWrapper A)) (p : ℕ)
      → w.present ≡ true
      → look (w ∷ ws) p p ≡ some w.entry
  look-head w ws p h = ground arith

  swept_pos :
      (q : PacketQueue A) {w : EntryWrapper A} {ws : List (EntryWrapper A)}
      → Swept q (swept q)
      → (0 < q.first_packet) ⊎ (slots q ≡ [])
      → slots (swept q) ≡ w ∷ ws
      → w.present ≡ true
      → 0 < (swept q).first_packet
  swept_pos q s (inl h) e t = omega (arith, s.first_kept)
  swept_pos q {w} {ws} s (inr h) e t =
      let p = (swept q).first_packet in
      let found = ap (λ xs. look xs p p) e ∙ look-head w ws p t in
      let missing = s.numbers p ∙ ap (λ xs. look xs q.first_packet p) h in
      absurd (cc (found, missing))

  -- `clearup` makes the first slot a present one, or marks the queue as having none, and every
  -- packet number keeps its entry. Its loop ends within as many rounds as there are slots.
  pub clearup-Cleared :
      (q : PacketQueue A)
      → Contents.IsValid q.entries
      → q.number_of_present_entries ≡ count_present (slots q)
      → (0 < q.first_packet) ⊎ (slots q ≡ [])
      → Cleared q (clearup z q)
  clearup-Cleared q v c p =
      let s = swept-Swept q v in
      elim s.stopped [
        | inl e ↦ rw (clearup-nil q s.ring_kept e) (
          record { ring_valid = s.ring_kept; counted = s.counted c; starts = rw e refl },
          λ m.
              ap (λ ws. look ws 0 m) e
              ∙ sym (ap (λ ws. look ws (swept q).first_packet m) e)
              ∙ s.numbers m,
        )
        | inr (w, ws, e, t) ↦ rw (clearup-cons q s.ring_kept e) (
          record {
            ring_valid = s.ring_kept;
            counted = s.counted c;
            starts = rw e (t, swept_pos q s p e t);
          },
          s.numbers,
        )
      ]
