-- ===== src/Congestion/PacketQueue/Trim.antt =====
-- `RemoveUpTo` against the packet numbers that the queue holds.
use telekit.Common.{
  ℕ, zero, suc, ◌+◌, ◌-◌, ◌≤◌, ◌<◌, ◌≡◌, ◌∙◌, Bool, true, false, not, ◌&&◌, none, some, List, [],
  ◌∷◌, ◌==◌, ltb, if◌then◌else◌, arith, length, refl, ap, sym, ◌⊎◌, inl, inr, Bool-cases,
}
use telekit.Congestion.Ring.{RingBuffer, front, pop_front, len}
use telekit.Congestion.Ring.Contents.{contents, len-eq-length}
use telekit.Congestion.Ring.Contents
use telekit.Congestion.Ring.Pop.{pop_front_lem}
use telekit.Congestion.PacketQueue.{
  EntryWrapper, PacketQueue, blank, get_entry, remove_loop, remove_up_to,
}
use telekit.Congestion.PacketQueue.Slots.{
  slots, some_if, look, look-lt, count_present, Starts, IsValid,
}
use telekit.Congestion.PacketQueue.Sweep.{clearup-Cleared, front_of_contents, front_of_nil}
use telekit.Congestion.PacketQueue.Lookup.{get_entry-eq-look}

module _ {A : Type 0} where
  numbered_of_Starts : (ws : List (EntryWrapper A)) (p : ℕ) → Starts ws p → (0 < p) ⊎ (ws ≡ [])
  numbered_of_Starts [] p s = inr refl
  numbered_of_Starts (w ∷ ws) p s = inl s.1

  numbered_of : (q : PacketQueue A) → IsValid q → (0 < q.first_packet) ⊎ (slots q ≡ [])
  numbered_of q v = numbered_of_Starts (slots q) q.first_packet v.starts

module _ {A : Type 0} (z : A) (n : ℕ) where
  -- What the loop leaves: the packet numbers from `n` on.
  record Trimmed (q q' : PacketQueue A) : Type 0 where
    ring_kept : Contents.IsValid q'.entries
    counted :
        q.number_of_present_entries ≡ count_present (slots q)
        → q'.number_of_present_entries ≡ count_present (slots q')
    numbers :
        (m : ℕ)
        → look (slots q') q'.first_packet m
          ≡ (if ltb m n then none else look (slots q) q.first_packet m)
    numbered : (0 < q'.first_packet) ⊎ (slots q' ≡ [])

  -- The test of the loop, without the emptiness of the ring.
  abbrev goes_on : PacketQueue A → Bool
  goes_on q = not (q.first_packet == 0) && ltb q.first_packet n

  abbrev after_pop : PacketQueue A → EntryWrapper A → RingBuffer (EntryWrapper A) → PacketQueue A
  after_pop q w r = record {
    entries = r;
    number_of_present_entries =
        if w.present then q.number_of_present_entries - 1 else q.number_of_present_entries;
    first_packet = q.first_packet + 1;
  }

  remove_loop-stop :
      (fuel : ℕ) (q : PacketQueue A)
      → (goes_on q ≡ false) ⊎ (front q.entries ≡ none)
      → remove_loop z (suc fuel) n q ≡ q
  unfolding remove_loop
  remove_loop-stop fuel q h = ground arith

  remove_loop-pop :
      (fuel : ℕ) (q : PacketQueue A) {w x : EntryWrapper A} {r : RingBuffer (EntryWrapper A)}
      → goes_on q ≡ true
      → front q.entries ≡ some w
      → pop_front (blank z) q.entries ≡ some (x, r)
      → remove_loop z (suc fuel) n q ≡ remove_loop z fuel n (after_pop q w r)
  unfolding remove_loop
  remove_loop-pop fuel q g e o = ground arith

  Trimmed-stop :
      (q : PacketQueue A)
      → Contents.IsValid q.entries
      → (0 < q.first_packet) ⊎ (slots q ≡ [])
      → (n ≤ q.first_packet) ⊎ (slots q ≡ [])
      → Trimmed q q
  Trimmed-stop q v p (inl h) = record {
    ring_kept = v;
    counted = λ c. c;
    numbers = λ m. ground (arith, look-lt (slots q) q.first_packet m);
    numbered = p;
  }
  Trimmed-stop q v p (inr e) = record {
    ring_kept = v;
    counted = λ c. c;
    numbers = λ m. rw e (ground arith);
    numbered = p;
  }

  Trimmed-pop :
      (q q' : PacketQueue A) (w : EntryWrapper A) (ws : List (EntryWrapper A))
      (r : RingBuffer (EntryWrapper A))
      → slots q ≡ w ∷ ws
      → contents r ≡ ws
      → q.first_packet < n
      → Trimmed (after_pop q w r) q'
      → Trimmed q q'
  Trimmed-pop q q' w ws r e c h t = record {
    ring_kept = t.ring_kept;
    counted = λ d. t.counted (rw c (counts (d ∙ ap count_present e)));
    numbers = λ m. t.numbers m ∙ rw (c, e) (ground arith);
    numbered = t.numbered;
  }
    where
      counts :
          q.number_of_present_entries ≡ count_present (w ∷ ws)
          → (after_pop q w r).number_of_present_entries ≡ count_present ws
      counts d = ground arith

  remove_loop-Trimmed :
      (fuel : ℕ) (q : PacketQueue A) (ws : List (EntryWrapper A))
      → slots q ≡ ws
      → length ws ≤ fuel
      → Contents.IsValid q.entries
      → (0 < q.first_packet) ⊎ (slots q ≡ [])
      → Trimmed q (remove_loop z fuel n q)
  unfolding remove_loop
  remove_loop-Trimmed zero q [] e h v p = Trimmed-stop q v p (inr e)
  remove_loop-Trimmed zero q (w ∷ ws) e h v p = absurd (omega arith)
  remove_loop-Trimmed (suc fuel) q [] e h v p =
      rw (remove_loop-stop fuel q (inr (front_of_nil z q.entries v e))) (Trimmed-stop q v p (inr e))
  remove_loop-Trimmed (suc fuel) q (w ∷ ws) e h v p = elim (Bool-cases (goes_on q)) [
    | inl g ↦
        let (r, popped, valid, rest) = pop_front_lem (blank z) w ws q.entries v e in
        rw (remove_loop-pop fuel q g (front_of_contents z q.entries v e) popped) (
          Trimmed-pop q _ w ws r e rest (ground arith) (
            remove_loop-Trimmed fuel (after_pop q w r) ws rest (omega arith) valid
              (inl (omega arith))))
    | inr g ↦
        rw (remove_loop-stop fuel q (inl g))
          (Trimmed-stop q v p (inl (ground (arith, e, nonempty p))))
  ]
    where
      nonempty : (0 < q.first_packet) ⊎ (slots q ≡ []) → 0 < q.first_packet
      nonempty (inl a) = a
      nonempty (inr a) = absurd (cc (a, e))

  -- `RemoveUpTo` keeps the queue well formed and takes out exactly the entries numbered below `n`.
  -- Its loops end within as many rounds as there are slots.
  pub remove_up_to_lem :
      (q : PacketQueue A)
      → IsValid q
      → let q' = remove_up_to z n q in
        IsValid q' × ((m : ℕ) → get_entry q' m ≡ (if ltb m n then some none else get_entry q m))
  unfolding remove_up_to
  remove_up_to_lem q v =
      let t =
        remove_loop-Trimmed (len q.entries) q (slots q) refl
          (omega (arith, len-eq-length q.entries v.ring_valid)) v.ring_valid (numbered_of q v) in
      let c =
        clearup-Cleared z (remove_loop z (len q.entries) n q) t.ring_kept (t.counted v.counted)
          t.numbered in
      (
        c.0,
        λ m.
            get_entry-eq-look _ m c.0
            ∙ ap some (c.1 m ∙ t.numbers m)
            ∙ some_if (ltb m n) none (look (slots q) q.first_packet m)
            ∙ ap (λ o. if ltb m n then some none else o) (sym (get_entry-eq-look q m v)),
      )
