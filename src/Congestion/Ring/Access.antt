-- ===== src/Congestion/Ring/Access.antt =====
-- `PopFront`, `Offset`, `Front` and `Back` against the list of elements.
use native.Mathlib.Decide.{dec_le, dec_lt}
use native.Mathlib.Nat.{mod-eq_of_lt, mod-eq-sub-mod}
use telekit.Common.{
  ℕ, ◌+◌, ◌-◌, ◌≤◌, ◌<◌, ◌≡◌, ◌∙◌, Bool, true, false, arith, leb, ◌||◌, ◌⊎◌, if◌then◌else◌, length,
  get_elem?, take, drop, Bool-cases, inl, inr, ap, sym, Option, none, get_elem?-append_left,
  get_elem?-append_right, get_elem?-drop, get_elem?-take, length-drop, get_elem?-ge,
}
use telekit.Congestion.Ring.{RingBuffer, empty, offset, slot, front, back}
use telekit.Congestion.Ring.Contents.{
  IsValid, contents, round, between, len-eq-length, empty-false, empty-true, length-round,
  length-between,
}
use telekit.Congestion.Ring.Push.{contents-between, contents-before, contents-full}
use telekit.Congestion.Ring.Pop.{ring_of_contents}

not_leb : {n i : ℕ} → i < n → leb n i ≡ false
not_leb h = ground arith

le_test : {n i : ℕ} → ¬ (i < n) → leb n i ≡ true
le_test h = ground arith

past {ℓ} :
    {A : Type ℓ} {y : Option A} (b : Bool) (x : Option A)
    → none ≡ y
    → (if b || true then none else x) ≡ y
past true x h = h
past false x h = h

module _ {ℓ} {A : Type ℓ} where
  pub slot_low :
      (r : RingBuffer A) (i : ℕ) → r.head_pos + i < length r.ring → slot r i ≡ r.head_pos + i
  unfolding slot
  slot_low r i h = mod-eq_of_lt h

  pub slot_high :
      (r : RingBuffer A) (i : ℕ)
      → length r.ring ≤ r.head_pos + i
      → r.head_pos + i < length r.ring + length r.ring
      → slot r i ≡ r.head_pos + i - length r.ring
  unfolding slot
  slot_high r i h k =
      mod-eq-sub-mod {n = r.head_pos + i} {m = length r.ring} h
      ∙ mod-eq_of_lt {n = r.head_pos + i - length r.ring} {m = length r.ring} (omega arith)

  get_elem?-round :
      (r : RingBuffer A) (i : ℕ)
      → IsValid r
      → 0 < length r.ring
      → r.tail_pos ≤ r.head_pos
      → i < length (round r)
      → get_elem? (round r) i ≡ get_elem? r.ring (slot r i)
  get_elem?-round r i v p b h = elim (dec_lt i (length (drop r.head_pos r.ring))) [
    | yes q ↦
        get_elem?-append_left (drop r.head_pos r.ring) (take r.tail_pos r.ring) i q
        ∙ get_elem?-drop r.head_pos i r.ring
        ∙ ap (λ k. get_elem? r.ring k)
            (sym (slot_low r i (omega (arith, length-drop r.head_pos r.ring))))
    | no q ↦
        get_elem?-append_right (drop r.head_pos r.ring) (take r.tail_pos r.ring) i (omega arith)
        ∙ get_elem?-take r.tail_pos (i - length (drop r.head_pos r.ring)) r.ring
            (omega (arith, length-drop r.head_pos r.ring, length-round r v, v.head_in p))
        ∙ ap (λ k. get_elem? r.ring k)
            (omega (
              arith,
              length-drop r.head_pos r.ring,
              length-round r v,
              v.head_in p,
              slot_high r i (omega (arith, length-drop r.head_pos r.ring))
                  (omega (arith, length-round r v, v.head_in p)),
            ))
  ]

  get_elem?-between :
      (r : RingBuffer A) (i : ℕ)
      → IsValid r
      → 0 < length r.ring
      → r.head_pos ≤ r.tail_pos
      → i < length (between r)
      → get_elem? (between r) i ≡ get_elem? r.ring (slot r i)
  get_elem?-between r i v p b h =
      get_elem?-take (r.tail_pos - r.head_pos) i (drop r.head_pos r.ring)
        (omega (arith, length-between r v b))
      ∙ get_elem?-drop r.head_pos i r.ring
      ∙ ap (λ k. get_elem? r.ring k)
          (sym (slot_low r i (omega (arith, length-between r v b, v.tail_in p))))

  -- Which of the two shapes the elements have.
  pub contents-cases :
      (r : RingBuffer A)
      → IsValid r
      → ((contents r ≡ round r) × (r.tail_pos ≤ r.head_pos))
        ⊎ ((contents r ≡ between r) × (r.head_pos ≤ r.tail_pos))
  contents-cases r v = elim (Bool-cases r.full) [
    | inl f ↦ inl (contents-full r f, omega (arith, v.full_meets f))
    | inr f ↦ elim (dec_le r.head_pos r.tail_pos) [
      | yes h ↦ inr (contents-between r f h, h)
      | no h ↦ inl (contents-before r (omega arith), omega arith)
    ]
  ]

  get_elem?-contents :
      (r : RingBuffer A) (i : ℕ)
      → IsValid r
      → i < length (contents r)
      → get_elem? (contents r) i ≡ get_elem? r.ring (slot r i)
  get_elem?-contents r i v h =
      let p = ring_of_contents r v (omega arith) in
      elim (contents-cases r v) [
        | inl (e, b) ↦ rw e (get_elem?-round r i v p b (rw e at h))
        | inr (e, b) ↦ rw e (get_elem?-between r i v p b (rw e at h))
      ]

  -- `Offset` of a well-formed buffer reads the element at that place, and panics exactly past the
  -- last one.
  pub offset-eq-get_elem? :
      (r : RingBuffer A) (i : ℕ) → IsValid r → offset r i ≡ get_elem? (contents r) i
  unfolding offset
  offset-eq-get_elem? r i v = elim (dec_lt i (length (contents r))) [
    | yes h ↦
        rw (empty-false r v (omega arith), len-eq-length r v, not_leb h)
          (sym (get_elem?-contents r i v h))
    | no h ↦
        rw (len-eq-length r v, le_test h)
          (past (empty r) _ (sym (get_elem?-ge (contents r) i (omega arith))))
  ]

  -- `Front` reads the oldest element, and panics exactly on an empty buffer.
  pub front-eq-get_elem? : (r : RingBuffer A) → IsValid r → front r ≡ get_elem? (contents r) 0
  unfolding front
  front-eq-get_elem? r v = elim (dec_lt 0 (length (contents r))) [
    | yes h ↦
        let p = ring_of_contents r v h in
        rw (empty-false r v h) (
          sym (
            get_elem?-contents r 0 v h
            ∙ ap (λ k. get_elem? r.ring k)
                (slot_low r 0 (omega (arith, v.head_in p)) ∙ omega arith)))
    | no h ↦ rw (empty-true r v (omega arith)) (sym (get_elem?-ge (contents r) 0 (omega arith)))
  ]

  -- `Back` reads the newest element, and panics exactly on an empty buffer.
  pub back-eq-get_elem? :
      (r : RingBuffer A) → IsValid r → back r ≡ get_elem? (contents r) (length (contents r) - 1)
  unfolding back
  back-eq-get_elem? r v = elim (dec_lt 0 (length (contents r))) [
    | yes h ↦ rw (empty-false r v h, len-eq-length r v) (offset-eq-get_elem? r _ v)
    | no h ↦ rw (empty-true r v (omega arith)) (sym (get_elem?-ge (contents r) _ (omega arith)))
  ]
