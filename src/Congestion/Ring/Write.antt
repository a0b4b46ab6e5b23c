-- ===== src/Congestion/Ring/Write.antt =====
-- A write through the pointer that `Offset` returned, against the list of elements.
use native.Mathlib.Decide.{dec_le, dec_lt}
use telekit.Common.{
  ℕ, ◌-◌, ◌≤◌, ◌<◌, ◌≡◌, ◌∙◌, ◌++◌, arith, length, set, take, drop, Bool-cases, inl, inr, ap, ap₂,
  sym, set-append_left, set-append_right, take-set_lt, length-set, drop-set_lt, drop-set_le,
  take-set_ge, length-drop,
}
use telekit.Congestion.Ring.{RingBuffer, slot, write_at}
use telekit.Congestion.Ring.Contents.{
  IsValid, contents, round, between, length-round, length-between,
}
use telekit.Congestion.Ring.Push.{contents-between, contents-before, contents-full}
use telekit.Congestion.Ring.Access.{slot_low, slot_high}
use telekit.Congestion.Ring.Pop.{ring_of_contents}

module _ {ℓ} {A : Type ℓ} (r : RingBuffer A) (i : ℕ) (t : A) (v : IsValid r) where
  pub write_at-IsValid : IsValid (write_at r i t)
  unfolding write_at
  write_at-IsValid = ground (arith, length-set r.ring (slot r i) t)

  round-write_at :
      0 < length r.ring
      → r.tail_pos ≤ r.head_pos
      → i < length (round r)
      → round (write_at r i t) ≡ set (round r) i t
  unfolding write_at
  round-write_at p b h = elim (dec_lt i (length (drop r.head_pos r.ring))) [
    | yes q ↦
        let s = slot_low r i (omega (arith, length-drop r.head_pos r.ring)) in
        ap₂ (λ xs ys. xs ++ ys)
          (drop-set_le r.head_pos (slot r i) r.ring t (omega (arith, s))
            ∙ ap (λ k. set (drop r.head_pos r.ring) k t) {y = i} (omega (arith, s)))
          (take-set_ge r.tail_pos (slot r i) r.ring t (omega (arith, s)))
        ∙ sym (set-append_left (drop r.head_pos r.ring) (take r.tail_pos r.ring) i t q)
    | no q ↦
        let s =
          slot_high r i (omega (arith, length-drop r.head_pos r.ring))
            (omega (arith, length-round r v, v.head_in p)) in
        ap₂ (λ xs ys. xs ++ ys)
          (drop-set_lt r.head_pos (slot r i) r.ring t
            (omega (arith, s, length-drop r.head_pos r.ring, length-round r v, v.head_in p)))
          (take-set_lt r.tail_pos (slot r i) r.ring t
              (omega (arith, s, length-drop r.head_pos r.ring, length-round r v, v.head_in p))
            ∙ ap (λ k. set (take r.tail_pos r.ring) k t) {y = i - length (drop r.head_pos r.ring)}
                (omega (arith, s, length-drop r.head_pos r.ring, v.head_in p)))
        ∙ sym (set-append_right (drop r.head_pos r.ring) (take r.tail_pos r.ring) i t (omega arith))
  ]

  between-write_at :
      0 < length r.ring
      → r.head_pos ≤ r.tail_pos
      → i < length (between r)
      → between (write_at r i t) ≡ set (between r) i t
  unfolding write_at
  between-write_at p b h =
      let s = slot_low r i (omega (arith, length-between r v b, v.tail_in p)) in
      ap (λ xs. take (r.tail_pos - r.head_pos) xs)
        (drop-set_le r.head_pos (slot r i) r.ring t (omega (arith, s))
          ∙ ap (λ k. set (drop r.head_pos r.ring) k t) {y = i} (omega (arith, s)))
      ∙ take-set_lt (r.tail_pos - r.head_pos) i (drop r.head_pos r.ring) t
          (omega (arith, length-between r v b))

  -- A write through the pointer of `Offset(i)` replaces element `i` and no other.
  pub contents-write_at : i < length (contents r) → contents (write_at r i t) ≡ set (contents r) i t
  contents-write_at h = elim (Bool-cases r.full) [
    | inl f ↦ rw (contents-full r f) (
        contents-full (write_at r i t) (unfold write_at in f)
        ∙ round-write_at p (omega (arith, v.full_meets f)) (rw (contents-full r f) at h))
    | inr f ↦ elim (dec_le r.head_pos r.tail_pos) [
      | yes b ↦ rw (contents-between r f b) (
          contents-between (write_at r i t) (unfold write_at in f) (unfold write_at in b)
          ∙ between-write_at p b (rw (contents-between r f b) at h))
      | no b ↦
          let b' : r.tail_pos < r.head_pos = omega arith in
          rw (contents-before r b') (
            contents-before (write_at r i t) (unfold write_at in b')
            ∙ round-write_at p (omega arith) (rw (contents-before r b') at h))
    ]
  ]
    where
      p : 0 < length r.ring
      p = ring_of_contents r v (omega arith)
