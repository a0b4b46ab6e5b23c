-- ===== src/Congestion/Ring/Pop.antt =====
-- `PopFront` against the list of elements.
use native.Mathlib.Decide.{dec_lt}
use telekit.Common.{
  suc, ◌-◌, ◌≤◌, ◌<◌, ◌≡◌, ◌∙◌, true, false, List, [], ◌∷◌, ◌++◌, arith, ◌⊎◌, length, get_elem?,
  set, take, drop, refl, Bool-cases, inl, inr, ap, ap₂, sym, none, some, drop-cons, get_elem?-lt,
  take-suc_cons, drop-all, length-set, drop-set_lt, take-set_ge,
}
use telekit.Congestion.Ring.{RingBuffer, pop_front, empty, advance}
use telekit.Congestion.Ring.Contents.{
  IsValid, contents, empty-false, empty-true, length-round, length-between,
}
use telekit.Congestion.Ring.Push.{contents-between, contents-before, contents-round}

module _ {ℓ} {A : Type ℓ} where
  -- The buffer that `PopFront` leaves.
  abbrev popped : A → RingBuffer A → RingBuffer A
  unfolding advance
  popped z r = record r {
    ring = set r.ring r.head_pos z;
    head_pos = advance r r.head_pos;
    full = false;
  }

  popped-IsValid : (z : A) (r : RingBuffer A) → IsValid r → 0 < length r.ring → IsValid (popped z r)
  unfolding advance
  popped-IsValid z r v p = ground (arith, length-set r.ring r.head_pos z)

  -- Elements from the head to the tail, with no wrap.
  contents-popped_between :
      (z : A) (r : RingBuffer A) {x : A}
      → IsValid r
      → 0 < length r.ring
      → r.full ≡ false
      → r.head_pos < r.tail_pos
      → get_elem? r.ring r.head_pos ≡ some x
      → contents r ≡ x ∷ contents (popped z r)
  unfolding advance
  contents-popped_between z r {x} v p f h e =
      contents-between r f (omega arith)
      ∙ ap (λ xs. take (r.tail_pos - r.head_pos) xs) (drop-cons r.head_pos r.ring e)
      ∙ take-suc_cons (r.tail_pos - r.head_pos) x (drop (suc r.head_pos) r.ring) (omega arith)
      ∙ ap (λ xs. x ∷ xs) (sym after)
    where
      after :
          contents (popped z r) ≡ take (r.tail_pos - r.head_pos - 1) (drop (suc r.head_pos) r.ring)
      after =
          contents-between (popped z r) refl (ground arith)
          ∙ ap (λ k. take (r.tail_pos - k) (drop k (set r.ring r.head_pos z)))
              {x = (popped z r).head_pos} {y = suc r.head_pos} (ground arith)
          ∙ ap (λ xs. take (r.tail_pos - suc r.head_pos) xs)
              (drop-set_lt (suc r.head_pos) r.head_pos r.ring z (omega arith))
          ∙ ap (λ k. take k (drop (suc r.head_pos) r.ring)) {y = r.tail_pos - r.head_pos - 1}
              (omega arith)

  contents-popped_round :
      (z : A) (r : RingBuffer A) {x : A}
      → IsValid r
      → 0 < length r.ring
      → (r.full ≡ true) ⊎ (r.tail_pos < r.head_pos)
      → get_elem? r.ring r.head_pos ≡ some x
      → contents r ≡ x ∷ contents (popped z r)
  unfolding advance
  contents-popped_round z r {x} v p h e =
      contents-round r h
      ∙ ap (λ xs. xs ++ take r.tail_pos r.ring) (drop-cons r.head_pos r.ring e)
      ∙ ap (λ xs. x ∷ xs)
          (sym (elim (dec_lt (suc r.head_pos) (length r.ring)) [
            | yes q ↦ straight q
            | no q ↦ wrapped (omega arith)
          ]))
    where
      behind : r.tail_pos ≤ r.head_pos
      behind = ground arith

      tail_kept : take r.tail_pos (set r.ring r.head_pos z) ≡ take r.tail_pos r.ring
      tail_kept = take-set_ge r.tail_pos r.head_pos r.ring z behind

      straight :
          suc r.head_pos < length r.ring
          → contents (popped z r) ≡ drop (suc r.head_pos) r.ring ++ take r.tail_pos r.ring
      straight q =
          contents-before (popped z r) (ground (arith, behind))
          ∙ ap (λ k. drop k (set r.ring r.head_pos z) ++ take r.tail_pos (set r.ring r.head_pos z))
              {x = (popped z r).head_pos} {y = suc r.head_pos} (ground arith)
          ∙ ap₂ (λ xs ys. xs ++ ys) (drop-set_lt (suc r.head_pos) r.head_pos r.ring z (omega arith))
              tail_kept

      wrapped :
          suc r.head_pos ≡ length r.ring
          → contents (popped z r) ≡ drop (suc r.head_pos) r.ring ++ take r.tail_pos r.ring
      wrapped q =
          contents-between (popped z r) refl (ground arith)
          ∙ ap (λ k. take (r.tail_pos - k) (drop k (set r.ring r.head_pos z)))
              {x = (popped z r).head_pos} {y = 0} (ground arith)
          ∙ ap (λ k. take k (set r.ring r.head_pos z)) {x = r.tail_pos - 0} {y = r.tail_pos}
              (omega arith)
          ∙ tail_kept
          ∙ ap (λ xs. xs ++ take r.tail_pos r.ring)
              (sym (drop-all (suc r.head_pos) r.ring (omega arith)))

  contents-popped :
      (z : A) (r : RingBuffer A) {x : A}
      → IsValid r
      → 0 < length r.ring
      → empty r ≡ false
      → get_elem? r.ring r.head_pos ≡ some x
      → contents r ≡ x ∷ contents (popped z r)
  unfolding empty
  contents-popped z r v p n e = elim (Bool-cases r.full) [
    | inl f ↦ contents-popped_round z r v p (inl f) e
    | inr f ↦ elim (dec_lt r.head_pos r.tail_pos) [
      | yes h ↦ contents-popped_between z r v p f h e
      | no h ↦ contents-popped_round z r v p (inr (ground arith)) e
    ]
  ]

  pub ring_of_contents :
      (r : RingBuffer A) → IsValid r → 0 < length (contents r) → 0 < length r.ring
  unfolding contents
  ring_of_contents r v h = ground (arith, length-round r v, length-between r v)

  pop_front-popped :
      (z : A) (r : RingBuffer A) {x : A}
      → empty r ≡ false
      → get_elem? r.ring r.head_pos ≡ some x
      → pop_front z r ≡ some (x, popped z r)
  unfolding pop_front
  pop_front-popped z r n e = rw (n, e)

  -- `PopFront` on a well-formed buffer that holds elements returns the first and leaves a
  -- well-formed buffer with the rest.
  pub pop_front_lem :
      (z x : A) (xs : List A) (r : RingBuffer A)
      → IsValid r
      → contents r ≡ x ∷ xs
      → (r' : RingBuffer A) × (pop_front z r ≡ some (x, r')) × IsValid r' × (contents r' ≡ xs)
  pop_front_lem z x xs r v e =
      let some_len : 0 < length (contents r) = rw e (omega arith) in
      let p = ring_of_contents r v some_len in
      let n = empty-false r v some_len in
      let (y, at) = get_elem?-lt r.ring r.head_pos (v.head_in p) in
      let c = contents-popped z r v p n at in
      (
        popped z r,
        pop_front-popped z r n at ∙ ap (λ w. some (w, popped z r)) (cc c),
        popped-IsValid z r v p,
        cc c,
      )

  -- `PopFront` panics exactly on an empty buffer.
  pub pop_front-empty :
      (z : A) (r : RingBuffer A) → IsValid r → contents r ≡ [] → pop_front z r ≡ none
  unfolding pop_front
  pop_front-empty z r v e = rw (empty-true r v (rw e))
