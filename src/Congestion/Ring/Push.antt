-- ===== src/Congestion/Ring/Push.antt =====
-- `PushBack` and `grow` against the list of elements: nothing is lost and nothing moves.
use telekit.Common.{
  suc, ◌+◌, ◌-◌, ◌*◌, ◌≤◌, ◌<◌, ◌≡◌, ◌∙◌, true, false, List, [], ◌∷◌, ◌++◌, arith, ◌==◌, ◌||◌,
  if◌then◌else◌, length, set, take, drop, replicate, length-append, length-take, length-drop,
  length-replicate, length-set, take-set-suc, drop-set_le, drop-set_lt, take-all, take-append,
  append_assoc, append-nil, refl, Bool-cases, inl, inr, ap, sym, ◌⊎◌,
}
use native.Mathlib.Decide.{dec_le, dec_lt}
use telekit.Congestion.Ring.{RingBuffer, grow, store, push_back}
use telekit.Congestion.Ring.Contents.{IsValid, contents, round, between}

module _ {ℓ} {A : Type ℓ} where
  -- There is a free slot: the slice is not empty and the buffer is not full.
  pub record HasRoom (r : RingBuffer A) : Type 0 where
    pub valid : IsValid r
    pub some_slot : 0 < length r.ring
    pub not_full : r.full ≡ false

  moved-length :
      (r : RingBuffer A)
      → IsValid r
      → length (drop r.head_pos r.ring ++ take r.head_pos r.ring) ≡ length r.ring
  moved-length r v = ground (
    arith,
    length-append (drop r.head_pos r.ring) (take r.head_pos r.ring),
    length-drop r.head_pos r.ring,
    length-take r.head_pos r.ring,
  )

  grow-HasRoom : (z : A) (r : RingBuffer A) → IsValid r → HasRoom (grow z r)
  unfolding grow
  grow-HasRoom z r v = ground (
    arith,
    moved-length r v,
    length-append (drop r.head_pos r.ring ++ take r.head_pos r.ring)
        (replicate ((if length r.ring * 2 == 0 then 1 else length r.ring * 2) - length r.ring) z),
    length-replicate ((if length r.ring * 2 == 0 then 1 else length r.ring * 2) - length r.ring) z,
  )

  pub contents-between :
      (r : RingBuffer A) → r.full ≡ false → r.head_pos ≤ r.tail_pos → contents r ≡ between r
  unfolding contents
  contents-between r f h = ground arith

  pub contents-before : (r : RingBuffer A) → r.tail_pos < r.head_pos → contents r ≡ round r
  unfolding contents
  contents-before r h = ground arith

  pub contents-full : (r : RingBuffer A) → r.full ≡ true → contents r ≡ round r
  unfolding contents
  contents-full r f = rw f

  pub nil_of_length : (xs : List A) → length xs ≡ 0 → xs ≡ []
  nil_of_length [] h = refl
  nil_of_length (x ∷ xs) h = absurd (omega arith)

  contents-bare : (r : RingBuffer A) → IsValid r → length r.ring ≡ 0 → contents r ≡ []
  unfolding contents
  contents-bare r v e = rw (v.bare_full e, v.bare_head e, v.bare_tail e)

  -- What `grow` copies is what a full or a bare buffer holds.
  moved-contents :
      (r : RingBuffer A)
      → IsValid r
      → (r.full || length r.ring == 0) ≡ true
      → drop r.head_pos r.ring ++ take r.head_pos r.ring ≡ contents r
  moved-contents r v g = elim (Bool-cases r.full) [
    | inl f ↦ rw (contents-full r f, v.full_meets f)
    | inr f ↦
        let bare : length r.ring ≡ 0 = ground arith in
        rw (contents-bare r v bare, v.bare_head bare, nil_of_length r.ring bare)
  ]

  contents-grow :
      (z : A) (r : RingBuffer A)
      → IsValid r
      → (r.full || length r.ring == 0) ≡ true
      → contents (grow z r) ≡ contents r
  unfolding grow
  contents-grow z r v g =
      let moved : List A = drop r.head_pos r.ring ++ take r.head_pos r.ring in
      contents-between (grow z r) refl (omega arith)
      ∙ ap (λ n. take n (grow z r).ring) {x = length r.ring - 0} {y = length moved}
          (omega (arith, moved-length r v))
      ∙ take-append moved _
      ∙ moved-contents r v g

  store-IsValid : (r : RingBuffer A) (t : A) → HasRoom r → IsValid (store r t)
  unfolding store
  store-IsValid r t h = ground (arith, length-set r.ring r.tail_pos t)

  -- Below the tail nothing wraps.
  store_after :
      (r : RingBuffer A) (t : A)
      → HasRoom r
      → r.head_pos ≤ r.tail_pos
      → take (suc (r.tail_pos - r.head_pos)) (drop r.head_pos (set r.ring r.tail_pos t))
        ≡ between r ++ t ∷ []
  store_after r t h p = rw (drop-set_le r.head_pos r.tail_pos r.ring t p) (
      take-set-suc (r.tail_pos - r.head_pos) (drop r.head_pos r.ring) t
        (omega (arith, length-drop r.head_pos r.ring)))

  store_before :
      (r : RingBuffer A) (t : A)
      → HasRoom r
      → r.tail_pos < r.head_pos
      → drop r.head_pos (set r.ring r.tail_pos t) ++ take (suc r.tail_pos) (set r.ring r.tail_pos t)
        ≡ round r ++ t ∷ []
  store_before r t h p =
      rw
        (
          drop-set_lt r.head_pos r.tail_pos r.ring t p,
          take-set-suc r.tail_pos r.ring t (omega arith),
        )
        (sym (append_assoc (drop r.head_pos r.ring) (take r.tail_pos r.ring) (t ∷ [])))

  -- The tail does not wrap.
  contents-store_after :
      (r : RingBuffer A) (t : A)
      → HasRoom r
      → r.head_pos ≤ r.tail_pos
      → r.tail_pos + 1 < length r.ring
      → contents (store r t) ≡ contents r ++ t ∷ []
  unfolding store
  contents-store_after r t h p q =
      contents-between (store r t) (ground arith) (ground arith)
      ∙ ap (λ n. take n (drop r.head_pos (set r.ring r.tail_pos t)))
          {x = (store r t).tail_pos - r.head_pos} {y = suc (r.tail_pos - r.head_pos)} (ground arith)
      ∙ store_after r t h p
      ∙ ap (λ xs. xs ++ t ∷ []) (sym (contents-between r h.not_full p))

  pub contents-round :
      (r : RingBuffer A) → (r.full ≡ true) ⊎ (r.tail_pos < r.head_pos) → contents r ≡ round r
  contents-round r (inl f) = contents-full r f
  contents-round r (inr h) = contents-before r h

  -- The tail goes back to the start of the slice.
  contents-store_wrap :
      (r : RingBuffer A) (t : A)
      → HasRoom r
      → r.head_pos ≤ r.tail_pos
      → r.tail_pos + 1 ≡ length r.ring
      → contents (store r t) ≡ contents r ++ t ∷ []
  unfolding store
  contents-store_wrap r t h p q =
      let ring' : List A = set r.ring r.tail_pos t in
      contents-round (store r t) (ground arith)
      ∙ ap (λ n. drop r.head_pos ring' ++ take n ring') {x = (store r t).tail_pos} {y = 0}
          (ground arith)
      ∙ append-nil (drop r.head_pos ring')
      ∙ sym (
          take-all (suc (r.tail_pos - r.head_pos)) (drop r.head_pos ring')
            (omega (arith, length-drop r.head_pos ring', length-set r.ring r.tail_pos t)))
      ∙ store_after r t h p
      ∙ ap (λ xs. xs ++ t ∷ []) (sym (contents-between r h.not_full p))

  -- The tail is behind the head.
  contents-store_before :
      (r : RingBuffer A) (t : A)
      → HasRoom r
      → r.tail_pos < r.head_pos
      → contents (store r t) ≡ contents r ++ t ∷ []
  unfolding store
  contents-store_before r t h p =
      let ring' : List A = set r.ring r.tail_pos t in
      contents-round (store r t) (ground arith)
      ∙ ap (λ n. drop r.head_pos ring' ++ take n ring') {x = (store r t).tail_pos}
          {y = suc r.tail_pos} (ground arith)
      ∙ store_before r t h p
      ∙ ap (λ xs. xs ++ t ∷ []) (sym (contents-before r p))

  contents-store :
      (r : RingBuffer A) (t : A) → HasRoom r → contents (store r t) ≡ contents r ++ t ∷ []
  contents-store r t h = elim (dec_le r.head_pos r.tail_pos) [
    | yes p ↦ elim (dec_lt (r.tail_pos + 1) (length r.ring)) [
      | yes q ↦ contents-store_after r t h p q
      | no q ↦ contents-store_wrap r t h p (omega arith)
    ]
    | no p ↦ contents-store_before r t h (omega arith)
  ]

  with_room :
      (z : A) (r : RingBuffer A)
      → IsValid r
      → let g = if r.full || length r.ring == 0 then grow z r else r in
        HasRoom g × (contents g ≡ contents r)
  with_room z r v = elim (Bool-cases (r.full || length r.ring == 0)) [
    | inl e ↦ rw e (grow-HasRoom z r v, contents-grow z r v e)
    | inr e ↦ rw e (ground arith, refl)
  ]

  -- `PushBack` on a well-formed buffer leaves a well-formed buffer that holds the same elements
  -- followed by the new one, whether or not it had to grow.
  pub push_back_lem :
      (z : A) (r : RingBuffer A) (t : A)
      → IsValid r
      → IsValid (push_back z r t) × (contents (push_back z r t) ≡ contents r ++ t ∷ [])
  unfolding push_back
  push_back_lem z r t v =
      let (room, same) = with_room z r v in
      (store-IsValid _ t room, contents-store _ t room ∙ ap (λ xs. xs ++ t ∷ []) same)
