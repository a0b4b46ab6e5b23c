-- ===== src/Congestion/Ring/Contents.antt =====
-- The elements that a ring buffer holds, oldest first, and when its fields are well formed.
use telekit.Common.{
  ℕ, ◌+◌, ◌-◌, ◌≤◌, ◌<◌, ◌≡◌, true, false, List, [], ◌++◌, arith, leb, if◌then◌else◌, length, take,
  drop, length-append, length-take, length-drop, length-replicate, refl,
}
use telekit.Congestion.Ring.{RingBuffer, init, len, empty, clear}

module _ {ℓ} {A : Type ℓ} where
  -- Positions are in range, or the slice is empty; `full` is set only where they meet.
  pub record IsValid (r : RingBuffer A) : Type 0 where
    pub head_in : 0 < length r.ring → r.head_pos < length r.ring
    pub tail_in : 0 < length r.ring → r.tail_pos < length r.ring
    pub bare_head : length r.ring ≡ 0 → r.head_pos ≡ 0
    pub bare_tail : length r.ring ≡ 0 → r.tail_pos ≡ 0
    pub bare_full : length r.ring ≡ 0 → r.full ≡ false
    pub full_meets : r.full ≡ true → r.head_pos ≡ r.tail_pos

  -- From the head to the end of the slice, then from its start to the tail.
  abbrev pub round : RingBuffer A → List A
  round r = drop r.head_pos r.ring ++ take r.tail_pos r.ring

  abbrev pub between : RingBuffer A → List A
  between r = take (r.tail_pos - r.head_pos) (drop r.head_pos r.ring)

  unfoldable pub contents : RingBuffer A → List A
  contents r = if r.full then round r else if leb r.head_pos r.tail_pos then between r else round r

  pub length-round :
      (r : RingBuffer A) → IsValid r → length (round r) ≡ length r.ring - r.head_pos + r.tail_pos
  length-round r v = ground (
    arith,
    length-append (drop r.head_pos r.ring) (take r.tail_pos r.ring),
    length-drop r.head_pos r.ring,
    length-take r.tail_pos r.ring,
  )

  pub length-between :
      (r : RingBuffer A)
      → IsValid r
      → r.head_pos ≤ r.tail_pos
      → length (between r) ≡ r.tail_pos - r.head_pos
  length-between r v h = ground (
    arith,
    length-take (r.tail_pos - r.head_pos) (drop r.head_pos r.ring),
    length-drop r.head_pos r.ring,
  )

  -- `Len` of a well-formed buffer is the number of elements it holds.
  pub len-eq-length : (r : RingBuffer A) → IsValid r → len r ≡ length (contents r)
  unfolding len contents
  len-eq-length r v = ground (arith, length-round r v, length-between r v)

  pub empty-false : (r : RingBuffer A) → IsValid r → 0 < length (contents r) → empty r ≡ false
  unfolding empty contents
  empty-false r v h = ground (arith, length-round r v, length-between r v)

  pub empty-true : (r : RingBuffer A) → IsValid r → length (contents r) ≡ 0 → empty r ≡ true
  unfolding empty contents
  empty-true r v h = ground (arith, length-round r v, length-between r v)

  -- A buffer that `Init` sized from the zero value of its struct is well formed and empty.
  pub init-IsValid :
      (z : A) (size : ℕ)
      → let r = init z (record { ring = []; head_pos = 0; tail_pos = 0; full = false }) size in
        IsValid r × (contents r ≡ [])
  unfolding init contents
  init-IsValid z size = (ground arith, refl)

  -- `Clear` leaves a well-formed empty buffer of the same capacity.
  pub clear-IsValid :
      (z : A) (r : RingBuffer A)
      → IsValid (clear z r)
        × (contents (clear z r) ≡ [])
        × (length (clear z r).ring ≡ length r.ring)
  unfolding clear contents
  clear-IsValid z r = (ground arith, refl, length-replicate (length r.ring) z)
