-- ===== src/Congestion/WindowedFilter/Order.antt =====
-- One call of `Update`: the order of the three estimates and of their times.
use telekit.Common.{ℕ, ◌+◌, ◌≤◌, ◌<◌, ◌^◌, ◌≡◌, inl, inr, false, arith, Bool-cases}
use telekit.Congestion.WindowedFilter.{
  Sign, WindowedFilter, max_filter, must_reset, reset, insert, expire, update,
}

-- The comparator is `MaxFilter` of a number that a sample has.
module _ {V : Type 0} (zero_value : V) (comparator : V → V → Sign) (key : V → ℕ)
    (by_key : (a b : V) → comparator a b ≡ max_filter (key a) (key b)) where
  -- Better estimates are older, and none is later than `now`.
  pub record IsOrdered (now : ℕ) (f : WindowedFilter V) : Type 0 where
    pub best_ge : key f.second.sample ≤ key f.best.sample
    pub second_ge : key f.third.sample ≤ key f.second.sample
    pub best_first : f.best.time ≤ f.second.time
    pub second_next : f.second.time ≤ f.third.time
    pub third_last : f.third.time ≤ now

  pub record Updated (v : V) (t : ℕ) (f : WindowedFilter V) : Type 0 where
    pub ordered : IsOrdered t f
    pub in_window : t ≤ f.best.time + f.window_length
    pub covers : key v ≤ key f.best.sample

  module _ (f : WindowedFilter V) (v : V) (t now : ℕ) (o : IsOrdered now f) (later : now ≤ t)
      (fits : t < 2 ^ 64) where
    reset-Updated : Updated v t (reset f v t)
    unfolding reset
    reset-Updated = ground arith

    -- What `insert` leaves when the sample does not beat the best one.
    record Inserted (g : WindowedFilter V) : Type 0 where
      ordered : IsOrdered t g
      reached : key v ≤ key g.third.sample
      recent : t ≤ g.third.time + g.window_length

    insert-Inserted :
        must_reset zero_value comparator f v t ≡ false
        → Inserted (insert zero_value comparator f v t)
    unfolding must_reset insert
    insert-Inserted h = ground (
      arith,
      by_key v f.best.sample,
      by_key v f.second.sample,
      by_key v f.third.sample,
      by_key f.best.sample zero_value,
    )

  expire-Updated :
      (f : WindowedFilter V) (v : V) (t : ℕ)
      → IsOrdered t f
      → key v ≤ key f.third.sample
      → t ≤ f.third.time + f.window_length
      → t < 2 ^ 64
      → Updated v t (expire zero_value comparator f v t)
  unfolding expire
  expire-Updated f v t o c r fits =
      ground (arith, by_key f.second.sample f.best.sample, by_key f.third.sample f.second.sample)

  -- After `Update` the estimates are in order, better ones older, the best was taken within the
  -- window, and it is at least the new sample. Times do not run backwards.
  pub update-Updated :
      (f : WindowedFilter V) (v : V) (t now : ℕ)
      → IsOrdered now f
      → now ≤ t
      → t < 2 ^ 64
      → Updated v t (update zero_value comparator f v t)
  unfolding update
  update-Updated f v t now o later fits =
      elim (Bool-cases (must_reset zero_value comparator f v t)) [
        | inl h ↦ rw h (reset-Updated f v t now o later fits)
        | inr h ↦
            let i = insert-Inserted f v t now o later fits h in
            rw h (
              expire-Updated (insert zero_value comparator f v t) v t i.ordered i.reached i.recent
                fits)
      ]
