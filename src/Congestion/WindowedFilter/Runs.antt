-- ===== src/Congestion/WindowedFilter/Runs.antt =====
-- Any number of calls of `Update` on a new filter.
use telekit.Common.{ℕ, ◌≤◌, ◌<◌, ◌^◌, ◌≡◌, inl, inr, arith, Bool-cases, List, [], ◌∷◌, All}
use telekit.Congestion.WindowedFilter.{
  Sign, Entry, WindowedFilter, max_filter, new, must_reset, reset, insert, expire, update,
}
use telekit.Congestion.WindowedFilter.Order.{IsOrdered, Updated, update-Updated}

module _ {V : Type 0} where
  -- Samples in the order of their times, from `now` on.
  abbrev pub Chronological : ℕ → List (Entry V) → Type 0
  Chronological now [] = Unit
  Chronological now (e ∷ es) = (now ≤ e.time) × (e.time < 2 ^ 64) × Chronological e.time es

  abbrev pub last : Entry V → List (Entry V) → Entry V
  last e [] = e
  last e (d ∷ es) = last d es

  -- All three estimates have a property.
  abbrev pub Estimates : (Entry V → Type 0) → WindowedFilter V → Type 0
  Estimates P f = P f.best × P f.second × P f.third

module _ {V : Type 0} (zero_value : V) (comparator : V → V → Sign) where
  pub run : WindowedFilter V → List (Entry V) → WindowedFilter V
  run f [] = f
  run f (e ∷ es) = run (update zero_value comparator f e.sample e.time) es

  module _ (P : Entry V → Type 0) (f : WindowedFilter V) (e : Entry V) (p : P e) where
    insert-Estimates : Estimates P f → Estimates P (insert zero_value comparator f e.sample e.time)
    unfolding insert
    insert-Estimates h = ground arith

    expire-Estimates : Estimates P f → Estimates P (expire zero_value comparator f e.sample e.time)
    unfolding expire
    expire-Estimates h = ground arith

    reset-Estimates : Estimates P (reset f e.sample e.time)
    unfolding reset
    reset-Estimates = (p, p, p)

  update-Estimates :
      (P : Entry V → Type 0) (f : WindowedFilter V) (e : Entry V)
      → P e
      → Estimates P f
      → Estimates P (update zero_value comparator f e.sample e.time)
  unfolding update
  update-Estimates P f e p h =
      elim (Bool-cases (must_reset zero_value comparator f e.sample e.time)) [
        | inl r ↦ rw r (reset-Estimates P f e p)
        | inr r ↦ rw r (expire-Estimates P _ e p (insert-Estimates P f e p h))
      ]

module _ {V : Type 0} (zero_value : V) (comparator : V → V → Sign) (key : V → ℕ)
    (by_key : (a b : V) → comparator a b ≡ max_filter (key a) (key b)) where
  -- The first sample of a new filter takes all three places.
  update-new :
      (w : ℕ) (e : Entry V)
      → update zero_value comparator (new zero_value w) e.sample e.time
        ≡ reset (new zero_value w) e.sample e.time
  unfolding update must_reset new
  update-new w e = ground (arith, by_key zero_value zero_value)

  new-IsOrdered : (w : ℕ) → IsOrdered zero_value comparator key by_key 0 (new zero_value w)
  unfolding new
  new-IsOrdered w = omega arith

  abbrev Good : (Entry V → Type 0) → Entry V → WindowedFilter V → Type 0
  Good P e f = Updated zero_value comparator key by_key e.sample e.time f × Estimates P f

  run-Good :
      (P : Entry V → Type 0) (f : WindowedFilter V) (e : Entry V) (es : List (Entry V))
      → Good P e f
      → Chronological e.time es
      → All P es
      → Good P (last e es) (run zero_value comparator f es)
  unfolding run
  run-Good P f e [] g c a = g
  run-Good P f e (d ∷ es) g c a =
      run-Good P (update zero_value comparator f d.sample d.time) d es
        (
          update-Updated zero_value comparator key by_key f d.sample d.time e.time g.0.ordered c.0
              c.1,
          update-Estimates zero_value comparator P f d a.0 g.1,
        )
        c.2 a.1

  -- A new filter that was given samples in the order of their times holds three of those samples,
  -- in order, the best taken within the window before the last one and at least as good as it.
  pub run-new :
      (w : ℕ) (e : Entry V) (es : List (Entry V)) (P : Entry V → Type 0)
      → Chronological 0 (e ∷ es)
      → All P (e ∷ es)
      → let f = run zero_value comparator (new zero_value w) (e ∷ es) in
        Updated zero_value comparator key by_key (last e es).sample (last e es).time f
        × Estimates P f
  unfolding run
  run-new w e es P c a =
      run-Good P (update zero_value comparator (new zero_value w) e.sample e.time) e es
        (
          update-Updated zero_value comparator key by_key (new zero_value w) e.sample e.time 0
              (new-IsOrdered w) c.0 c.1,
          rw (update-new w e) (reset-Estimates zero_value comparator P (new zero_value w) e a.0),
        )
        c.2 a.1
