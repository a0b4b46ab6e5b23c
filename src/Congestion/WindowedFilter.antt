-- ===== src/Congestion/WindowedFilter.antt =====
-- transports/transport_quic/congestion/bbr/windowed_filter.go: the best estimates of a window.
-- Both uses of the filter take uint64 counts for times, so differences of times wrap.
-- The comparator returns 1, 0 or -1.
pub mod Order
pub mod Runs
use telekit.Common.{
  ℕ, ◌+◌, ◌-◌, ◌/◌, ◌%◌, ◌^◌, Bool, true, false, ◌&&◌, ◌||◌, List, [], ◌∷◌, ltb, if◌then◌else◌,
}

pub data Sign : Type 0 where
  plus none minus : Sign

abbrev pub is_zero : Sign → Bool
is_zero none = true
is_zero _ = false

-- The test `>= 0`.
abbrev pub is_nonneg : Sign → Bool
is_nonneg minus = false
is_nonneg _ = true

-- `MaxFilter` and `MinFilter` at an unsigned type.
abbrev pub max_filter : ℕ → ℕ → Sign
max_filter a b = if ltb b a then plus else if ltb a b then minus else none

abbrev pub min_filter : ℕ → ℕ → Sign
min_filter a b = if ltb a b then plus else if ltb b a then minus else none

abbrev pub sub64 : ℕ → ℕ → ℕ
sub64 a b = (a + 2 ^ 64 - b) % 2 ^ 64

pub record Entry {ℓ} (V : Type ℓ) : Type ℓ where
  pub sample : V
  pub time : ℕ

-- `estimates[0]`, `estimates[1]` and `estimates[2]` are the three fields.
pub record WindowedFilter {ℓ} (V : Type ℓ) : Type ℓ where
  pub window_length : ℕ
  pub best : Entry V
  pub second : Entry V
  pub third : Entry V

module _ {ℓ} {V : Type ℓ} (zero_value : V) where
  abbrev blank : Entry V
  blank = record { sample = zero_value; time = 0 }

  -- `NewWindowedFilter`
  unfoldable pub new : ℕ → WindowedFilter V
  new window_length = record {
    window_length = window_length;
    best = blank;
    second = blank;
    third = blank;
  }

  unfoldable pub clear : WindowedFilter V → WindowedFilter V
  clear f = record f { best = blank; second = blank; third = blank }

module _ {ℓ} {V : Type ℓ} where
  unfoldable pub set_window_length : WindowedFilter V → ℕ → WindowedFilter V
  set_window_length f window_length = record f { window_length = window_length }

  unfoldable pub get_best : WindowedFilter V → V
  get_best f = f.best.sample

  unfoldable pub get_second_best : WindowedFilter V → V
  get_second_best f = f.second.sample

  unfoldable pub get_third_best : WindowedFilter V → V
  get_third_best f = f.third.sample

  unfoldable pub reset : WindowedFilter V → V → ℕ → WindowedFilter V
  reset f v t =
      let e : Entry V = record { sample = v; time = t } in
      record f { best = e; second = e; third = e }

module _ {ℓ} {V : Type ℓ} (zero_value : V) (comparator : V → V → Sign) where
  -- The first test of `Update`.
  unfoldable pub must_reset : WindowedFilter V → V → ℕ → Bool
  must_reset f v t =
      is_zero (comparator f.best.sample zero_value)
      || is_nonneg (comparator v f.best.sample)
      || ltb f.window_length (sub64 t f.third.time)

  -- The new sample replaces the estimates that it beats.
  unfoldable pub insert : WindowedFilter V → V → ℕ → WindowedFilter V
  insert f v t =
      let e : Entry V = record { sample = v; time = t } in
      if is_nonneg (comparator v f.second.sample)
      then record f { second = e; third = e }
      else if is_nonneg (comparator v f.third.sample)
      then record f { third = e }
      else f

  -- Expired estimates are promoted or taken anew.
  unfoldable pub expire : WindowedFilter V → V → ℕ → WindowedFilter V
  expire f v t =
      let e : Entry V = record { sample = v; time = t } in
      if ltb f.window_length (sub64 t f.best.time)
      then (let g : WindowedFilter V = record f { best = f.second; second = f.third; third = e } in
          if ltb f.window_length (sub64 t g.best.time)
          then record g { best = g.second; second = g.third }
          else g)
      else if is_zero (comparator f.second.sample f.best.sample)
          && ltb (f.window_length / 4) (sub64 t f.second.time)
      then record f { second = e; third = e }
      else if is_zero (comparator f.third.sample f.second.sample)
          && ltb (f.window_length / 2) (sub64 t f.third.time)
      then record f { third = e }
      else f

  unfoldable pub update : WindowedFilter V → V → ℕ → WindowedFilter V
  unfolding must_reset reset insert expire
  update f v t = if must_reset f v t then reset f v t else expire (insert f v t) v t
