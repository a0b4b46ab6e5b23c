-- ===== src/Common/Results.antt =====
-- The results of functions that fail with an error.
use telekit.Common.{◌≡◌, ◌⊎◌, inl, inr, refl}

pub data Result {ℓ} (E A : Type ℓ) : Type ℓ where
  ok : A → Result E A
  error : E → Result E A

module _ {ℓ} {E A : Type ℓ} where
  -- The early return on an error.
  abbrev pub and_then : {B : Type ℓ} → Result E A → (A → Result E B) → Result E B
  and_then (ok a) f = f a
  and_then (error e) f = error e

  pub Result-cases : (r : Result E A) → ((a : A) × (r ≡ ok a)) ⊎ ((e : E) × (r ≡ error e))
  Result-cases (ok a) = inl (a, refl)
  Result-cases (error e) = inr (e, refl)
