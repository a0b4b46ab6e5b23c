-- ===== src/Common/Places.antt =====
-- What stands at a place of a list after a write, or after an addition at its end.
use telekit.Common.{
  ℕ, zero, suc, ◌<◌, ◌≡◌, ◌≢◌, ◌⊎◌, inl, inr, refl, sym, ap, ◌∙◌, some, List, [], ◌∷◌, ◌++◌, ◌==◌,
  length, get_elem?, set, arith, get_elem?-set_self, get_elem?-set_ne, Bool-cases,
}

module _ {ℓ} {A : Type ℓ} where
  pub get_elem?-some : (cs : List A) (i : ℕ) {c : A} → get_elem? cs i ≡ some c → i < length cs
  get_elem?-some [] i e = cc
  get_elem?-some (c ∷ cs) zero e = omega arith
  get_elem?-some (c ∷ cs) (suc i) e = omega (arith, get_elem?-some cs i e)

  -- What stands at a place after a write.
  pub get_elem?-set_cases :
      (cs : List A) (i j : ℕ) (c' : A) {c d : A}
      → get_elem? cs i ≡ some c
      → get_elem? (set cs i c') j ≡ some d
      → ((j ≡ i) × (d ≡ c')) ⊎ ((j ≢ i) × (get_elem? cs j ≡ some d))
  get_elem?-set_cases cs i j c' e f = elim (Bool-cases (j == i)) [
    | inl g ↦
        let same : j ≡ i = ground arith in
        inl (same, cc (get_elem?-set_self cs i c' (get_elem?-some cs i e), f, same))
    | inr g ↦
        let other : i ≢ j = λ h. ground (arith, h) in
        inr (λ h. ground (arith, h), sym (get_elem?-set_ne cs i j c' other) ∙ f)
  ]

  -- What stands at a place of a list with one element more.
  pub get_elem?-added :
      (cs : List A) (x : A) (i : ℕ) {c : A}
      → get_elem? (cs ++ x ∷ []) i ≡ some c
      → ((i ≡ length cs) × (c ≡ x)) ⊎ ((i ≢ length cs) × (get_elem? cs i ≡ some c))
  get_elem?-added [] x zero e = inl (refl, cc)
  get_elem?-added [] x (suc i) e = cc
  get_elem?-added (d ∷ cs) x zero e = inr (λ h. omega (arith, h), e)
  get_elem?-added (d ∷ cs) x (suc i) e = elim (get_elem?-added cs x i e) [
    | inl (f, g) ↦ inl (ap suc f, g)
    | inr (f, g) ↦ inr (λ h. f (omega (arith, h)), g)
  ]

  pub get_elem?-last : (cs : List A) (x : A) → get_elem? (cs ++ x ∷ []) (length cs) ≡ some x
  get_elem?-last [] x = refl
  get_elem?-last (c ∷ cs) x = get_elem?-last cs x
