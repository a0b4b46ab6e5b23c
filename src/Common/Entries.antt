-- ===== src/Common/Entries.antt =====
-- A map of the library haxmap from names to numbers, as the list of its entries.
use telekit.Common.{
  ℕ, ◌≡◌, ◌≢◌, refl, true, false, Option, none, some, List, [], ◌∷◌, ◌==◌, if◌then◌else◌, arith,
  Bool-cases, inl, inr,
}

abbrev pub Directory : Type 0
Directory = List (ℕ × ℕ)

abbrev pub lookup : ℕ → Directory → Option ℕ
lookup id [] = none
lookup id ((k, p) ∷ d) = if k == id then some p else lookup id d

abbrev pub remove : ℕ → Directory → Directory
remove id [] = []
remove id ((k, p) ∷ d) = if k == id then remove id d else (k, p) ∷ remove id d

abbrev pub insert : ℕ → ℕ → Directory → Directory
insert id p d = (id, p) ∷ remove id d

pub lookup-remove_self : (id : ℕ) (d : Directory) → lookup id (remove id d) ≡ none
lookup-remove_self id [] = refl
lookup-remove_self id ((k, p) ∷ d) = elim (Bool-cases (k == id)) [
  | inl e ↦ rw e (lookup-remove_self id d)
  | inr e ↦ rw (e, e) (lookup-remove_self id d)
]

pub lookup-remove_ne :
    (id other : ℕ) (d : Directory) → other ≢ id → lookup other (remove id d) ≡ lookup other d
lookup-remove_ne id other [] n = refl
lookup-remove_ne id other ((k, p) ∷ d) n = elim (Bool-cases (k == id)) [
  | inl e ↦ let f : (k == other) ≡ false = ground arith in rw (e, f) (lookup-remove_ne id other d n)
  | inr e ↦ elim (Bool-cases (k == other)) [
    | inl f ↦ rw (e, f) refl
    | inr f ↦ rw (e, f) (lookup-remove_ne id other d n)
  ]
]

pub lookup-insert_self : (id p : ℕ) (d : Directory) → lookup id (insert id p d) ≡ some p
lookup-insert_self id p d = let e : (id == id) ≡ true = ground arith in rw e refl

pub lookup-insert_ne :
    (id other p : ℕ) (d : Directory) → other ≢ id → lookup other (insert id p d) ≡ lookup other d
lookup-insert_ne id other p d n =
    let e : (id == other) ≡ false = ground arith in rw e (lookup-remove_ne id other d n)
