-- ===== src/Common/Bytes.antt =====
-- Byte strings: big-endian numbers (`binary.BigEndian`), and how a string splits into its parts.
use native.Mathlib.Nat.{pow-suc}
use telekit.Common.{
  ℕ, zero, suc, ◌+◌, ◌*◌, ◌/◌, ◌%◌, ◌^◌, ◌<◌, ◌≡◌, refl, ap, sym, ◌∙◌, List, [], ◌∷◌, ◌++◌, length,
  arith, length-append, Bool, true, false, ◌==◌, ◌&&◌,
}

-- The last `k` base-256 digits of `n`.
unfoldable pub big_endian : ℕ → ℕ → List ℕ
big_endian zero n = []
big_endian (suc k) n = big_endian k (n / 256) ++ n % 256 ∷ []

pub length-big_endian : (k n : ℕ) → length (big_endian k n) ≡ k
unfolding big_endian
length-big_endian zero n = refl
length-big_endian (suc k) n =
    omega
      (arith, length-append (big_endian k (n / 256)) (n % 256 ∷ []), length-big_endian k (n / 256))

-- The number that digits spell, behind a first part `a`.
abbrev pub number : ℕ → List ℕ → ℕ
number a [] = a
number a (d ∷ ds) = number (a * 256 + d) ds

number-append : (a d : ℕ) (ds : List ℕ) → number a (ds ++ d ∷ []) ≡ number a ds * 256 + d
number-append a d [] = refl
number-append a d (e ∷ ds) = number-append (a * 256 + e) d ds

pub number-big_endian : (k n : ℕ) → n < 256 ^ k → number 0 (big_endian k n) ≡ n
unfolding big_endian
number-big_endian zero n h = omega arith
number-big_endian (suc k) n h =
    number-append 0 (n % 256) (big_endian k (n / 256))
    ∙ omega (arith, number-big_endian k (n / 256) (omega (arith, pow-suc 256 k)))

pub big_endian-injective :
    (k n m : ℕ) → n < 256 ^ k → m < 256 ^ k → big_endian k n ≡ big_endian k m → n ≡ m
big_endian-injective k n m a b e =
    sym (number-big_endian k n a) ∙ ap (number 0) e ∙ number-big_endian k m b

-- Two strings are equal when their first parts, of the same length, and their second parts are.
pub append-injective :
    (xs ys : List ℕ) {us vs : List ℕ}
    → length xs ≡ length ys
    → xs ++ us ≡ ys ++ vs
    → (xs ≡ ys) × (us ≡ vs)
append-injective [] [] n e = (refl, e)
append-injective [] (y ∷ ys) n e = absurd (omega arith)
append-injective (x ∷ xs) [] n e = absurd (omega arith)
append-injective (x ∷ xs) (y ∷ ys) n e =
    let r = append-injective xs ys (omega arith) (cc e) in (cc (e, r.0), r.1)

-- `bytes.Equal`
abbrev pub same_bytes : List ℕ → List ℕ → Bool
same_bytes [] [] = true
same_bytes [] (y ∷ ys) = false
same_bytes (x ∷ xs) [] = false
same_bytes (x ∷ xs) (y ∷ ys) = x == y && same_bytes xs ys

pub same_bytes_refl : (xs : List ℕ) → same_bytes xs xs ≡ true
same_bytes_refl [] = refl
same_bytes_refl (x ∷ xs) = ground (arith, same_bytes_refl xs)

pub same_bytes_sound : (xs ys : List ℕ) → same_bytes xs ys ≡ true → xs ≡ ys
same_bytes_sound [] [] e = refl
same_bytes_sound [] (y ∷ ys) e = absurd (cc e)
same_bytes_sound (x ∷ xs) [] e = absurd (cc e)
same_bytes_sound (x ∷ xs) (y ∷ ys) e = ground (arith, same_bytes_sound xs ys)
