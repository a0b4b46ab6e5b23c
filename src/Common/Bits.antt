-- ===== src/Common/Bits.antt =====
-- The binary digits of a number, and what the bit operations and the shifts of a word do to them.
use Prim.Native.Nat.{bit_and, bit_or, digits, bit_and-bitwise, bit_or-bitwise}
use native.Mathlib.Nat.{pow-suc, div-add-mod, mul-add-mod_self_left, mod-eq_of_lt, mod-lt, le_refl}
use native.Mathlib.Decide.{ℕ_discrete}
use telekit.Common.{
  ℕ, zero, suc, ◌+◌, ◌*◌, ◌/◌, ◌%◌, ◌^◌, ◌≤◌, ◌<◌, min, max, ◌≡◌, ◌≢◌, refl, ap, sym, ◌∙◌, arith,
}

abbrev pub bit : ℕ → ℕ → ℕ
bit x zero = x % 2
bit x (suc i) = bit (x / 2) i

pub bit-zero : (i : ℕ) → bit 0 i ≡ 0
bit-zero zero = refl
bit-zero (suc i) = bit-zero i

pub bit-le : (x i : ℕ) → bit x i ≤ 1
bit-le x zero = omega arith
bit-le x (suc i) = bit-le (x / 2) i

-- A digit of a number that was put together from a digit and the rest.
bit-cons : (r d i : ℕ) → d ≤ 1 → bit (r * 2 + d) (suc i) ≡ bit r i
bit-cons r d i h = ap (λ k. bit k i) (omega arith)

bit-digits-max : (n a b i : ℕ) → a ≤ n → bit (digits (λ y. y) max n a b) i ≡ max (bit a i) (bit b i)
bit-digits-max zero zero b i h = omega (arith, bit-zero i)
bit-digits-max zero (suc a) b i h = absurd (omega arith)
bit-digits-max (suc n) zero b i h = omega (arith, bit-zero i)
bit-digits-max (suc n) (suc a) b zero h = omega arith
bit-digits-max (suc n) (suc a) b (suc i) h =
    bit-cons (digits (λ y. y) max n (suc a / 2) (b / 2)) (max (suc a % 2) (b % 2)) i (omega arith)
    ∙ bit-digits-max n (suc a / 2) (b / 2) i (omega arith)

bit-digits-min : (n a b i : ℕ) → a ≤ n → bit (digits (λ y. 0) min n a b) i ≡ min (bit a i) (bit b i)
bit-digits-min zero zero b i h = omega (arith, bit-zero i)
bit-digits-min zero (suc a) b i h = absurd (omega arith)
bit-digits-min (suc n) zero b i h = omega (arith, bit-zero i)
bit-digits-min (suc n) (suc a) b zero h = omega arith
bit-digits-min (suc n) (suc a) b (suc i) h =
    bit-cons (digits (λ y. 0) min n (suc a / 2) (b / 2)) (min (suc a % 2) (b % 2)) i (omega arith)
    ∙ bit-digits-min n (suc a / 2) (b / 2) i (omega arith)

pub bit-bit_or : (a b i : ℕ) → bit (bit_or a b) i ≡ max (bit a i) (bit b i)
bit-bit_or a b i = ap (λ k. bit k i) (bit_or-bitwise a b) ∙ bit-digits-max a a b i (le_refl a)

pub bit-bit_and : (a b i : ℕ) → bit (bit_and a b) i ≡ min (bit a i) (bit b i)
bit-bit_and a b i = ap (λ k. bit k i) (bit_and-bitwise a b) ∙ bit-digits-min a a b i (le_refl a)

pub bit-pow_self : (k : ℕ) → bit (2 ^ k) k ≡ 1
bit-pow_self zero = refl
bit-pow_self (suc k) = ap (λ m. bit m k) (omega (arith, pow-suc 2 k)) ∙ bit-pow_self k

pub bit-pow_ne : (k i : ℕ) → i ≢ k → bit (2 ^ k) i ≡ 0
bit-pow_ne zero zero h = absurd (h refl)
bit-pow_ne zero (suc i) h = bit-zero i
bit-pow_ne (suc k) zero h = omega (arith, pow-suc 2 k)
bit-pow_ne (suc k) (suc i) h =
    ap (λ m. bit m i) (omega (arith, pow-suc 2 k)) ∙ bit-pow_ne k i (λ e. h (ap suc e))

zero_of_bits_fuel : (n x : ℕ) → x ≤ n → ((i : ℕ) → bit x i ≡ 0) → x ≡ 0
zero_of_bits_fuel n zero h b = refl
zero_of_bits_fuel zero (suc x) h b = absurd (omega arith)
zero_of_bits_fuel (suc n) (suc x) h b =
    omega (arith, b 0, zero_of_bits_fuel n (suc x / 2) (omega arith) (λ i. b (suc i)))

-- A mask with one digit tests that digit.
pub bit_and-pow_zero : (x k : ℕ) → bit x k ≡ 0 → bit_and x (2 ^ k) ≡ 0
bit_and-pow_zero x k h = zero_of_bits_fuel (bit_and x (2 ^ k)) (bit_and x (2 ^ k)) (le_refl _) λ i.
    elim (ℕ_discrete i k) [
      | yes e ↦ omega (arith, bit-bit_and x (2 ^ k) i, ap (bit x) e)
      | no e ↦ omega (arith, bit-bit_and x (2 ^ k) i, bit-pow_ne k i e)
    ]

pub bit_and-pow_ne : (x k : ℕ) → bit x k ≡ 1 → bit_and x (2 ^ k) ≢ 0
bit_and-pow_ne x k h e =
    omega (arith, bit-bit_and x (2 ^ k) k, bit-pow_self k, ap (λ y. bit y k) e, bit-zero k)

pow_pos : (k : ℕ) → 0 < 2 ^ k
pow_pos zero = omega arith
pow_pos (suc k) = omega (arith, pow-suc 2 k, pow_pos k)

-- Halving a number taken modulo twice `m`.
half-mod : (x m : ℕ) → 0 < m → (x % (m * 2)) / 2 ≡ (x / 2) % m
half-mod x m h =
    let q = x / (m * 2) in
    let y = x % (m * 2) in
    let bound : y < m * 2 = mod-lt x (omega arith) in
    sym (
      ap (λ k. k % m) {x = x / 2} {y = m * q + y / 2} (omega (arith, div-add-mod x (m * 2)))
      ∙ mul-add-mod_self_left m q (y / 2)
      ∙ mod-eq_of_lt (omega arith))

low-mod : (x m : ℕ) → (x % (m * 2)) % 2 ≡ x % 2
low-mod x m = let q = x / (m * 2) in let y = x % (m * 2) in omega (arith, div-add-mod x (m * 2))

pub bit-mod : (w x i : ℕ) → i < w → bit (x % 2 ^ w) i ≡ bit x i
bit-mod zero x i h = absurd (omega arith)
bit-mod (suc w) x zero h = ap (λ k. x % k % 2) (pow-suc 2 w) ∙ low-mod x (2 ^ w)
bit-mod (suc w) x (suc i) h =
    ap (λ k. bit (x % k / 2) i) (pow-suc 2 w)
    ∙ ap (λ k. bit k i) (half-mod x (2 ^ w) (pow_pos w))
    ∙ bit-mod w (x / 2) i (omega arith)

times_pow_suc : (x s : ℕ) → x * 2 ^ suc s ≡ (x * 2 ^ s) * 2
times_pow_suc x s = omega (arith, ap (λ t. x * t) (pow-suc 2 s))

-- A shift to the left: the low digits are 0, the others move up.
pub bit-shift_low : (s x i : ℕ) → i < s → bit (x * 2 ^ s) i ≡ 0
bit-shift_low zero x i h = absurd (omega arith)
bit-shift_low (suc s) x zero h = omega (arith, times_pow_suc x s)
bit-shift_low (suc s) x (suc i) h =
    ap (λ k. bit k i) {x = x * 2 ^ suc s / 2} {y = x * 2 ^ s} (omega (arith, times_pow_suc x s))
    ∙ bit-shift_low s x i (omega arith)

pub bit-shift : (s x i : ℕ) → bit (x * 2 ^ s) (s + i) ≡ bit x i
bit-shift zero x i =
    ap (λ k. bit k (0 + i)) {x = x * 2 ^ 0} {y = x} (omega arith)
    ∙ ap (bit x) {x = 0 + i} {y = i} (omega arith)
bit-shift (suc s) x i =
    ap (λ k. bit (x * 2 ^ suc s) k) {x = suc s + i} {y = suc (s + i)} (omega arith)
    ∙ ap (λ k. bit k (s + i)) {x = x * 2 ^ suc s / 2} {y = x * 2 ^ s}
        (omega (arith, times_pow_suc x s))
    ∙ bit-shift s x i
