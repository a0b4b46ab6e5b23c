-- ===== src/Peer/Replay/History.antt =====
-- A replay window against the set of sequence numbers that it has accepted.
use native.Mathlib.Decide.{dec_lt, ℕ_discrete}
use Prim.Native.Nat.{bit_and, bit_or}
use telekit.Common.{
  ℕ, zero, suc, ◌+◌, ◌-◌, ◌*◌, ◌^◌, ◌≤◌, ◌<◌, ◌≡◌, ◌∙◌, ap, sym, Bool, true, false, not, ◌||◌, List,
  [], ◌∷◌, ◌==◌, leb, if◌then◌else◌, arith, Bool-cases, inl, inr,
}
use telekit.Common.Bits.{
  bit, bit-le, bit-zero, bit-bit_or, bit-pow_self, bit-pow_ne, bit_and-pow_zero, bit_and-pow_ne,
  bit-mod, bit-shift_low, bit-shift,
}
use telekit.Peer.Replay.{ReplayWindow, shl64, advance}

abbrev pub member : ℕ → List ℕ → Bool
member s [] = false
member s (t ∷ ts) = s == t || member s ts

abbrev pub one_if : Bool → ℕ
one_if true = 1
one_if false = 0

-- The window knows the numbers accepted among the last 64, and none is past the highest.
pub record Tracks (w : ReplayWindow) (taken : List ℕ) : Type 0 where
  pub bounded : (s : ℕ) → member s taken ≡ true → (0 < s) × (s ≤ w.highest)
  pub bits : (d : ℕ) → d < 64 → d < w.highest → bit w.seen d ≡ one_if (member (w.highest - d) taken)
  pub unused : w.highest ≡ 0 → taken ≡ []
  pub attained : 0 < w.highest → member w.highest taken ≡ true

pub not_leb : {n m : ℕ} → n < m → leb m n ≡ false
not_leb h = ground arith

pub le_leb : {n m : ℕ} → ¬ (n < m) → leb m n ≡ true
le_leb h = ground arith

module _ (w : ReplayWindow) (taken : List ℕ) (t : Tracks w taken) where
  pub fresh_above : (s : ℕ) → w.highest < s → member s taken ≡ false
  fresh_above s h = elim (Bool-cases (member s taken)) [
    | inl m ↦ absurd (omega (arith, t.bounded s m))
    | inr m ↦ m
  ]

  -- The digits of the shifted set, at a place below 64.
  shifted-bit :
      (s d : ℕ)
      → w.highest < s
      → s - w.highest < 64
      → d < 64
      → d < s
      → bit (shl64 w.seen (s - w.highest)) d ≡ one_if (member (s - d) taken)
  shifted-bit s d h n k b =
      bit-mod 64 (w.seen * 2 ^ (s - w.highest)) d k ∙ elim (dec_lt d (s - w.highest)) [
        | yes q ↦
            bit-shift_low (s - w.highest) w.seen d q
            ∙ sym (ap one_if (fresh_above (s - d) (omega arith)))
        | no q ↦
            ap (bit (w.seen * 2 ^ (s - w.highest))) {x = d}
              {y = s - w.highest + (d - (s - w.highest))} (omega arith)
            ∙ bit-shift (s - w.highest) w.seen (d - (s - w.highest))
            ∙ t.bits (d - (s - w.highest)) (omega arith) (omega arith)
            ∙ ap (λ k. one_if (member k taken)) (omega arith)
      ]

  cleared-bit : (s d : ℕ) → 64 ≤ s - w.highest → d < 64 → bit 0 d ≡ one_if (member (s - d) taken)
  cleared-bit s d h k = bit-zero d ∙ sym (ap one_if (fresh_above (s - d) (omega arith)))

  -- The set before the newest number is put in.
  moved-bit :
      (s d : ℕ)
      → w.highest < s
      → d < 64
      → d < s
      → bit (if leb 64 (s - w.highest) then 0 else shl64 w.seen (s - w.highest)) d
        ≡ one_if (member (s - d) taken)
  moved-bit s d h k b = elim (dec_lt (s - w.highest) 64) [
    | yes n ↦ rw (not_leb n) (shifted-bit s d h n k b)
    | no n ↦ rw (le_leb n) (cleared-bit s d (omega arith) k)
  ]

  advance-bit :
      (s d : ℕ)
      → w.highest < s
      → d < 64
      → d < s
      → bit (advance w s).seen d ≡ one_if (member (s - d) (s ∷ taken))
  unfolding advance
  advance-bit s zero h k b =
      bit-bit_or _ 1 0
      ∙ (ground (
        arith,
        moved-bit s 0 h k b,
        bit-le (if leb 64 (s - w.highest) then 0 else shl64 w.seen (s - w.highest)) 0,
      ))
  advance-bit s (suc d) h k b =
      bit-bit_or _ 1 (suc d) ∙ (ground (arith, moved-bit s (suc d) h k b, bit-pow_ne 0 (suc d)))

  pub advance-Tracks : (s : ℕ) → w.highest < s → Tracks (advance w s) (s ∷ taken)
  unfolding advance
  advance-Tracks s h = record {
    bounded = λ u m. ground (arith, t.bounded u);
    bits = λ d k b. advance-bit s d h k b;
    unused = λ e. absurd (omega arith);
    attained = λ z. ground (arith, t.attained);
  }

  -- The digit that the mask tests.
  known :
      (s : ℕ)
      → 0 < s
      → s ≤ w.highest
      → w.highest - s < 64
      → bit w.seen (w.highest - s) ≡ one_if (member s taken)
  known s p h k =
      t.bits (w.highest - s) k (omega arith)
      ∙ ap (λ n. one_if (member n taken)) {x = w.highest - (w.highest - s)} {y = s} (omega arith)

  pub mask-fresh :
      (s : ℕ)
      → 0 < s
      → s ≤ w.highest
      → w.highest - s < 64
      → (bit_and w.seen (2 ^ (w.highest - s)) == 0) ≡ not (member s taken)
  mask-fresh s p h k = ground (
    arith,
    known s p h k,
    bit_and-pow_zero w.seen (w.highest - s),
    bit_and-pow_ne w.seen (w.highest - s),
  )

  unfoldable pub mark : ℕ → ReplayWindow
  mark s = record w { seen = bit_or w.seen (2 ^ (w.highest - s)) }

  mark-bit :
      (s d : ℕ)
      → 0 < s
      → s ≤ w.highest
      → d < 64
      → d < w.highest
      → bit (bit_or w.seen (2 ^ (w.highest - s))) d ≡ one_if (member (w.highest - d) (s ∷ taken))
  mark-bit s d p h l b =
      bit-bit_or w.seen (2 ^ (w.highest - s)) d ∙ elim (ℕ_discrete d (w.highest - s)) [
        | yes e ↦
            ground (
              arith,
              ap (bit (2 ^ (w.highest - s))) e,
              bit-pow_self (w.highest - s),
              bit-le w.seen d,
            )
        | no e ↦ ground (arith, bit-pow_ne (w.highest - s) d e, t.bits d l b)
      ]

  pub mark-Tracks :
      (s : ℕ) → 0 < s → s ≤ w.highest → w.highest - s < 64 → Tracks (mark s) (s ∷ taken)
  unfolding mark
  mark-Tracks s p h k = record {
    bounded = λ u m. ground (arith, t.bounded u);
    bits = λ d l b. mark-bit s d p h l b;
    unused = λ e. absurd (omega arith);
    attained = λ z. ground (arith, t.attained);
  }

  -- The first number of an unused window.
  pub start-Tracks :
      (s : ℕ) → 0 < s → w.highest ≡ 0 → Tracks (record { highest = s; seen = 1 }) (s ∷ taken)
  start-Tracks s p h = rw (t.unused h) (record {
    bounded = λ u m. ground arith;
    bits = λ d l b. first_bit d b;
    unused = λ e. absurd (omega arith);
    attained = λ z. ground (arith, t.attained);
  })
    where
      first_bit : (d : ℕ) → d < s → bit 1 d ≡ one_if (member (s - d) (s ∷ []))
      first_bit zero b = ground arith
      first_bit (suc d) b = ground (arith, bit-pow_ne 0 (suc d))
