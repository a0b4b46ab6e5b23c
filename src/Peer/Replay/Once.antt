-- ===== src/Peer/Replay/Once.antt =====
-- `Accept` takes each sequence number at most once, within a window of 64 numbers.
use native.Mathlib.Decide.{dec_lt, ℕ_discrete}
use telekit.Common.{
  ℕ, ◌+◌, ◌-◌, ◌≤◌, ◌<◌, ◌≡◌, refl, Bool, true, false, not, ◌&&◌, List, [], ◌∷◌, ◌==◌, ltb,
  if◌then◌else◌, arith, Bool-cases, inl, inr,
}
use telekit.Peer.Replay.{ReplayWindow, new, advance, accept, reset, offer_all}
use telekit.Peer.Replay.History.{
  Tracks, member, fresh_above, mask-fresh, mark, mark-Tracks, start-Tracks, advance-Tracks,
}

-- What a window accepts, by its history alone.
abbrev pub admits : ReplayWindow → List ℕ → ℕ → Bool
admits w taken s = not (s == 0) && not (member s taken) && ltb w.highest (s + 64)

abbrev pub Accepted : ReplayWindow → List ℕ → ℕ → ReplayWindow × Bool → Type 0
Accepted w taken s (w', fresh) =
    (fresh ≡ admits w taken s) × Tracks w' (if fresh then s ∷ taken else taken)

module _ (w : ReplayWindow) (taken : List ℕ) (t : Tracks w taken) (s : ℕ) where
  accept-past : w.highest < s → 0 < w.highest → accept w s ≡ (advance w s, true)
  unfolding accept
  accept-past h p = ground arith

  accept-first : 0 < s → w.highest ≡ 0 → accept w s ≡ (record { highest = s; seen = 1 }, true)
  unfolding accept
  accept-first p h = ground arith

  accept-zero : s ≡ 0 → accept w s ≡ (w, false)
  unfolding accept
  accept-zero h = ground arith

  accept-far : s ≤ w.highest → 0 < s → 64 ≤ w.highest - s → accept w s ≡ (w, false)
  unfolding accept
  accept-far h p k = ground arith

  accept-near :
      s ≤ w.highest
      → 0 < s
      → w.highest - s < 64
      → accept w s ≡ (if not (member s taken) then (mark w taken t s, true) else (w, false))
  unfolding accept mark
  accept-near h p k = ground (arith, mask-fresh w taken t s p h k)

  -- `Accept` refuses exactly 0, a number that was accepted before, and a number 64 or more behind the
  -- highest accepted one; the window then knows its new history.
  pub accept-Accepted : Accepted w taken s (accept w s)
  accept-Accepted = elim (ℕ_discrete s 0) [
    | yes z ↦ rw (accept-zero z) (ground arith, t)
    | no p ↦ elim (ℕ_discrete w.highest 0) [
      | yes h ↦
          rw (accept-first (omega arith) h)
            (rw (t.unused h) (ground arith), start-Tracks w taken t s (omega arith) h)
      | no h ↦ elim (dec_lt w.highest s) [
        | yes l ↦
            rw (accept-past l (omega arith))
              (ground (arith, fresh_above w taken t s l), advance-Tracks w taken t s l)
        | no l ↦ elim (dec_lt (w.highest - s) 64) [
          | yes k ↦
              rw (accept-near (omega arith) (omega arith) k) (near (omega arith) (omega arith) k)
          | no k ↦ rw (accept-far (omega arith) (omega arith) (omega arith)) (ground arith, t)
        ]
      ]
    ]
  ]
    where
      near :
          s ≤ w.highest
          → 0 < s
          → w.highest - s < 64
          → Accepted w taken s
              (if not (member s taken) then (mark w taken t s, true) else (w, false))
      near h p k = elim (Bool-cases (member s taken)) [
        | inl m ↦ rw m (ground arith, t)
        | inr m ↦ rw m (ground arith, mark-Tracks w taken t s p h k)
      ]

-- A new window, and one after `Reset`, has accepted nothing.
pub reset-Tracks : (w : ReplayWindow) → Tracks (reset w) []
unfolding reset
reset-Tracks w = record {
  bounded = λ s m. cc;
  bits = λ d k b. absurd (omega arith);
  unused = λ e. refl;
  attained = λ p. absurd (omega arith);
}

abbrev pub Distinct : List ℕ → Type 0
Distinct [] = Unit
Distinct (s ∷ ss) = (0 < s) × (member s ss ≡ false) × Distinct ss

offer_all-Distinct :
    (w : ReplayWindow) (taken ss : List ℕ)
    → Tracks w taken
    → Distinct taken
    → Distinct (offer_all w taken ss).1
unfolding offer_all
offer_all-Distinct w taken [] t d = d
offer_all-Distinct w taken (s ∷ ss) t d =
    let (e, t') = accept-Accepted w taken t s in
    offer_all-Distinct (accept w s).0 _ ss t' (kept (accept w s).1 e)
  where
    kept : (b : Bool) → b ≡ admits w taken s → Distinct (if b then s ∷ taken else taken)
    kept true e = (ground arith, ground arith, d)
    kept false e = d

-- However sequence numbers are offered to a new window, in any order and any number of times, no
-- number is accepted twice and 0 is never accepted.
pub accepts_once : (ss : List ℕ) → Distinct (offer_all new [] ss).1
accepts_once ss = offer_all-Distinct new [] ss (unfold reset in reset-Tracks new) tt
