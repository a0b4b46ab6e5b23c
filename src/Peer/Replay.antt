-- ===== src/Peer/Replay.antt =====
-- peer/replay.go: `ReplayWindow`. Sequence numbers and the bit set `seen` are uint64. The lock makes
-- each call one step.
pub mod History
pub mod Once
use Prim.Native.Nat.{bit_and, bit_or}
use telekit.Common.{
  ℕ, ◌+◌, ◌-◌, ◌*◌, ◌%◌, ◌^◌, Bool, true, false, List, [], ◌∷◌, ◌==◌, ltb, leb, if◌then◌else◌,
}

pub record ReplayWindow : Type 0 where
  pub highest : ℕ
  pub seen : ℕ

abbrev pub new : ReplayWindow
new = record { highest = 0; seen = 0 }

-- `<<` on uint64, at a shift below 64.
abbrev pub shl64 : ℕ → ℕ → ℕ
shl64 x shift = (x * 2 ^ shift) % 2 ^ 64

-- A number past the highest one moves the window.
unfoldable pub advance : ReplayWindow → ℕ → ReplayWindow
advance w sequence =
    let shift = sequence - w.highest in
    record { highest = sequence; seen = bit_or (if leb 64 shift then 0 else shl64 w.seen shift) 1 }

unfoldable pub accept : ReplayWindow → ℕ → ReplayWindow × Bool
unfolding advance
accept w sequence =
    if sequence == 0
    then (w, false)
    else if w.highest == 0
    then (record { highest = sequence; seen = 1 }, true)
    else if ltb w.highest sequence
    then (advance w sequence, true)
    else (let delta = w.highest - sequence in
        let mask = 2 ^ delta in
        if leb 64 delta
        then (w, false)
        else if bit_and w.seen mask == 0
        then (record w { seen = bit_or w.seen mask }, true)
        else (w, false))

unfoldable pub reset : ReplayWindow → ReplayWindow
reset w = record { highest = 0; seen = 0 }

-- Offers in turn, with the numbers that were accepted, the newest first.
unfoldable pub offer_all : ReplayWindow → List ℕ → List ℕ → ReplayWindow × List ℕ
offer_all w taken [] = (w, taken)
offer_all w taken (s ∷ ss) =
    let (w', fresh) = accept w s in offer_all w' (if fresh then s ∷ taken else taken) ss
