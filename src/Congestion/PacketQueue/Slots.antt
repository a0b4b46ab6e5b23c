-- ===== src/Congestion/PacketQueue/Slots.antt =====
-- The slots of a packet queue as a list from a first packet number on, and its well-formedness.
use telekit.Common.{
  ℕ, zero, suc, ◌+◌, ◌≤◌, ◌<◌, ◌≡◌, Bool, true, false, Option, none, some, List, [], ◌∷◌, ◌++◌,
  ◌==◌, ltb, if◌then◌else◌, arith, length, get_elem?, set, refl,
}
use telekit.Congestion.Ring.Contents.{contents}
use telekit.Congestion.Ring.Contents
use telekit.Congestion.PacketQueue.{EntryWrapper, PacketQueue}

abbrev pub one_if : Bool → ℕ
one_if true = 1
one_if false = 0

module _ {A : Type 0} where
  abbrev pub slots : PacketQueue A → List (EntryWrapper A)
  slots q = contents q.entries

  abbrev pub value : EntryWrapper A → Option A
  value w = if w.present then some w.entry else none

  -- The entry numbered `m` among slots that are numbered from `p` on.
  abbrev pub look : List (EntryWrapper A) → ℕ → ℕ → Option A
  look [] p m = none
  look (w ∷ ws) p m = if m == p then value w else look ws (p + 1) m

  abbrev pub count_present : List (EntryWrapper A) → ℕ
  count_present [] = 0
  count_present (w ∷ ws) = one_if w.present + count_present ws

  -- Either no slot and no first packet, or a first slot that is present.
  abbrev pub Starts : List (EntryWrapper A) → ℕ → Type 0
  Starts [] p = p ≡ 0
  Starts (w ∷ ws) p = (w.present ≡ true) × (0 < p)

  pub record IsValid (q : PacketQueue A) : Type 0 where
    pub ring_valid : Contents.IsValid q.entries
    pub counted : q.number_of_present_entries ≡ count_present (slots q)
    pub starts : Starts (slots q) q.first_packet

  pub look-lt : (ws : List (EntryWrapper A)) (p m : ℕ) → m < p → look ws p m ≡ none
  look-lt [] p m h = refl
  look-lt (w ∷ ws) p m h = ground (arith, look-lt ws (p + 1) m)

  -- Numbering goes on behind a first part.
  pub look-append :
      (ws vs : List (EntryWrapper A)) (p e m : ℕ)
      → e ≡ p + length ws
      → look (ws ++ vs) p m ≡ (if ltb m e then look ws p m else look vs e m)
  look-append [] vs p e m h = ground (arith, look-lt vs p m)
  look-append (w ∷ ws) vs p e m h = ground (arith, look-append ws vs (p + 1) e m)

  pub look-ge : (ws : List (EntryWrapper A)) (p m : ℕ) → p + length ws ≤ m → look ws p m ≡ none
  look-ge [] p m h = refl
  look-ge (w ∷ ws) p m h = ground (arith, look-ge ws (p + 1) m)

  -- Replacing the slot of number `n` changes what stands there, and nothing else.
  pub look-set :
      (ws : List (EntryWrapper A)) (p e i : ℕ) (v : EntryWrapper A) (m : ℕ)
      → i < length ws
      → e ≡ p + i
      → look (set ws i v) p m ≡ (if m == e then value v else look ws p m)
  look-set [] p e i v m h k = absurd (omega arith)
  look-set (w ∷ ws) p e zero v m h k = ground arith
  look-set (w ∷ ws) p e (suc i) v m h k = ground (arith, look-set ws (p + 1) e i v m)

  abbrev pub value? : Option (EntryWrapper A) → Option A
  value? none = none
  value? (some w) = value w

  pub some_if :
      (b : Bool) (x y : Option A) → some (if b then x else y) ≡ (if b then some x else some y)
  some_if true x y = refl
  some_if false x y = refl

  pub look-eq-get_elem? :
      (ws : List (EntryWrapper A)) (p m i : ℕ) → m ≡ p + i → look ws p m ≡ value? (get_elem? ws i)
  look-eq-get_elem? [] p m i h = refl
  look-eq-get_elem? (w ∷ ws) p m zero h = ground arith
  look-eq-get_elem? (w ∷ ws) p m (suc i) h = ground (arith, look-eq-get_elem? ws (p + 1) m i)

  pub count_present-append :
      (ws vs : List (EntryWrapper A))
      → count_present (ws ++ vs) ≡ count_present ws + count_present vs
  count_present-append [] vs = omega arith
  count_present-append (w ∷ ws) vs = omega (arith, count_present-append ws vs)

  pub count_present-set :
      (ws : List (EntryWrapper A)) (i : ℕ) {w : EntryWrapper A} (v : EntryWrapper A)
      → get_elem? ws i ≡ some w
      → count_present (set ws i v) + one_if w.present ≡ count_present ws + one_if v.present
  count_present-set [] i v h = cc
  count_present-set (w ∷ ws) zero v h = ground arith
  count_present-set (w ∷ ws) (suc i) v h = omega (arith, count_present-set ws i v h)
