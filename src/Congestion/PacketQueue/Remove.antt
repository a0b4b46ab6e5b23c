-- ===== src/Congestion/PacketQueue/Remove.antt =====
-- `Remove` against the packet numbers that the queue holds.
use telekit.Common.{
  ℕ, zero, suc, ◌-◌, ◌≤◌, ◌<◌, ◌≡◌, ◌≢◌, ◌∙◌, Bool, true, false, Option, none, some, List, [], ◌∷◌,
  ◌==◌, if◌then◌else◌, arith, length, get_elem?, set, ◌⊎◌, refl, ap, sym, inl, inr, Bool-cases,
  Option-cases, ==_iff,
}
use telekit.Congestion.Ring.{offset, len, write_at}
use telekit.Congestion.Ring.Contents.{len-eq-length}
use telekit.Congestion.Ring.Access.{offset-eq-get_elem?}
use telekit.Congestion.Ring.Write.{contents-write_at, write_at-IsValid}
use telekit.Congestion.PacketQueue.{
  EntryWrapper, PacketQueue, get_entry, get_entry_wrapper, remove, clearup,
}
use telekit.Congestion.PacketQueue.Slots.{
  slots, some_if, look, look-set, count_present, count_present-set, Starts, IsValid,
}
use telekit.Congestion.PacketQueue.Sweep.{clearup-Cleared, Cleared}
use telekit.Congestion.PacketQueue.Lookup.{get_entry-eq-look}

module _ {A : Type 0} where
  -- What a non-nil pointer from `getEntryWraper` tells.
  record Found (q : PacketQueue A) (n : ℕ) (w : EntryWrapper A) : Type 0 where
    numbered : 0 < n
    from_first : q.first_packet ≤ n
    in_slots : n - q.first_packet < length (slots q)
    at_slot : get_elem? (slots q) (n - q.first_packet) ≡ some w
    present : w.present ≡ true

  get_entry_wrapper-offset :
      (q : PacketQueue A) (n : ℕ) {w : EntryWrapper A}
      → get_entry_wrapper q n ≡ some (some w)
      → (0 < n)
        × (q.first_packet ≤ n)
        × (n - q.first_packet < len q.entries)
        × (offset q.entries (n - q.first_packet) ≡ some w)
        × (w.present ≡ true)
  unfolding get_entry_wrapper
  get_entry_wrapper-offset q n h = ground arith

  get_entry_wrapper-Found :
      (q : PacketQueue A) (n : ℕ) {w : EntryWrapper A}
      → IsValid q
      → get_entry_wrapper q n ≡ some (some w)
      → Found q n w
  get_entry_wrapper-Found q n v h =
      let (a, b, c, d, e) = get_entry_wrapper-offset q n h in
      record {
        numbered = a;
        from_first = b;
        in_slots = omega (arith, len-eq-length q.entries v.ring_valid);
        at_slot = sym (offset-eq-get_elem? q.entries (n - q.first_packet) v.ring_valid) ∙ d;
        present = e;
      }

  -- The queue after the slot is marked, before the front is cleared.
  abbrev marked : PacketQueue A → ℕ → EntryWrapper A → PacketQueue A
  marked q n w = record q {
    entries = write_at q.entries (n - q.first_packet) (record w { present = false });
    number_of_present_entries = q.number_of_present_entries - 1;
  }

  Starts-set :
      (ws : List (EntryWrapper A)) (p i : ℕ) (w : EntryWrapper A)
      → 0 < i
      → Starts ws p
      → Starts (set ws i w) p
  Starts-set [] p i w h s = s
  Starts-set (x ∷ xs) p zero w h s = absurd (omega arith)
  Starts-set (x ∷ xs) p (suc i) w h s = s

  module _ (q : PacketQueue A) (n : ℕ) {w : EntryWrapper A} (v : IsValid q) (f : Found q n w) where
    slots-marked :
        slots (marked q n w) ≡ set (slots q) (n - q.first_packet) (record w { present = false })
    slots-marked = contents-write_at q.entries (n - q.first_packet) _ v.ring_valid f.in_slots

    counted-marked : (marked q n w).number_of_present_entries ≡ count_present (slots (marked q n w))
    counted-marked = rw slots-marked (
        ground (
          arith,
          count_present-set (slots q) (n - q.first_packet) (record w { present = false }) f.at_slot,
        ))

    look-marked :
        (m : ℕ)
        → look (slots (marked q n w)) q.first_packet m
          ≡ (if m == n then none else look (slots q) q.first_packet m)
    look-marked m = rw slots-marked (
        look-set (slots q) q.first_packet n (n - q.first_packet) _ m f.in_slots
          (omega (arith, f.from_first)))

    IsValid-marked : n ≢ q.first_packet → IsValid (marked q n w)
    IsValid-marked ne = record {
      ring_valid = write_at-IsValid q.entries (n - q.first_packet) _ v.ring_valid;
      counted = counted-marked;
      starts =
          rw slots-marked
            (Starts-set (slots q) q.first_packet _ _ (omega (arith, f.from_first)) v.starts);
    }

    Cleared-marked :
        (z : A) → n ≡ q.first_packet → Cleared (marked q n w) (clearup z (marked q n w))
    Cleared-marked z e =
        clearup-Cleared z (marked q n w)
          (write_at-IsValid q.entries (n - q.first_packet) _ v.ring_valid) counted-marked
          (inl (omega (arith, f.numbered)))

  -- The new queue and the entry handed to the callback.
  remove-none :
      (z : A) (q : PacketQueue A) (n : ℕ)
      → get_entry_wrapper q n ≡ some none
      → (remove z q n ≡ some (q, none)) × (get_entry q n ≡ some none)
  unfolding remove get_entry
  remove-none z q n e = (ground arith, ground arith)

  remove-some :
      (z : A) (q : PacketQueue A) (n : ℕ) {w : EntryWrapper A}
      → get_entry_wrapper q n ≡ some (some w)
      → (remove z q n
          ≡ some (
            (if n == q.first_packet then clearup z (marked q n w) else marked q n w),
            some w.entry,
          ))
        × (get_entry q n ≡ some (some w.entry))
  unfolding remove get_entry
  remove-some z q n e = (ground arith, ground arith)

  -- What `Remove` promises of the queue and the entry that it leaves.
  abbrev pub Removed : PacketQueue A → ℕ → PacketQueue A × Option A → Type 0
  Removed q n (q', handed) =
      IsValid q'
      × (get_entry q n ≡ some handed)
      × ((m : ℕ) → get_entry q' m ≡ (if m == n then some none else get_entry q m))

  same_if :
      (b : Bool) {x : Option (Option A)}
      → (b ≡ true → x ≡ some none)
      → x ≡ (if b then some none else x)
  same_if true h = h refl
  same_if false h = refl

  module _ (q : PacketQueue A) (n : ℕ) (v : IsValid q) {w : EntryWrapper A} (f : Found q n w) where
    Removed-kept :
        (q' : PacketQueue A)
        → get_entry q n ≡ some (some w.entry)
        → Cleared (marked q n w) q'
        → Removed q n (q', some w.entry)
    Removed-kept q' g c = (
      c.0,
      g,
      λ m.
          get_entry-eq-look q' m c.0
          ∙ ap some (c.1 m ∙ look-marked q n v f m)
          ∙ some_if (m == n) none (look (slots q) q.first_packet m)
          ∙ ap (λ o. if m == n then some none else o) (sym (get_entry-eq-look q m v)),
    )

    Removed-found :
        (z : A)
        → get_entry q n ≡ some (some w.entry)
        → Removed q n
            ((if n == q.first_packet then clearup z (marked q n w) else marked q n w), some w.entry)
    Removed-found z g = elim (Bool-cases (n == q.first_packet)) [
      | inl e ↦ rw e (Removed-kept _ g (Cleared-marked q n v f z ((==_iff n q.first_packet).0 e)))
      | inr e ↦ rw e (Removed-kept _ g (IsValid-marked q n v f (ground arith), λ m. refl))
    ]

  -- What `getEntryWraper` of a well-formed queue returns.
  wrapper-cases :
      (q : PacketQueue A) (n : ℕ)
      → IsValid q
      → (get_entry_wrapper q n ≡ some none)
        ⊎ ((w : EntryWrapper A) × (get_entry_wrapper q n ≡ some (some w)))
  unfolding get_entry
  wrapper-cases q n v = elim (Option-cases (get_entry_wrapper q n)) [
    | inl e ↦ absurd (cc (e, rw (e, get_entry) at (get_entry-eq-look q n v)))
    | inr (p, e) ↦ elim (Option-cases p) [
      | inl f ↦ inl (e ∙ ap some f)
      | inr (w, f) ↦ inr (w, e ∙ ap some f)
    ]
  ]

  -- `Remove` does not panic; it keeps the queue well formed, hands the entry of that packet number to the
  -- callback (and returns false when there is none), and takes that entry, and no other, out of the queue.
  pub remove-Removed :
      (z : A) (q : PacketQueue A) (n : ℕ)
      → IsValid q
      → (result : PacketQueue A × Option A) × (remove z q n ≡ some result) × Removed q n result
  remove-Removed z q n v = elim (wrapper-cases q n v) [
    | inl e ↦
        let (r, g) = remove-none z q n e in
        ((q, none), r, (v, g, λ m. same_if (m == n) (λ h. ap (get_entry q) ((==_iff m n).0 h) ∙ g)))
    | inr (w, e) ↦
        let (r, g) = remove-some z q n e in
        (_, r, Removed-found q n v (get_entry_wrapper-Found q n v e) z g)
  ]
