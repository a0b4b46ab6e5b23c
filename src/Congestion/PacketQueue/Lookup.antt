-- ===== src/Congestion/PacketQueue/Lookup.antt =====
-- `GetEntry`, `IsEmpty` and `LastPacket` of a well-formed queue, read off its slots.
use native.Mathlib.Decide.{dec_lt, ℕ_discrete}
use telekit.Common.{
  ℕ, ◌+◌, ◌-◌, ◌≤◌, ◌<◌, ◌≡◌, ◌≢◌, ◌∙◌, true, false, none, some, List, [], ◌∷◌, arith, length, refl,
  ap, sym, ◌⊎◌, inl, inr, Bool-cases, get_elem?-lt,
}
use telekit.Congestion.Ring.{offset, len}
use telekit.Congestion.Ring.Contents.{len-eq-length}
use telekit.Congestion.Ring.Access.{offset-eq-get_elem?}
use telekit.Congestion.PacketQueue.{
  EntryWrapper, PacketQueue, is_empty, get_entry, get_entry_wrapper,
}
use telekit.Congestion.PacketQueue.Slots.{
  slots, look, look-lt, look-ge, look-eq-get_elem?, value?, count_present, Starts, IsValid,
}

module _ {A : Type 0} where
  nil_of_count : (ws : List (EntryWrapper A)) (p : ℕ) → Starts ws p → count_present ws ≡ 0 → ws ≡ []
  nil_of_count [] p s c = refl
  nil_of_count (w ∷ ws) p s c = absurd (ground arith)

  look-zero : (ws : List (EntryWrapper A)) (p : ℕ) → Starts ws p → look ws p 0 ≡ none
  look-zero [] p s = refl
  look-zero (w ∷ ws) p s = look-lt (w ∷ ws) p 0 s.1

  count_of_present :
      (ws : List (EntryWrapper A)) (p : ℕ) → Starts ws p → 0 < length ws → 0 < count_present ws
  count_of_present [] p s h = absurd (omega arith)
  count_of_present (w ∷ ws) p s h = ground arith

  some_of_count : (ws : List (EntryWrapper A)) → 0 < count_present ws → 0 < length ws
  some_of_count [] h = h
  some_of_count (w ∷ ws) h = omega arith

  -- A well-formed queue is empty exactly when it uses no slot.
  pub slots-nil : (q : PacketQueue A) → IsValid q → is_empty q ≡ true → slots q ≡ []
  unfolding is_empty
  slots-nil q v h = nil_of_count (slots q) q.first_packet v.starts (ground arith)

  pub slots-some : (q : PacketQueue A) → IsValid q → is_empty q ≡ false → 0 < length (slots q)
  unfolding is_empty
  slots-some q v h = some_of_count (slots q) (ground arith)

  pub offset-value :
      (q : PacketQueue A) (i : ℕ)
      → IsValid q
      → value? (offset q.entries i) ≡ look (slots q) q.first_packet (q.first_packet + i)
  offset-value q i v =
      ap value? (offset-eq-get_elem? q.entries i v.ring_valid)
      ∙ sym (look-eq-get_elem? (slots q) q.first_packet (q.first_packet + i) i refl)

  get_entry-in :
      (q : PacketQueue A) (n : ℕ) {w : EntryWrapper A}
      → n ≢ 0
      → is_empty q ≡ false
      → q.first_packet ≤ n
      → n - q.first_packet < len q.entries
      → offset q.entries (n - q.first_packet) ≡ some w
      → get_entry q n ≡ some (value? (some w))
  unfolding get_entry get_entry_wrapper
  get_entry-in q n {w} h e p l o = elim (Bool-cases w.present) [
    | inl f ↦ ground (arith, f)
    | inr f ↦ ground (arith, f)
  ]

  get_entry-past :
      (q : PacketQueue A) (n : ℕ) → len q.entries ≤ n - q.first_packet → get_entry q n ≡ some none
  unfolding get_entry get_entry_wrapper
  get_entry-past q n l = ground arith

  get_entry-before : (q : PacketQueue A) (n : ℕ) → n < q.first_packet → get_entry q n ≡ some none
  unfolding get_entry get_entry_wrapper
  get_entry-before q n l = ground arith

  get_entry-invalid :
      (q : PacketQueue A) (n : ℕ) → (n ≡ 0) ⊎ (is_empty q ≡ true) → get_entry q n ≡ some none
  unfolding get_entry get_entry_wrapper
  get_entry-invalid q n l = ground arith

  -- A slot below `Len` is there, so that `Offset` does not panic.
  offset-some :
      (q : PacketQueue A) (i : ℕ)
      → IsValid q
      → i < len q.entries
      → (w : EntryWrapper A) × (offset q.entries i ≡ some w)
  offset-some q i v l =
      let (w, e) = get_elem?-lt (slots q) i (omega (arith, len-eq-length q.entries v.ring_valid)) in
      (w, offset-eq-get_elem? q.entries i v.ring_valid ∙ e)

  -- `GetEntry` of a well-formed queue does not panic, and reads the present entry in the slot that has that
  -- packet number, or nil when there is none.
  pub get_entry-eq-look :
      (q : PacketQueue A) (n : ℕ)
      → IsValid q
      → get_entry q n ≡ some (look (slots q) q.first_packet n)
  get_entry-eq-look q n v = elim (ℕ_discrete n 0) [
    | yes e ↦
        get_entry-invalid q n (inl e)
        ∙ ap some (rw e (sym (look-zero (slots q) q.first_packet v.starts)))
    | no ne ↦ elim (Bool-cases (is_empty q)) [
      | inl e ↦
          get_entry-invalid q n (inr e)
          ∙ ap (λ ws. some (look ws q.first_packet n)) (sym (slots-nil q v e))
      | inr e ↦ elim (dec_lt n q.first_packet) [
        | yes b ↦ get_entry-before q n b ∙ ap some (sym (look-lt (slots q) q.first_packet n b))
        | no b ↦ elim (dec_lt (n - q.first_packet) (len q.entries)) [
          | yes l ↦
              let (w, o) = offset-some q (n - q.first_packet) v l in
              get_entry-in q n ne e (omega arith) l o
              ∙ ap some (
                  ap value? (sym o)
                  ∙ offset-value q (n - q.first_packet) v
                  ∙ ap (λ k. look (slots q) q.first_packet k) (omega arith))
          | no l ↦
              get_entry-past q n (omega arith)
              ∙ ap some (
                  sym (
                    look-ge (slots q) q.first_packet n
                      (omega (arith, len-eq-length q.entries v.ring_valid))))
        ]
      ]
    ]
  ]
