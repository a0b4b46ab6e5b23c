-- ===== src/Congestion/PacketQueue/Emplace.antt =====
-- `Emplace` against the packet numbers that the queue holds.
use native.Mathlib.Decide.{dec_lt, ℕ_discrete}
use telekit.Common.{
  ℕ, zero, suc, ◌+◌, ◌-◌, ◌≤◌, ◌<◌, ◌≡◌, ◌≢◌, ◌∙◌, Bool, true, false, ◌&&◌, none, some, List, [],
  ◌∷◌, ◌++◌, ◌==◌, ltb, if◌then◌else◌, arith, length, replicate, refl, ap, sym, ◌⊎◌, inl, inr,
  Bool-cases, append-nil, append_assoc, length-append, length-replicate,
}
use telekit.Congestion.Ring.{RingBuffer, push_back, len}
use telekit.Congestion.Ring.Contents.{contents, len-eq-length, init-IsValid}
use telekit.Congestion.Ring.Contents
use telekit.Congestion.Ring.Push.{push_back_lem}
use telekit.Congestion.PacketQueue.{
  EntryWrapper, PacketQueue, blank, new, push_blanks, is_empty, last_packet, get_entry, emplace,
}
use telekit.Congestion.PacketQueue.Slots.{
  slots, some_if, look, look-ge, look-append, count_present, count_present-append, Starts, IsValid,
}
use telekit.Congestion.PacketQueue.Lookup.{get_entry-eq-look, slots-nil, slots-some}

module _ {A : Type 0} (z : A) where
  -- A new queue is well formed and holds nothing.
  pub new-IsValid : (size m : ℕ) → IsValid (new z size) × (get_entry (new z size) m ≡ some none)
  unfolding new
  new-IsValid size m =
      let (v, e) = init-IsValid (blank z) size in
      let valid : IsValid (new z size) = record {
        ring_valid = v;
        counted = rw e refl;
        starts = rw e refl;
      } in
      (valid, get_entry-eq-look (new z size) m valid ∙ ap (λ ws. some (look ws 0 m)) e)

  push_blanks_lem :
      (k : ℕ) (r : RingBuffer (EntryWrapper A))
      → Contents.IsValid r
      → Contents.IsValid (push_blanks z k r)
        × (contents (push_blanks z k r) ≡ contents r ++ replicate k (blank z))
  unfolding push_blanks
  push_blanks_lem zero r v = (v, sym (append-nil (contents r)))
  push_blanks_lem (suc k) r v =
      let (v', e) = push_back_lem (blank z) r (blank z) v in
      let (v'', e') = push_blanks_lem k (push_back (blank z) r (blank z)) v' in
      (
        v'',
        e'
            ∙ ap (λ xs. xs ++ replicate k (blank z)) e
            ∙ append_assoc (contents r) (blank z ∷ []) (replicate k (blank z)),
      )

  look-blanks : (k p m : ℕ) → look (replicate k (blank z)) p m ≡ none
  look-blanks zero p m = refl
  look-blanks (suc k) p m = ground (arith, look-blanks k (p + 1) m)

  count-blanks : (k : ℕ) → count_present (replicate k (blank z)) ≡ 0
  count-blanks zero = refl
  count-blanks (suc k) = omega (arith, count-blanks k)

  abbrev fresh : A → EntryWrapper A
  fresh e = record { present = true; entry = e }

  -- Slots, then missing ones up to number `n`, then the entry of number `n`.
  look-fresh :
      (ws : List (EntryWrapper A)) (p k n m : ℕ) (e : A)
      → n ≡ p + length ws + k
      → look ((ws ++ replicate k (blank z)) ++ fresh e ∷ []) p m
        ≡ (if m == n then some e else look ws p m)
  look-fresh ws p k n m e h = ground (
    arith,
    look-append (ws ++ replicate k (blank z)) (fresh e ∷ []) p n m,
    length-append ws (replicate k (blank z)),
    length-replicate k (blank z),
    look-append ws (replicate k (blank z)) p (p + length ws) m,
    look-blanks k (p + length ws) m,
    look-ge ws p m,
  )

  count-fresh :
      (ws : List (EntryWrapper A)) (k : ℕ) (e : A)
      → count_present ((ws ++ replicate k (blank z)) ++ fresh e ∷ []) ≡ count_present ws + 1
  count-fresh ws k e = omega (
    arith,
    count_present-append (ws ++ replicate k (blank z)) (fresh e ∷ []),
    count_present-append ws (replicate k (blank z)),
    count-blanks k,
  )

  Starts-append :
      (ws vs : List (EntryWrapper A)) (p : ℕ) → 0 < length ws → Starts ws p → Starts (ws ++ vs) p
  Starts-append [] vs p h s = absurd (omega arith)
  Starts-append (w ∷ ws) vs p h s = s

  -- What `Emplace` promises of the queue and the result that it leaves.
  pub record Emplaced (q : PacketQueue A) (n : ℕ) (e : A) (result : PacketQueue A × Bool)
      : Type 0 where
    pub valid : IsValid result.0
    pub done : result.1 ≡ ltb (last_packet q) n
    pub entries :
        (m : ℕ)
        → get_entry result.0 m ≡ (if result.1 && m == n then some (some e) else get_entry q m)

  module _ (q : PacketQueue A) (n : ℕ) (e : A) (v : IsValid q) where
    emplace-refused :
        (n ≡ 0) ⊎ ((is_empty q ≡ false) × (n ≤ last_packet q)) → emplace z q n (some e) ≡ (q, false)
    unfolding emplace
    emplace-refused h = ground arith

    abbrev first_in : PacketQueue A
    first_in = record {
      entries = push_back (blank z) q.entries (fresh e);
      number_of_present_entries = 1;
      first_packet = n;
    }

    emplace-first : n ≢ 0 → is_empty q ≡ true → emplace z q n (some e) ≡ (first_in, true)
    unfolding emplace
    emplace-first h k = ground arith

    abbrev appended : PacketQueue A
    appended = record q {
      entries =
          push_back (blank z) (push_blanks z (n - q.first_packet - len q.entries) q.entries)
            (fresh e);
      number_of_present_entries = q.number_of_present_entries + 1;
    }

    emplace-appended :
        n ≢ 0 → is_empty q ≡ false → last_packet q < n → emplace z q n (some e) ≡ (appended, true)
    unfolding emplace
    emplace-appended h k l = ground arith

    last_packet-empty : is_empty q ≡ true → last_packet q ≡ 0
    unfolding last_packet
    last_packet-empty h = rw h

    last_packet-some : is_empty q ≡ false → last_packet q ≡ q.first_packet + length (slots q) - 1
    unfolding last_packet
    last_packet-some h = rw h (omega (arith, len-eq-length q.entries v.ring_valid))

    slots-first_in : is_empty q ≡ true → slots first_in ≡ fresh e ∷ []
    slots-first_in h =
        (push_back_lem (blank z) q.entries (fresh e) v.ring_valid).1
        ∙ ap (λ ws. ws ++ fresh e ∷ []) (slots-nil q v h)

    first_in-IsValid : n ≢ 0 → is_empty q ≡ true → IsValid first_in
    first_in-IsValid ne h = record {
      ring_valid = (push_back_lem (blank z) q.entries (fresh e) v.ring_valid).0;
      counted = rw (slots-first_in h) refl;
      starts = rw (slots-first_in h) (refl, omega arith);
    }

    -- The number of slots missing between the last one and the new one.
    abbrev gap : ℕ
    gap = n - q.first_packet - len q.entries

    slots-appended : slots appended ≡ (slots q ++ replicate gap (blank z)) ++ fresh e ∷ []
    slots-appended =
        let (valid, same) = push_blanks_lem gap q.entries v.ring_valid in
        (push_back_lem (blank z) (push_blanks z gap q.entries) (fresh e) valid).1
        ∙ ap (λ ws. ws ++ fresh e ∷ []) same

    appended-IsValid : is_empty q ≡ false → IsValid appended
    appended-IsValid h = record {
      ring_valid =
          (push_back_lem (blank z) (push_blanks z gap q.entries) (fresh e)
            (push_blanks_lem gap q.entries v.ring_valid).0).0;
      counted = rw slots-appended (omega (arith, count-fresh (slots q) gap e, v.counted));
      starts =
          rw (slots-appended, append_assoc (slots q) (replicate gap (blank z)) (fresh e ∷ []))
            (Starts-append (slots q) _ q.first_packet (slots-some q v h) v.starts);
    }

    get-first_in :
        n ≢ 0
        → is_empty q ≡ true
        → (m : ℕ) → get_entry first_in m ≡ (if m == n then some (some e) else get_entry q m)
    get-first_in ne h m =
        get_entry-eq-look first_in m (first_in-IsValid ne h)
        ∙ ap (λ ws. some (look ws n m)) (slots-first_in h)
        ∙ some_if (m == n) (some e) none
        ∙ ap (λ o. if m == n then some (some e) else o)
            (sym (
              get_entry-eq-look q m v
              ∙ ap (λ ws. some (look ws q.first_packet m)) (slots-nil q v h)))

    get-appended :
        is_empty q ≡ false
        → last_packet q < n
        → (m : ℕ) → get_entry appended m ≡ (if m == n then some (some e) else get_entry q m)
    get-appended h l m =
        get_entry-eq-look appended m (appended-IsValid h)
        ∙ ap (λ ws. some (look ws q.first_packet m)) slots-appended
        ∙ ap some (
            look-fresh (slots q) q.first_packet gap n m e (
              omega (
                arith,
                last_packet-some h,
                len-eq-length q.entries v.ring_valid,
                slots-some q v h,
              )))
        ∙ some_if (m == n) (some e) (look (slots q) q.first_packet m)
        ∙ ap (λ o. if m == n then some (some e) else o) (sym (get_entry-eq-look q m v))

    Emplaced-done :
        (q' : PacketQueue A)
        → last_packet q < n
        → IsValid q'
        → ((m : ℕ) → get_entry q' m ≡ (if m == n then some (some e) else get_entry q m))
        → Emplaced q n e (q', true)
    Emplaced-done q' l v' g = record { valid = v'; done = ground arith; entries = g }

    -- `Emplace` with an entry keeps the queue well formed; it returns true exactly for a packet number
    -- past the last one, then that number holds the entry and all others are as before; when it
    -- returns false the entries are as before.
    pub emplace-Emplaced : Emplaced q n e (emplace z q n (some e))
    emplace-Emplaced = elim (ℕ_discrete n 0) [
      | yes a ↦
          rw (emplace-refused (inl a))
            (record { valid = v; done = ground arith; entries = λ m. refl })
      | no a ↦ elim (Bool-cases (is_empty q)) [
        | inl h ↦ rw (emplace-first a h) (
            Emplaced-done first_in (omega (arith, last_packet-empty h)) (first_in-IsValid a h)
              (get-first_in a h))
        | inr h ↦ elim (dec_lt (last_packet q) n) [
          | yes l ↦
              rw (emplace-appended a h l)
                (Emplaced-done appended l (appended-IsValid h) (get-appended h l))
          | no l ↦
              rw (emplace-refused (inr (h, omega arith)))
                (record { valid = v; done = ground arith; entries = λ m. refl })
        ]
      ]
    ]
