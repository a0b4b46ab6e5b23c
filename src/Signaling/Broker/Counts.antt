-- ===== src/Signaling/Broker/Counts.antt =====
-- `reserve` and `release`: how many connections a room and an address have. A connection releases what it
-- reserved, once.
use telekit.Common.{
  ℕ, suc, ◌+◌, ◌-◌, ◌≡◌, refl, ap, ◌∙◌, Bool, true, false, ◌&&◌, ◌||◌, Option, none, some, List, [],
  ◌∷◌, ◌==◌, leb, if◌then◌else◌, arith, inl, inr, Bool-cases, Option-cases,
}
use telekit.Common.Entries.{
  Directory, lookup, insert, remove, lookup-insert_self, lookup-insert_ne, lookup-remove_self,
  lookup-remove_ne,
}

pub record Counts : Type 0 where
  pub room_counts : Directory
  pub ip_counts : Directory
  pub connections_per_room : ℕ
  pub connections_per_ip : ℕ

-- The maps and limits of `NewBroker`.
unfoldable pub new_counts : ℕ → ℕ → Counts
new_counts per_room per_ip = record {
  room_counts = [];
  ip_counts = [];
  connections_per_room = per_room;
  connections_per_ip = per_ip;
}

-- The count that `Get` reads, 0 when it is missing.
abbrev pub got : Option ℕ → ℕ
got none = 0
got (some n) = n

unfoldable pub reserve : Counts → ℕ → ℕ → Counts × Bool
reserve c room ip =
    let room_count = got (lookup room c.room_counts) in
    let ip_count = got (lookup ip c.ip_counts) in
    if leb c.connections_per_room room_count || leb c.connections_per_ip ip_count
    then (c, false)
    else (
      record c {
        room_counts = insert room (room_count + 1) c.room_counts;
        ip_counts = insert ip (ip_count + 1) c.ip_counts;
      },
      true,
    )

unfoldable pub lower : ℕ → Directory → Directory
lower id d = elim (lookup id d) [
  | none ↦ d
  | some n ↦ if leb n 1 then remove id d else insert id (n - 1) d
]

unfoldable pub release : Counts → ℕ → ℕ → Counts
release c room ip = record c {
  ip_counts = lower ip c.ip_counts;
  room_counts = lower room c.room_counts;
}

-- The entry that stands for a count: none for 0.
abbrev pub shown : ℕ → Option ℕ
shown n = if n == 0 then none else some n

abbrev pub one : Bool → ℕ
one true = 1
one false = 0

-- A map shows the numbers of a function.
abbrev pub Shows : Directory → (ℕ → ℕ) → Type 0
Shows d g = (id : ℕ) → lookup id d ≡ shown (g id)

pub got-shown : (n : ℕ) → got (shown n) ≡ n
got-shown n = ground arith

pub raised-Shows :
    (k : ℕ) (d : Directory) (g : ℕ → ℕ)
    → Shows d g
    → Shows (insert k (got (lookup k d) + 1) d) (λ id. one (k == id) + g id)
raised-Shows k d g v id = elim (Bool-cases (k == id)) [
  | inl e ↦
      let same : k ≡ id = ground arith in
      rw e (ground (arith, ap got (v k) ∙ got-shown (g k), ap g same))
  | inr e ↦ rw e (lookup-remove_ne k id d (λ h. ground (arith, h)) ∙ v id ∙ ground arith)
]

lower_self :
    (k : ℕ) (d : Directory) (n : ℕ) → lookup k d ≡ some (suc n) → lookup k (lower k d) ≡ shown n
unfolding lower
lower_self k d n e =
    rw (e, lower)
      (elim (Bool-cases (leb (suc n) 1)) [
        | inl f ↦ rw f (lookup-remove_self k d ∙ ground arith)
        | inr f ↦ rw f (lookup-insert_self k (suc n - 1) d ∙ ground arith)
      ])

lower_other : (k id : ℕ) (d : Directory) → (k == id) ≡ false → lookup id (lower k d) ≡ lookup id d
unfolding lower
lower_other k id d e = elim (Option-cases (lookup k d)) [
  | inl f ↦ rw (f, lower) refl
  | inr (n, f) ↦
      rw (f, lower)
        (elim (Bool-cases (leb n 1)) [
          | inl g ↦ rw g (lookup-remove_ne k id d (λ h. ground (arith, h)))
          | inr g ↦ rw g (lookup-insert_ne k id (n - 1) d (λ h. ground (arith, h)))
        ])
]

pub lowered-Shows :
    (k : ℕ) (d : Directory) (g h : ℕ → ℕ)
    → Shows d g
    → ((id : ℕ) → g id ≡ one (k == id) + h id)
    → Shows (lower k d) h
lowered-Shows k d g h v w id = elim (Bool-cases (k == id)) [
  | inr e ↦ lower_other k id d e ∙ v id ∙ ap shown (w id ∙ ap (λ b. one b + h id) e ∙ omega arith)
  | inl e ↦
      let same : k ≡ id = ground arith in
      let more : g id ≡ suc (h id) = w id ∙ ap (λ b. one b + h id) e ∙ omega arith in
      ap (λ i. lookup id (lower i d)) same
      ∙ lower_self id d (h id) (v id ∙ ap shown more ∙ ground arith)
]

-- The connections that hold a reservation, each with its room and its address.
abbrev pub Member : Type 0
Member = ℕ × ℕ

abbrev pub in_room : ℕ → List Member → ℕ
in_room id [] = 0
in_room id ((room, ip) ∷ ms) = one (room == id) + in_room id ms

abbrev pub at_ip : ℕ → List Member → ℕ
at_ip id [] = 0
at_ip id ((room, ip) ∷ ms) = one (ip == id) + at_ip id ms

abbrev same_member : Member → Member → Bool
same_member (room, ip) (room', ip') = room == room' && ip == ip'

-- One connection less, when there is one of that room and address.
abbrev pub without : Member → List Member → Option (List Member)
without m [] = none
without m (x ∷ ms) =
    if same_member x m
    then some ms
    else (elim (without m ms) [ none ↦ none | some rest ↦ some (x ∷ rest) ])

pub without-counts :
    (room ip : ℕ) (ms rest : List Member)
    → without (room, ip) ms ≡ some rest
    → (id : ℕ)
    → (in_room id ms ≡ one (room == id) + in_room id rest)
      × (at_ip id ms ≡ one (ip == id) + at_ip id rest)
without-counts room ip [] rest e id = cc
without-counts room ip ((r, i) ∷ ms) rest e id = elim (Bool-cases (same_member (r, i) (room, ip))) [
  | inl f ↦
      let g : some ms ≡ some rest = rw f at e in
      let h : ms ≡ rest = cc in
      let a : r ≡ room = ground arith in
      let b : i ≡ ip = ground arith in
      (
        ap (λ x. one (x == id) + in_room id ms) a ∙ ap (λ xs. one (room == id) + in_room id xs) h,
        ap (λ x. one (x == id) + at_ip id ms) b ∙ ap (λ xs. one (ip == id) + at_ip id xs) h,
      )
  | inr f ↦ elim (Option-cases (without (room, ip) ms)) [
    | inl n ↦ absurd (cc (rw (f, n) at e))
    | inr (less, n) ↦
        let g : some ((r, i) ∷ less) ≡ some rest = rw (f, n) at e in
        let h : (r, i) ∷ less ≡ rest = cc in
        let (a, b) = without-counts room ip ms less n id in
        (
          ap (λ k. one (r == id) + k) a
              ∙ omega arith
              ∙ ap (λ xs. one (room == id) + in_room id xs) h,
          ap (λ k. one (i == id) + k) b ∙ omega arith ∙ ap (λ xs. one (ip == id) + at_ip id xs) h,
        )
  ]
]
