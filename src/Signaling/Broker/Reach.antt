-- ===== src/Signaling/Broker/Reach.antt =====
-- A broadcast reaches everyone in the room of that name.
use telekit.Common.{
  ℕ, ◌≡◌, ◌≢◌, inl, inr, refl, ap, sym, ◌∙◌, true, false, ◌||◌, Option, none, some, List, [], ◌∷◌,
  ◌==◌, length, get_elem?, set, arith, Bool-cases, Option-cases,
}
use telekit.Common.Entries.{lookup, insert, lookup-insert_self, lookup-insert_ne, lookup-remove_ne}
use telekit.Common.Places.{get_elem?-set_cases, get_elem?-added}
use telekit.Signaling.Broker.Rooms.{
  RoomState, Rooms, new_room, ensure_room, add, remove_client, without_client, leads_to, forget,
  targets, Step, ensure, enter, leave, drop, step, run,
}

-- An open room is the one that its name leads to, and a closed one is empty.
pub record IsOrdered (s : Rooms) : Type 0 where
  pub open_current :
      (i : ℕ) (r : RoomState)
      → get_elem? s.all i ≡ some r
      → r.closed ≡ false
      → lookup r.room_id s.rooms ≡ some i
  pub closed_empty :
      (i : ℕ) (r : RoomState) → get_elem? s.all i ≡ some r → r.closed ≡ true → r.clients ≡ []

leads_to_eq : (o : Option ℕ) (i : ℕ) → leads_to o i ≡ true → o ≡ some i
leads_to_eq none i e = cc
leads_to_eq (some p) i e = ap some (ground arith)

ensure_room-IsOrdered : (s : Rooms) (id : ℕ) → IsOrdered s → IsOrdered (ensure_room s id).0
unfolding ensure_room
ensure_room-IsOrdered s id v = elim (Option-cases (lookup id s.rooms)) [
  | inr (i, e) ↦ rw (e, ensure_room) v
  | inl e ↦
      rw (e, ensure_room)
        (record {
          open_current = λ i r f g. elim (get_elem?-added s.all (new_room id) i f) [
            | inl (a, b) ↦
                ap (λ x. lookup x.room_id (insert id (length s.all) s.rooms)) b
                ∙ lookup-insert_self id (length s.all) s.rooms
                ∙ ap some (sym a)
            | inr (a, b) ↦
                let old = v.open_current i r b g in
                lookup-insert_ne id r.room_id (length s.all) s.rooms
                  (λ h. cc (e, old, ap (λ x. lookup x s.rooms) h))
                ∙ old
          ];
          closed_empty = λ i r f g. elim (get_elem?-added s.all (new_room id) i f) [
            | inl (a, b) ↦ absurd (cc (g, ap (λ x. x.closed) b))
            | inr (a, b) ↦ v.closed_empty i r b g
          ];
        })
]

-- One room changes, and does not open again.
change-IsOrdered :
    (s : Rooms) (i : ℕ) (r r' : RoomState)
    → IsOrdered s
    → get_elem? s.all i ≡ some r
    → r'.room_id ≡ r.room_id
    → (r'.closed ≡ false → r.closed ≡ false)
    → (r'.closed ≡ true → r'.clients ≡ [])
    → IsOrdered (record s { all = set s.all i r' })
change-IsOrdered s i r r' v e n o k = record {
  open_current = λ j x f g. elim (get_elem?-set_cases s.all i j r' e f) [
    | inl (a, b) ↦
        ap (λ y. lookup y.room_id s.rooms) b
        ∙ ap (λ y. lookup y s.rooms) n
        ∙ v.open_current i r e (o (sym (ap (λ y. y.closed) b) ∙ g))
        ∙ ap some (sym a)
    | inr (a, b) ↦ v.open_current j x b g
  ];
  closed_empty = λ j x f g. elim (get_elem?-set_cases s.all i j r' e f) [
    | inl (a, b) ↦ ap (λ y. y.clients) b ∙ k (sym (ap (λ y. y.closed) b) ∙ g)
    | inr (a, b) ↦ v.closed_empty j x b g
  ];
}

add-IsOrdered : (s : Rooms) (i client : ℕ) → IsOrdered s → IsOrdered (add s i client).0
unfolding add
add-IsOrdered s i client v = elim (Option-cases (get_elem? s.all i)) [
  | inl e ↦ rw (e, add) v
  | inr (r, e) ↦ elim (Bool-cases r.closed) [
    | inl f ↦ rw (e, f, add) v
    | inr f ↦
        rw (e, f, add)
          (change-IsOrdered s i r (record r { clients = client ∷ without_client client r.clients })
            v e refl (λ g. g) (λ g. absurd (cc (f, g))))
  ]
]

remove_client-IsOrdered :
    (s : Rooms) (i client : ℕ) → IsOrdered s → IsOrdered (remove_client s i client).0
unfolding remove_client
remove_client-IsOrdered s i client v = elim (Option-cases (get_elem? s.all i)) [
  | inl e ↦ rw (e, remove_client) v
  | inr (r, e) ↦
      let clients = without_client client r.clients in
      rw (e, remove_client)
        (change-IsOrdered s i r
          (record r { clients = clients; closed = r.closed || (length clients == 0) }) v e refl
          (λ g. ground (arith, g)) (λ g. emptied r client (v.closed_empty i r e) g))
]
  where
    none_left : (cs : List ℕ) → (length cs == 0) ≡ true → cs ≡ []
    none_left [] e = refl
    none_left (c ∷ cs) e = absurd (ground (arith, e))

    emptied :
        (r : RoomState) (k : ℕ)
        → (r.closed ≡ true → r.clients ≡ [])
        → (r.closed || (length (without_client k r.clients) == 0)) ≡ true
        → without_client k r.clients ≡ []
    emptied r k h g = elim (Bool-cases r.closed) [
      | inl f ↦ ap (without_client k) (h f)
      | inr f ↦ none_left (without_client k r.clients) (ground (arith, f, g))
    ]

forget-IsOrdered :
    (s : Rooms) (i : ℕ) (r : RoomState)
    → IsOrdered s
    → get_elem? s.all i ≡ some r
    → r.closed ≡ true
    → IsOrdered (forget s r.room_id i)
unfolding forget
forget-IsOrdered s i r v e k = elim (Bool-cases (leads_to (lookup r.room_id s.rooms) i)) [
  | inr f ↦ rw (f, forget) v
  | inl f ↦
      rw (f, forget)
        (record {
          open_current = λ j x g h.
              let old = v.open_current j x g h in
              let there = leads_to_eq (lookup r.room_id s.rooms) i f in
              lookup-remove_ne r.room_id x.room_id s.rooms
                (λ m. other j x g h (cc (old, there, ap (λ y. lookup y s.rooms) m)))
              ∙ old;
          closed_empty = v.closed_empty;
        })
]
  where
    other : (j : ℕ) (x : RoomState) → get_elem? s.all j ≡ some x → x.closed ≡ false → j ≢ i
    other j x g h m =
        let whole : some x ≡ some r = sym g ∙ ap (get_elem? s.all) m ∙ e in cc (h, k, whole)

step-IsOrdered : (s : Rooms) (x : Step) → IsOrdered s → IsOrdered (step s x)
unfolding step
step-IsOrdered s (ensure id) v = ensure_room-IsOrdered s id v
step-IsOrdered s (enter i client) v = add-IsOrdered s i client v
step-IsOrdered s (leave i client) v = remove_client-IsOrdered s i client v
step-IsOrdered s (drop i) v = elim (Option-cases (get_elem? s.all i)) [
  | inl e ↦ rw (e, step) v
  | inr (r, e) ↦ elim (Bool-cases r.closed) [
    | inr f ↦ rw (e, f, step) v
    | inl f ↦ rw (e, f, step) (forget-IsOrdered s i r v e f)
  ]
]

run-IsOrdered : (xs : List Step) (s : Rooms) → IsOrdered s → IsOrdered (run s xs)
unfolding run
run-IsOrdered [] s v = v
run-IsOrdered (x ∷ xs) s v = run-IsOrdered xs (step s x) (step-IsOrdered s x v)

abbrev pub no_rooms : Rooms
no_rooms = record { rooms = []; all = [] }

-- Through any steps from a broker's start on, a broadcast to the name of a room with clients reaches exactly
-- the clients of that room: all clients of one name are in one room, and none is left in a room that was
-- replaced.
pub targets-run :
    (xs : List Step) (i : ℕ) (r : RoomState)
    → get_elem? (run no_rooms xs).all i ≡ some r
    → r.clients ≢ []
    → targets (run no_rooms xs) r.room_id ≡ r.clients
unfolding targets
targets-run xs i r e n =
    let v =
      run-IsOrdered xs no_rooms
        (record { open_current = λ i r e f. cc; closed_empty = λ i r e f. cc }) in
    elim (Bool-cases r.closed) [
      | inl f ↦ absurd (n (v.closed_empty i r e f))
      | inr f ↦ rw (v.open_current i r e f, e, targets) refl
    ]
