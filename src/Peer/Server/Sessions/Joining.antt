-- ===== src/Peer/Server/Sessions/Joining.antt =====
-- A hello keeps what holds of the connections, whatever becomes of it.
use telekit.Common.{
  ℕ, ◌+◌, ◌-◌, ◌≤◌, ◌<◌, ◌≡◌, ◌≢◌, ◌⊎◌, inl, inr, refl, ap, sym, subst, ◌∙◌, Bool, true, false, not,
  Option, none, some, [], ◌∷◌, ◌++◌, ◌==◌, leb, if◌then◌else◌, length, arith, Bool-cases,
  get_elem?-append_left,
}
use telekit.Common.Entries.{lookup, insert, lookup-insert_self, lookup-insert_ne}
use telekit.Common.Places.{get_elem?-some, get_elem?-added, get_elem?-last}
use telekit.Peer.Server.Sessions.Counts.{count-append}
use telekit.Peer.Server.Sessions.Sound.{IsSound, has_total, has_pending}
use telekit.Peer.Server.Sessions.Closing.{close_connection-IsSound, close_connection-open}
use telekit.Peer.Server.Sessions.Steps.{start_handshake_timer-IsSound}
use telekit.Peer.Server.Sessions.Hello.{Hello, new_connection, admit, settle}
use telekit.Peer.Server.Sessions.{
  Connection, Server, at, bias, reserve_connection, reserve_counter, close_connection,
  set_connection, start_handshake_timer,
}

-- The same connections under counters of the same value.
recount-IsSound :
    (limbo : Option ℕ) (s : Server) (n m : ℕ)
    → IsSound limbo s
    → n ≡ s.total_connections
    → m ≡ s.pending_handshakes
    → IsSound limbo (record s { total_connections = n; pending_handshakes = m })
recount-IsSound limbo s n m v a b = record {
  held = v.held;
  total = a ∙ v.total;
  pending = b ∙ v.pending;
  total_within = v.total_within;
  pending_within = v.pending_within;
  entries = λ id i e.
      let o = v.entries id i e in
      record { owner = o.owner; there = o.there; still_open = o.still_open; same_id = o.same_id };
  in_map = v.in_map;
}

pub weaken-IsSound : (s : Server) (i : ℕ) → IsSound none s → IsSound (some i) s
weaken-IsSound s i v = record {
  held = v.held;
  total = v.total;
  pending = v.pending;
  total_within = v.total_within;
  pending_within = v.pending_within;
  entries = v.entries;
  in_map = λ j c e f l. v.in_map j c e f refl;
}

-- The connection outside of the map is closed.
close-limbo : (s : Server) (i : ℕ) → IsSound (some i) s → IsSound none (close_connection s i)
close-limbo s i v =
    let w = close_connection-IsSound (some i) s i v in
    record {
      held = w.held;
      total = w.total;
      pending = w.pending;
      total_within = w.total_within;
      pending_within = w.pending_within;
      entries = w.entries;
      in_map = λ j c e f l.
          let (g, n) = close_connection-open s i j e f in w.in_map j c e f (ground (arith, n));
    }

-- It comes into the map, where its name led nowhere else.
insert-IsSound :
    (s : Server) (i : ℕ) (c : Connection)
    → IsSound (some i) s
    → at s i ≡ some c
    → c.closed ≡ false
    → (lookup c.source_id s.current ≡ none) ⊎ (lookup c.source_id s.current ≡ some i)
    → IsSound none (record s { current = insert c.source_id i s.current })
insert-IsSound s i c v e k d = record {
  held = v.held;
  total = v.total;
  pending = v.pending;
  total_within = v.total_within;
  pending_within = v.pending_within;
  entries = λ id j f. elim (Bool-cases (id == c.source_id)) [
    | inl g ↦
        let same : id ≡ c.source_id = ground arith in
        let place : j ≡ i = cc (
          f,
          ap (λ y. lookup y (insert c.source_id i s.current)) same,
          lookup-insert_self c.source_id i s.current,
        ) in
        record { owner = c; there = ap (at s) place ∙ e; still_open = k; same_id = sym same }
    | inr g ↦
        let o =
          v.entries id j
            (sym (lookup-insert_ne c.source_id id i s.current (λ h. ground (arith, h))) ∙ f) in
        record { owner = o.owner; there = o.there; still_open = o.still_open; same_id = o.same_id }
  ];
  in_map = λ j x f g l. elim (Bool-cases (j == i)) [
    | inl m ↦
        let place : j ≡ i = ground arith in
        let whole : x ≡ c = cc (f, e, ap (at s) place) in
        ap (λ y. lookup y.source_id (insert c.source_id i s.current)) whole
        ∙ lookup-insert_self c.source_id i s.current
        ∙ ap some (sym place)
    | inr m ↦
        let old = v.in_map j x f g (ground arith) in
        let other : x.source_id ≢ c.source_id = λ h. elim d [
          | inl n ↦ cc (n, old, ap (λ y. lookup y s.current) h)
          | inr n ↦ ground (arith, some-injective (sym old ∙ ap (λ y. lookup y s.current) h ∙ n))
        ] in
        lookup-insert_ne c.source_id x.source_id i s.current other ∙ old
  ];
}
  where
    some-injective : {n m : ℕ} → some n ≡ some m → n ≡ m
    some-injective e = cc

set_connection-open :
    (s : Server) (i : ℕ) (c : Connection)
    → s.shut ≡ false
    → at s i ≡ some c
    → c.closed ≡ false
    → set_connection s i ≡ (record s { current = insert c.source_id i s.current }, true)
unfolding set_connection
set_connection-open s i c a e k = ground arith

set_connection-shut : (s : Server) (i : ℕ) → s.shut ≡ true → set_connection s i ≡ (s, false)
unfolding set_connection
set_connection-shut s i a = ground arith

pub settle-IsSound :
    (s : Server) (i : ℕ) (c : Connection) (sent : Bool)
    → IsSound (some i) s
    → at s i ≡ some c
    → c.closed ≡ false
    → (lookup c.source_id s.current ≡ none) ⊎ (lookup c.source_id s.current ≡ some i)
    → IsSound none (settle s (some i) sent)
unfolding settle
settle-IsSound s i c sent v e k d = elim (Bool-cases s.shut) [
  | inl a ↦ subst (IsSound none) (sym (ap settled (set_connection-shut s i a))) (close-limbo s i v)
  | inr a ↦
      let t : Server = record s { current = insert c.source_id i s.current } in
      let w = start_handshake_timer-IsSound t i (insert-IsSound s i c v e k d) in
      subst (IsSound none) (sym (ap settled (set_connection-open s i c a e k)))
        (elim (Bool-cases sent) [
          | inl b ↦ rw b w
          | inr b ↦ rw b (close_connection-IsSound none (start_handshake_timer t i) i w)
        ])
]
  where
    settled : Server × Bool → Server
    settled (t, in_map) =
        if not in_map
        then close_connection t i
        else (let u = start_handshake_timer t i in if sent then u else close_connection u i)

-- A connection that the server has just made, not yet in its map.
admitted-IsSound :
    (s : Server) (h : Hello) (channel n m : ℕ)
    → IsSound none s
    → n ≡ s.total_connections + 1
    → m ≡ s.pending_handshakes + 1
    → n ≤ bias + s.max_connections
    → m ≤ bias + s.max_pending_handshakes
    → IsSound (some (length s.connections)) (record s {
      connections = s.connections ++ new_connection h channel ∷ [];
      total_connections = n;
      pending_handshakes = m;
    })
admitted-IsSound s h channel n m v a b l k =
    let totals = count-append has_total s.connections (new_connection h channel ∷ []) in
    let pendings = count-append has_pending s.connections (new_connection h channel ∷ []) in
    record {
      held = λ i c e. elim (get_elem?-added s.connections (new_connection h channel) i e) [
        | inl (f, g) ↦ rw g refl
        | inr (f, g) ↦ v.held i c g
      ];
      total = omega (arith, totals, v.total);
      pending = omega (arith, pendings, v.pending);
      total_within = omega (arith, totals, v.total);
      pending_within = omega (arith, pendings, v.pending);
      entries = λ id i e.
          let o = v.entries id i e in
          record {
            owner = o.owner;
            there =
                get_elem?-append_left s.connections (new_connection h channel ∷ []) i
                  (get_elem?-some s.connections i o.there)
                ∙ o.there;
            still_open = o.still_open;
            same_id = o.same_id;
          };
      in_map = λ i c e f g. elim (get_elem?-added s.connections (new_connection h channel) i e) [
        | inl (p, q) ↦ absurd (ground (arith, p))
        | inr (p, q) ↦ v.in_map i c q f refl
      ];
    }

-- A reservation that fails leaves the counters as they were.
reserve_connection_lem :
    (s : Server)
    → ((n : ℕ) × (n ≡ s.total_connections)
        × (reserve_connection s ≡ (record s { total_connections = n }, false)))
      ⊎ ((reserve_connection s ≡ (
        record s {
          total_connections = s.total_connections + 1;
          pending_handshakes = s.pending_handshakes + 1;
        },
        true,
      ))
          × (s.total_connections < bias + s.max_connections)
          × (s.pending_handshakes < bias + s.max_pending_handshakes))
unfolding reserve_connection reserve_counter
reserve_connection_lem s = elim (Bool-cases (leb (bias + s.max_connections) s.total_connections)) [
  | inl a ↦ inl (s.total_connections, refl, rw (a, reserve_connection, reserve_counter) refl)
  | inr a ↦ elim (Bool-cases (leb (bias + s.max_pending_handshakes) s.pending_handshakes)) [
    | inl b ↦ inl (s.total_connections + 1 - 1, omega arith, ground arith)
    | inr b ↦ inr (ground arith, ground arith, ground arith)
  ]
]

nothing : (t : Server) (sent : Bool) → IsSound none t → IsSound none (settle t none sent)
unfolding settle
nothing t sent w = w

-- `handleClientHello` from the application's policy on, and the rest of the handler.
pub admit-IsSound :
    (s : Server) (h : Hello) (channel : ℕ) (joined derived sent : Bool)
    → IsSound none s
    → lookup h.source_id s.current ≡ none
    → IsSound none
        (settle (admit s h channel joined derived).0 (admit s h channel joined derived).1 sent)
unfolding admit
admit-IsSound s h channel false derived sent v n = nothing s sent v
admit-IsSound s h channel true derived sent v n = elim (reserve_connection_lem s) [
  | inl (k, same, e) ↦ subst (IsSound none) (sym (ap admitted e)) (
      nothing (record s { total_connections = k }) sent
        (recount-IsSound none s k s.pending_handshakes v same refl))
  | inr (e, l, m) ↦ subst (IsSound none) (sym (ap admitted e)) (elim (Bool-cases derived) [
    | inr d ↦ rw d (
        nothing _ sent (
          recount-IsSound none s (s.total_connections + 1 - 1) (s.pending_handshakes + 1 - 1) v
            (omega arith) (omega arith)))
    | inl d ↦ rw d (
        settle-IsSound
          (record s {
            connections = s.connections ++ new_connection h channel ∷ [];
            total_connections = s.total_connections + 1;
            pending_handshakes = s.pending_handshakes + 1;
          })
          (length s.connections) (new_connection h channel) sent
          (admitted-IsSound s h channel (s.total_connections + 1) (s.pending_handshakes + 1) v refl
            refl (omega arith) (omega arith))
          (get_elem?-last s.connections (new_connection h channel)) refl (inl n))
  ])
]
  where
    made : Server × Bool → Server × Option ℕ
    made (t, granted) =
        if not granted
        then (t, none)
        else if not derived
        then (
          record t {
            pending_handshakes = t.pending_handshakes - 1;
            total_connections = t.total_connections - 1;
          },
          none,
        )
        else (
          record t { connections = t.connections ++ new_connection h channel ∷ [] },
          some (length t.connections),
        )

    admitted : Server × Bool → Server
    admitted r = settle (made r).0 (made r).1 sent
