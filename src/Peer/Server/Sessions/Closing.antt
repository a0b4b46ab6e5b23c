-- ===== src/Peer/Server/Sessions/Closing.antt =====
-- Closing a connection, and the server.
use telekit.Common.{
  ℕ, ◌+◌, ◌≡◌, ◌≢◌, inl, inr, refl, ap, sym, ◌∙◌, Bool, true, false, ◌||◌, Option, none, some, [],
  ◌∷◌, ◌==◌, get_elem?, set, arith, get_elem?-set_ne, Bool-cases, Option-cases,
}
use telekit.Common.Entries.{Directory, lookup, remove, lookup-remove_self, lookup-remove_ne}
use telekit.Common.Places.{get_elem?-set_cases}
use telekit.Peer.Server.Sessions.Counts.{one, count, count-set, count-none}
use telekit.Peer.Server.Sessions.Sound.{IsSound, Owns, has_total, has_pending}
use telekit.Peer.Server.Sessions.{
  Connection, Server, at, bias, points_to, emptied, lowered, remove_current, close_connection,
  close_all, close_server,
}

points_to_eq : (o : Option ℕ) (i : ℕ) → points_to o i ≡ true → o ≡ some i
points_to_eq none i e = cc
points_to_eq (some p) i e = ap some (ground arith)

points_to_self : (i : ℕ) → points_to (some i) i ≡ true
points_to_self i = ground arith

-- The name of a connection leads to it no more; the other names lead where they did.
lookup-remove_current :
    (s : Server) (i : ℕ) (c : Connection) (id j : ℕ)
    → lookup id (remove_current s i c) ≡ some j
    → (lookup id s.current ≡ some j) × ((id ≡ c.source_id) → j ≢ i)
lookup-remove_current s i c id j e =
    elim (Bool-cases (points_to (lookup c.source_id s.current) i)) [
      | inr f ↦
          let g : lookup id s.current ≡ some j = rw f at e in
          (
            g,
            λ same k. absurd (
                cc (
                  f,
                  ap (λ x. points_to x i) (ap (λ y. lookup y s.current) (sym same) ∙ g ∙ ap some k)
                      ∙ points_to_self i,
                )),
          )
      | inl f ↦
          let g : lookup id (remove c.source_id s.current) ≡ some j = rw f at e in
          elim (Bool-cases (id == c.source_id)) [
            | inl k ↦
                let same : id ≡ c.source_id = ground arith in
                absurd (
                  cc (
                    ap (λ y. lookup y (remove c.source_id s.current)) same,
                    lookup-remove_self c.source_id s.current,
                    g,
                  ))
            | inr k ↦
                let other : id ≢ c.source_id = λ h. ground (arith, h) in
                (sym (lookup-remove_ne c.source_id id s.current other) ∙ g, λ h. absurd (other h))
          ]
    ]

remove_current-other :
    (s : Server) (i : ℕ) (c : Connection) (id j : ℕ)
    → j ≢ i
    → lookup id s.current ≡ some j
    → lookup id (remove_current s i c) ≡ some j
remove_current-other s i c id j n e =
    elim (Bool-cases (points_to (lookup c.source_id s.current) i)) [
      | inr f ↦ rw f e
      | inl f ↦
          let other : id ≢ c.source_id = λ h. n (
            cc (
              e,
              ap (λ y. lookup y s.current) h,
              points_to_eq (lookup c.source_id s.current) i f,
            )) in
          rw f (lookup-remove_ne c.source_id id s.current other ∙ e)
    ]

-- Closing one connection keeps what holds, and leaves none out of the map that was not.
module _ (limbo : Option ℕ) (s : Server) (i : ℕ) (v : IsSound limbo s) where
  closed-IsSound :
      (c : Connection)
      → at s i ≡ some c
      → c.closed ≡ false
      → IsSound limbo (record s {
        connections = set s.connections i (emptied c);
        current = remove_current s i c;
        total_connections = lowered c.total_lease s.total_connections;
        pending_handshakes = lowered c.pending_lease s.pending_handshakes;
      })
  closed-IsSound c e k =
      let totals = count-set has_total s.connections i (emptied c) e in
      let pendings = count-set has_pending s.connections i (emptied c) e in
      record {
        held = λ j x f. elim (get_elem?-set_cases s.connections i j (emptied c) e f) [
          | inl (a, g) ↦ rw g refl
          | inr (a, g) ↦ v.held j x g
        ];
        total =
            lowered_by c.total_lease s.total_connections (count has_total s.connections) _ v.total
              totals;
        pending =
            lowered_by c.pending_lease s.pending_handshakes (count has_pending s.connections) _
              v.pending pendings;
        total_within = omega (arith, totals, v.total_within);
        pending_within = omega (arith, pendings, v.pending_within);
        entries = λ id j f.
            let (g, n) = lookup-remove_current s i c id j f in
            let o = v.entries id j g in
            let other : j ≢ i = λ h. n (sym o.same_id ∙ ap (λ y. y.source_id) (owner-eq j o h)) h in
            record {
              owner = o.owner;
              there = get_elem?-set_ne s.connections i j (emptied c) (λ h. other (sym h)) ∙ o.there;
              still_open = o.still_open;
              same_id = o.same_id;
            };
        in_map = λ j x f g l. elim (get_elem?-set_cases s.connections i j (emptied c) e f) [
          | inl (a, m) ↦ absurd (cc (g, ap (λ y. y.closed) m))
          | inr (a, m) ↦ remove_current-other s i c x.source_id j a (v.in_map j x m g l)
        ];
      }
    where
      owner-eq : (j : ℕ) {id : ℕ} (o : Owns s id j) → j ≡ i → o.owner ≡ c
      owner-eq j o h = cc (o.there, e, ap (at s) h)

      lowered_by :
          (b : Bool) (n k m : ℕ) → n ≡ bias + k → m + one b ≡ k + 0 → lowered b n ≡ bias + m
      lowered_by true n k m p q = omega arith
      lowered_by false n k m p q = omega arith

  pub close_connection-IsSound : IsSound limbo (close_connection s i)
  unfolding close_connection
  close_connection-IsSound = elim (Option-cases (at s i)) [
    | inl e ↦ rw (e, close_connection) v
    | inr (c, e) ↦ elim (Bool-cases c.closed) [
      | inl k ↦ rw (e, k, close_connection) v
      | inr k ↦ rw (e, k, close_connection) (closed-IsSound c e k)
    ]
  ]

abbrev was_closed : Option Connection → Bool
was_closed none = true
was_closed (some c) = c.closed

-- What is open after a close was open before, and is another connection.
pub close_connection-open :
    (s : Server) (i j : ℕ) {c : Connection}
    → at (close_connection s i) j ≡ some c
    → c.closed ≡ false
    → (at s j ≡ some c) × (j ≢ i)
unfolding close_connection
close_connection-open s i j {c} e k = elim (Option-cases (at s i)) [
  | inl f ↦
      let g : at s j ≡ some c = rw (f, close_connection) at e in (g, λ h. cc (g, f, ap (at s) h))
  | inr (d, f) ↦ elim (Bool-cases d.closed) [
    | inl m ↦
        let g : at s j ≡ some c = rw (f, m, close_connection) at e in
        (g, λ h. cc (k, m, ap was_closed (sym f ∙ ap (at s) (sym h) ∙ g)))
    | inr m ↦
        let g : get_elem? (set s.connections i (emptied d)) j ≡ some c =
          rw (f, m, close_connection) at e in
        elim (get_elem?-set_cases s.connections i j (emptied d) f g) [
          | inl (a, n) ↦ absurd (cc (k, ap (λ y. y.closed) n))
          | inr (a, n) ↦ (n, a)
        ]
  ]
]

-- The places that a map names.
abbrev names_place : Directory → ℕ → Bool
names_place [] j = false
names_place ((id, i) ∷ d) j = i == j || names_place d j

lookup-names_place : (d : Directory) (id j : ℕ) → lookup id d ≡ some j → names_place d j ≡ true
lookup-names_place [] id j e = cc
lookup-names_place ((k, i) ∷ d) id j e = elim (Bool-cases (k == id)) [
  | inl f ↦ let g : some i ≡ some j = rw f at e in let same : i ≡ j = cc in ground arith
  | inr f ↦
      let g : lookup id d ≡ some j = rw f at e in
      let h = lookup-names_place d id j g in ground (arith, h)
]

pub close_all-IsSound : (d : Directory) (s : Server) → IsSound none s → IsSound none (close_all s d)
unfolding close_all
close_all-IsSound [] s v = v
close_all-IsSound ((id, i) ∷ d) s v =
    close_all-IsSound d (close_connection s i) (close_connection-IsSound none s i v)

close_all-open :
    (d : Directory) (s : Server) (j : ℕ) {c : Connection}
    → at (close_all s d) j ≡ some c
    → c.closed ≡ false
    → (at s j ≡ some c) × (names_place d j ≡ false)
unfolding close_all
close_all-open [] s j e k = (e, refl)
close_all-open ((id, i) ∷ d) s j e k =
    let (f, g) = close_all-open d (close_connection s i) j e k in
    let (h, n) = close_connection-open s i j f k in (h, ground (arith, g, n))

-- A server that was closed: no connection is open, and no lease is out.
pub record IsShut (s : Server) : Type 0 where
  pub no_connection : s.total_connections ≡ bias
  pub no_handshake : s.pending_handshakes ≡ bias
  pub map_empty : s.current ≡ []
  pub all_closed : (i : ℕ) (c : Connection) → at s i ≡ some c → c.closed ≡ true

-- `Server.Close` closes every connection and takes every lease back.
pub close_server-IsShut :
    (s : Server) → IsSound none s → IsSound none (close_server s) × IsShut (close_server s)
unfolding close_server
close_server-IsShut s v =
    let t = close_all (record s { shut = true }) s.current in
    let w =
      close_all-IsSound s.current (record s { shut = true })
        (record {
          held = v.held;
          total = v.total;
          pending = v.pending;
          total_within = v.total_within;
          pending_within = v.pending_within;
          entries = λ id i e.
              let o = v.entries id i e in
              record {
                owner = o.owner;
                there = o.there;
                still_open = o.still_open;
                same_id = o.same_id;
              };
          in_map = v.in_map;
        }) in
    let all_closed : (i : ℕ) (c : Connection) → at t i ≡ some c → c.closed ≡ true = λ i c e.
      elim (Bool-cases c.closed) [
        | inl f ↦ f
        | inr f ↦
            let (g, n) = close_all-open s.current (record s { shut = true }) i e f in
            absurd (cc (n, lookup-names_place s.current c.source_id i (v.in_map i c g f refl)))
      ] in
    let totals : count has_total t.connections ≡ 0 =
      count-none has_total t.connections
        (λ i c e. ground (arith, w.held i c e, all_closed i c e)) in
    let pendings : count has_pending t.connections ≡ 0 =
      count-none has_pending t.connections
        (λ i c e. ground (arith, w.held i c e, all_closed i c e)) in
    (
      record {
        held = w.held;
        total = w.total;
        pending = w.pending;
        total_within = w.total_within;
        pending_within = w.pending_within;
        entries = λ id i e. cc;
        in_map = λ i c e f l. absurd (cc (f, all_closed i c e));
      },
      record {
        no_connection = omega (arith, w.total, totals);
        no_handshake = omega (arith, w.pending, pendings);
        map_empty = refl;
        all_closed = all_closed;
      },
    )
