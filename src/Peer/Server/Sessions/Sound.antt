-- ===== src/Peer/Server/Sessions/Sound.antt =====
-- What holds of the connections of a server between any two steps.
use telekit.Common.{
  ℕ, ◌+◌, ◌≤◌, ◌≡◌, inl, inr, ap, sym, ◌∙◌, Bool, true, false, not, ◌&&◌, ◌||◌, Option, some, ◌==◌,
  if◌then◌else◌, get_elem?, set, arith, get_elem?-set_self, get_elem?-set_ne, Bool-cases,
}
use telekit.Common.Entries.{lookup}
use telekit.Common.Places.{get_elem?-set_cases, get_elem?-some}
use telekit.Peer.Server.Sessions.Counts.{one, count, count-set}
use telekit.Peer.Server.Sessions.{Connection, Server, at, bias, is_nil, points_to}

abbrev pub has_total : Connection → Bool
has_total c = c.total_lease

abbrev pub has_pending : Connection → Bool
has_pending c = c.pending_lease

-- A closed connection holds nothing. An open one counts as a connection; once established it counts as a
-- handshake no more, and has its agent, transport and channel.
abbrev pub is_held : Connection → Bool
is_held c =
    if c.closed
    then not c.established
      && c.buffer_closed
      && not c.handshake_timer
      && not c.pending_lease
      && not c.total_lease
      && is_nil c.transport_conn
      && is_nil c.data_channel
      && is_nil c.ice_agent
    else c.total_lease
      && not c.buffer_closed
      && not (c.established && (c.pending_lease || is_nil c.transport_conn))
      && (is_nil c.transport_conn || not (is_nil c.ice_agent) && not (is_nil c.data_channel))

-- The pointer is one to an open connection of that name.
pub record Owns (s : Server) (id i : ℕ) : Type 0 where
  pub owner : Connection
  pub there : at s i ≡ some owner
  pub still_open : owner.closed ≡ false
  pub same_id : owner.source_id ≡ id

-- The counters are the leases that are out, within the limits; the map leads to open connections, and to
-- all of them but `limbo`.
pub record IsSound (limbo : Option ℕ) (s : Server) : Type 0 where
  pub held : (i : ℕ) (c : Connection) → at s i ≡ some c → is_held c ≡ true
  pub total : s.total_connections ≡ bias + count has_total s.connections
  pub pending : s.pending_handshakes ≡ bias + count has_pending s.connections
  pub total_within : count has_total s.connections ≤ s.max_connections
  pub pending_within : count has_pending s.connections ≤ s.max_pending_handshakes
  pub entries : (id i : ℕ) → lookup id s.current ≡ some i → Owns s id i
  pub in_map :
      (i : ℕ) (c : Connection)
      → at s i ≡ some c
      → c.closed ≡ false
      → points_to limbo i ≡ false
      → lookup c.source_id s.current ≡ some i

-- A connection that is open changes in what the map and the other connections do not see.
pub change-IsSound :
    (limbo : Option ℕ) (s : Server) (i : ℕ) (c c' : Connection) (n : ℕ)
    → IsSound limbo s
    → at s i ≡ some c
    → c'.closed ≡ c.closed
    → c'.source_id ≡ c.source_id
    → c'.total_lease ≡ c.total_lease
    → one c'.pending_lease ≤ one c.pending_lease
    → n + one c.pending_lease ≡ s.pending_handshakes + one c'.pending_lease
    → is_held c' ≡ true
    → IsSound limbo (record s { connections = set s.connections i c'; pending_handshakes = n })
change-IsSound limbo s i c c' n v e k d t p b h =
    let same_count : count has_total (set s.connections i c') ≡ count has_total s.connections =
      omega (arith, count-set has_total s.connections i c' e, ap one t) in
    record {
      held = λ j x f. elim (get_elem?-set_cases s.connections i j c' e f) [
        | inl (a, g) ↦ rw g h
        | inr (a, g) ↦ v.held j x g
      ];
      total = omega (arith, same_count, v.total);
      pending = omega (arith, count-set has_pending s.connections i c' e, v.pending, b);
      total_within = omega (arith, same_count, v.total_within);
      pending_within =
          omega (arith, count-set has_pending s.connections i c' e, v.pending_within, p);
      entries = λ id j f. owned j id (v.entries id j f);
      in_map = λ j x f g l. elim (get_elem?-set_cases s.connections i j c' e f) [
        | inl (a, m) ↦
            ap (λ y. lookup y.source_id s.current) m
            ∙ ap (λ y. lookup y s.current) d
            ∙ v.in_map i c e (sym k ∙ sym (ap (λ y. y.closed) m) ∙ g)
                (ap (points_to limbo) (sym a) ∙ l)
            ∙ ap some (sym a)
        | inr (a, m) ↦ v.in_map j x m g l
      ];
    }
  where
    owned :
        (j id : ℕ)
        → Owns s id j
        → Owns (record s { connections = set s.connections i c'; pending_handshakes = n }) id j
    owned j id o = elim (Bool-cases (j == i)) [
      | inl a ↦
          let same : j ≡ i = ground arith in
          let whole : o.owner ≡ c = cc (o.there, e, ap (at s) same) in
          record {
            owner = c';
            there =
                ap (get_elem? (set s.connections i c')) same
                ∙ get_elem?-set_self s.connections i c' (get_elem?-some s.connections i e);
            still_open = k ∙ ap (λ y. y.closed) (sym whole) ∙ o.still_open;
            same_id = d ∙ ap (λ y. y.source_id) (sym whole) ∙ o.same_id;
          }
      | inr a ↦ record {
        owner = o.owner;
        there = get_elem?-set_ne s.connections i j c' (λ f. ground (arith, f)) ∙ o.there;
        still_open = o.still_open;
        same_id = o.same_id;
      }
    ]
