-- ===== src/Peer/Client/Owned.antt =====
-- A client closes each transport and agent that it was given once, or has it still.
use telekit.Common.{
  ℕ, ◌+◌, ◌≡◌, refl, ap, sym, ◌∙◌, Bool, true, false, not, ◌&&◌, Option, none, some, List, [], ◌∷◌,
  ◌==◌, arith, Bool-cases, inl, inr,
}
use telekit.Peer.Server.Sessions.{is_nil, points_to}
use telekit.Peer.Client.{
  Handles, Client, new_client, gives, closes, install_ice_agent, set_transport_conn,
  is_current_transport, finish_transport, disconnect, disconnect_manually, Step, agent, transport,
  finish, drop, leave, reopen, step, run,
}

abbrev pub one : Bool → ℕ
one true = 1
one false = 0

-- How often a handle is in a list.
abbrev pub times : ℕ → List ℕ → ℕ
times k [] = 0
times k (x ∷ xs) = one (x == k) + times k xs

-- What was given was closed as often, but for the one that the client has.
abbrev pub Owned : Option ℕ → Handles → Type 0
Owned o h = (k : ℕ) → times k h.given ≡ times k h.closed + one (points_to o k)

pub record IsOwned (c : Client) : Type 0 where
  pub conns_owned :
      (k : ℕ) → times k c.conns.given ≡ times k c.conns.closed + one (points_to c.transport_conn k)
  pub agents_owned :
      (k : ℕ) → times k c.agents.given ≡ times k c.agents.closed + one (points_to c.ice_agent k)

Owned-closed : (o : Option ℕ) (h : Handles) → Owned o h → Owned none (closes h o)
Owned-closed none h v k = v k
Owned-closed (some x) h v k = omega (arith, v k)

Owned-given :
    (o : Option ℕ) (h : Handles) (x : ℕ) → is_nil o ≡ true → Owned o h → Owned (some x) (gives h x)
Owned-given none h x e v k = omega (arith, v k)
Owned-given (some y) h x e v k = cc

Owned-refused :
    (o : Option ℕ) (h : Handles) (x : ℕ) → Owned o h → Owned o (closes (gives h x) (some x))
Owned-refused o h x v k = omega (arith, v k)

install_ice_agent-IsOwned : (c : Client) (a : ℕ) → IsOwned c → IsOwned (install_ice_agent c a).0
unfolding install_ice_agent
install_ice_agent-IsOwned c a v =
    elim (Bool-cases (not c.manual_disconnect && is_nil c.ice_agent && is_nil c.transport_conn)) [
      | inl e ↦
          rw (e, install_ice_agent)
            (record {
              conns_owned = v.conns_owned;
              agents_owned = Owned-given c.ice_agent c.agents a (ground arith) v.agents_owned;
            })
      | inr e ↦
          rw (e, install_ice_agent)
            (record {
              conns_owned = v.conns_owned;
              agents_owned = Owned-refused c.ice_agent c.agents a v.agents_owned;
            })
    ]

set_transport_conn-IsOwned :
    (c : Client) (a conn : ℕ) (channel : Option ℕ)
    → IsOwned c
    → IsOwned (set_transport_conn c a conn channel).0
unfolding set_transport_conn
set_transport_conn-IsOwned c a conn channel v =
    elim (Bool-cases (
      not c.manual_disconnect
      && points_to c.ice_agent a
      && is_nil c.transport_conn
      && not (is_nil channel))) [
        | inl e ↦
            rw (e, set_transport_conn)
              (record {
                conns_owned =
                    Owned-given c.transport_conn c.conns conn (ground arith) v.conns_owned;
                agents_owned = v.agents_owned;
              })
        | inr e ↦
            rw (e, set_transport_conn)
              (record {
                conns_owned = Owned-refused c.transport_conn c.conns conn v.conns_owned;
                agents_owned = v.agents_owned;
              })
      ]

points_to_eq : (o : Option ℕ) (i : ℕ) → points_to o i ≡ true → some i ≡ o
points_to_eq none i e = cc
points_to_eq (some p) i e = ap some (ground arith)

finish_transport-IsOwned :
    (c : Client) (conn channel : ℕ) → IsOwned c → IsOwned (finish_transport c conn channel).0
unfolding finish_transport is_current_transport
finish_transport-IsOwned c conn channel v =
    elim (Bool-cases (points_to c.transport_conn conn && points_to c.data_channel channel)) [
      | inr e ↦ rw (e, finish_transport, is_current_transport) v
      | inl e ↦
          let there = points_to_eq c.transport_conn conn (ground arith) in
          rw (e, finish_transport, is_current_transport)
            (record {
              conns_owned = Owned-closed (some conn) c.conns (λ k.
                  v.conns_owned k
                  ∙ ap (λ o. times k c.conns.closed + one (points_to o k)) (sym there));
              agents_owned = Owned-closed c.ice_agent c.agents v.agents_owned;
            })
    ]

disconnect-IsOwned :
    (c : Client) (cancel_reconnect closing : Bool)
    → IsOwned c
    → IsOwned (disconnect c cancel_reconnect closing)
unfolding disconnect
disconnect-IsOwned c cancel_reconnect closing v = record {
  conns_owned = Owned-closed c.transport_conn c.conns v.conns_owned;
  agents_owned = Owned-closed c.ice_agent c.agents v.agents_owned;
}

step-IsOwned : (c : Client) (x : Step) → IsOwned c → IsOwned (step c x)
unfolding step disconnect_manually
step-IsOwned c (agent a) v = install_ice_agent-IsOwned c a v
step-IsOwned c (transport a conn channel) v = set_transport_conn-IsOwned c a conn channel v
step-IsOwned c (finish conn channel) v = finish_transport-IsOwned c conn channel v
step-IsOwned c (drop cancel_reconnect closing) v = disconnect-IsOwned c cancel_reconnect closing v
step-IsOwned c leave v =
    disconnect-IsOwned (record c { manual_disconnect = true }) true true
      (record { conns_owned = v.conns_owned; agents_owned = v.agents_owned })
step-IsOwned c reopen v = record { conns_owned = v.conns_owned; agents_owned = v.agents_owned }

steps-IsOwned : (xs : List Step) (c : Client) → IsOwned c → IsOwned (run c xs)
unfolding run
steps-IsOwned [] c v = v
steps-IsOwned (x ∷ xs) c v = steps-IsOwned xs (step c x) (step-IsOwned c x v)

-- Through any calls of the methods that install, finish and disconnect from its start on, a client closes each
-- transport and each agent as often as it was given, less one for the transport and the agent that it has.
pub run-IsOwned : (size : ℕ) (xs : List Step) → IsOwned (run (new_client size) xs)
unfolding new_client
run-IsOwned size xs =
    steps-IsOwned xs (new_client size)
      (record { conns_owned = λ k. refl; agents_owned = λ k. refl })
