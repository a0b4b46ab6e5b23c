-- ===== src/Peer/Server/Sessions/Handling.antt =====
-- The handler of a hello keeps what holds of the connections.
use telekit.Common.{
  ℕ, ◌≡◌, inl, inr, refl, ap, sym, subst, ◌∙◌, Bool, true, false, Option, none, some, arith,
  Bool-cases, Option-cases,
}
use telekit.Common.Entries.{lookup, remove, lookup-remove_self}
use telekit.Peer.Server.Sessions.Sound.{IsSound}
use telekit.Peer.Server.Sessions.Closing.{close_connection-IsSound}
use telekit.Peer.Server.Sessions.Hello.{
  Hello, Lru, close_existing, pending_session, prepare_client_hello, conclude, handle_hello,
  Prepared, reused, replayed, fresh, is_nonce_available,
}
use telekit.Peer.Server.Sessions.{Server, points_to, close_connection}
use telekit.Peer.Server.Sessions.Joining.{weaken-IsSound, settle-IsSound, admit-IsSound}

-- The name leads nowhere once the session that it led to is closed.
close_existing-gone :
    (s : Server) (id : ℕ) (existing : Option ℕ)
    → IsSound none s
    → lookup id s.current ≡ existing
    → lookup id (close_existing s existing).current ≡ none
unfolding close_existing close_connection
close_existing-gone s id none v e = e
close_existing-gone s id (some i) v e =
    let o = v.entries id i e in
    let f : points_to (lookup o.owner.source_id s.current) i ≡ true =
      ap (λ y. points_to (lookup y s.current) i) o.same_id
      ∙ ap (λ y. points_to y i) e
      ∙ ground arith in
    rw (o.there, o.still_open, f, close_connection)
      (ap (λ y. lookup id (remove y s.current)) o.same_id ∙ lookup-remove_self id s.current)

close_existing-IsSound :
    (s : Server) (existing : Option ℕ) → IsSound none s → IsSound none (close_existing s existing)
unfolding close_existing
close_existing-IsSound s none v = v
close_existing-IsSound s (some i) v = close_connection-IsSound none s i v

pending_session-some :
    (s : Server) (h : Hello) (existing : Option ℕ) {i : ℕ}
    → pending_session s h existing ≡ some i
    → existing ≡ some i
unfolding pending_session
pending_session-some s h none e = cc
pending_session-some s h (some j) e = ground arith

module _ {C : Type 0} (lru : Lru C) (s : Server) (cache : C) (h : Hello) (existing : Option ℕ)
    (now protection : ℕ) where
  abbrev available : C × Bool
  available = is_nonce_available lru cache h.nonce now protection

  prepare-reused :
      {i : ℕ}
      → pending_session s h existing ≡ some i
      → prepare_client_hello lru s cache h existing now protection ≡ (s, cache, reused i)
  unfolding prepare_client_hello
  prepare-reused e = rw (e, prepare_client_hello) refl

  pub prepare-replayed :
      pending_session s h existing ≡ none
      → available.1 ≡ false
      → prepare_client_hello lru s cache h existing now protection ≡ (s, available.0, replayed)
  unfolding prepare_client_hello
  prepare-replayed e f = rw (e, f, prepare_client_hello) refl

  prepare-fresh :
      pending_session s h existing ≡ none
      → available.1 ≡ true
      → prepare_client_hello lru s cache h existing now protection
        ≡ (close_existing s existing, available.0, fresh)
  unfolding prepare_client_hello
  prepare-fresh e f = rw (e, f, prepare_client_hello) refl

module _ {C : Type 0} (lru : Lru C) where
  pub handle_hello-IsSound :
      (s : Server) (cache : C) (h : Hello) (channel now protection : ℕ) (joined derived sent : Bool)
      → IsSound none s
      → IsSound none (handle_hello lru s cache h channel now protection joined derived sent).0
  unfolding handle_hello conclude
  handle_hello-IsSound s cache h channel now protection joined derived sent v =
      let existing = lookup h.source_id s.current in
      let to : Server × C × Prepared → Type 0 =
        λ r. IsSound none (conclude lru h channel joined derived sent r).0 in
      elim (Option-cases (pending_session s h existing)) [
        | inr (i, e) ↦
            let found = pending_session-some s h existing e in
            let o = v.entries h.source_id i found in
            subst to (sym (prepare-reused lru s cache h existing now protection e)) (
              settle-IsSound s i o.owner sent (weaken-IsSound s i v) o.there o.still_open
                (inr (ap (λ y. lookup y s.current) o.same_id ∙ found)))
        | inl e ↦ elim (Bool-cases (available lru s cache h existing now protection).1) [
          | inr f ↦ subst to (sym (prepare-replayed lru s cache h existing now protection e f)) v
          | inl f ↦ subst to (sym (prepare-fresh lru s cache h existing now protection e f)) (
              admit-IsSound (close_existing s existing) h channel joined derived sent
                (close_existing-IsSound s existing v)
                (close_existing-gone s h.source_id existing v refl))
        ]
      ]
