-- ===== src/Peer/Server/Sessions/Replays.antt =====
-- A hello that is replayed, while the nonces of other hellos come in.
use telekit.Common.{
  ℕ, ◌+◌, ◌≤◌, ◌<◌, ◌≡◌, ◌≢◌, inl, inr, ap, sym, ◌∙◌, subst, refl, Bool, true, false, Option, none,
  some, List, [], ◌∷◌, All, arith, Bool-cases, Option-cases,
}
use telekit.Common.Bytes.{same_bytes, same_bytes_sound, same_bytes_refl}
use telekit.Common.Entries.{lookup}
use telekit.Peer.Server.Sessions.Hello.{
  Hello, Lru, is_pending, pending_session, conclude, handle_hello, is_nonce_available, is_recent,
  offered,
}
use telekit.Peer.Server.Sessions.{Connection, Server, at, is_nil}
use telekit.Peer.Server.Sessions.Handling.{prepare-replayed}

-- The session of the client waits for its transport, and began with the same nonce and the same key.
pub record IsSameProof (s : Server) (h : Hello) : Type 0 where
  pub place : ℕ
  pub session : Connection
  pub named : lookup h.source_id s.current ≡ some place
  pub there : at s place ≡ some session
  pub open_still : session.closed ≡ false
  pub no_transport : session.transport_conn ≡ none
  pub none_selected : session.selected_transport ≡ none
  pub same_nonce : session.client_nonce ≡ h.nonce
  pub same_key : session.client_ephemeral_key ≡ h.ephemeral_key

is_nil-none : (o : Option ℕ) → is_nil o ≡ true → o ≡ none
is_nil-none none e = refl
is_nil-none (some i) e = absurd (cc e)

pending-IsSameProof :
    (s : Server) (h : Hello) (i : ℕ) (c : Connection)
    → lookup h.source_id s.current ≡ some i
    → at s i ≡ some c
    → is_pending c h ≡ true
    → IsSameProof s h
pending-IsSameProof s h i c n t e = record {
  place = i;
  session = c;
  named = n;
  there = t;
  open_still = ground (arith, e);
  no_transport = is_nil-none c.transport_conn (ground (arith, e));
  none_selected = is_nil-none c.selected_transport (ground (arith, e));
  same_nonce = same_bytes_sound c.client_nonce h.nonce (ground (arith, e));
  same_key = same_bytes_sound c.client_ephemeral_key h.ephemeral_key (ground (arith, e));
}

-- Without such a session none is answered again.
pending_session-none :
    (s : Server) (h : Hello)
    → (IsSameProof s h → ⊥)
    → pending_session s h (lookup h.source_id s.current) ≡ none
unfolding pending_session
pending_session-none s h other = elim (Option-cases (lookup h.source_id s.current)) [
  | inl e ↦ rw (e, pending_session) refl
  | inr (i, e) ↦ elim (Option-cases (at s i)) [
    | inl f ↦ rw (e, f, pending_session) refl
    | inr (c, f) ↦ elim (Bool-cases (is_pending c h)) [
      | inl p ↦ absurd (other (pending-IsSameProof s h i c e f p))
      | inr p ↦ rw (e, f, p, pending_session) refl
    ]
  ]
]

-- The time that the cache has for a nonce, if it has one, is not before the given one.
abbrev Since : ℕ → Option ℕ → Type 0
Since before none = Unit
Since before (some seen) = before ≤ seen

module _ {C : Type 0} (lru : Lru C) where
  is_nonce_available-Since :
      (cache : C) (nonce other : List ℕ) (before now protection : ℕ)
      → before ≤ now
      → Since before (lru.get cache nonce)
      → Since before (lru.get (is_nonce_available lru cache other now protection).0 nonce)
  unfolding is_nonce_available
  is_nonce_available-Since cache nonce other before now protection l v =
      let kept = subst (Since before) (sym (lru.get-used cache other nonce)) v in
      elim (Bool-cases (is_recent lru (lru.get cache other) now protection)) [
        | inl r ↦ rw (r, is_nonce_available) kept
        | inr r ↦
            rw (r, is_nonce_available)
              (elim (Bool-cases (same_bytes nonce other)) [
                | inl e ↦
                    subst (Since before)
                      (sym (
                        ap (lru.get (lru.add (lru.used cache other) other now))
                          (same_bytes_sound nonce other e)
                        ∙ lru.get-add (lru.used cache other) other now))
                      l
                | inr e ↦
                    elim (lru.get-add_other (lru.used cache other) other now nonce (λ f.
                      absurd (cc (e, sym (ap (same_bytes nonce) f) ∙ same_bytes_refl nonce)))) [
                        | inl k ↦ subst (Since before) (sym k) kept
                        | inr k ↦ subst (Since before) (sym k) tt
                      ]
              ])
      ]

  offered-Since :
      (others : List (List ℕ × ℕ)) (cache : C) (nonce : List ℕ) (before protection : ℕ)
      → All (λ o. before ≤ o.1) others
      → Since before (lru.get cache nonce)
      → Since before (lru.get (offered lru cache others protection) nonce)
  offered-Since [] cache nonce before protection later v = v
  offered-Since ((other, now) ∷ others) cache nonce before protection later v =
      offered-Since others (is_nonce_available lru cache other now protection).0 nonce before
        protection later.1
        (is_nonce_available-Since cache nonce other before now protection later.0 v)

  -- A nonce that was taken is in the cache with its time.
  taken-Since :
      (cache : C) (nonce : List ℕ) (before protection : ℕ)
      → (is_nonce_available lru cache nonce before protection).1 ≡ true
      → Since before (lru.get (is_nonce_available lru cache nonce before protection).0 nonce)
  unfolding is_nonce_available
  taken-Since cache nonce before protection a =
      elim (Bool-cases (is_recent lru (lru.get cache nonce) before protection)) [
        | inl r ↦ absurd (cc (rw (r, is_nonce_available) at a))
        | inr r ↦
            rw (r, is_nonce_available)
              (subst (Since before) (sym (lru.get-add (lru.used cache nonce) nonce before))
                (omega arith))
      ]

  Since-is_recent :
      (o : Option ℕ) (before now protection : ℕ)
      → now < before + protection
      → o ≢ none
      → Since before o
      → is_recent lru o now protection ≡ true
  Since-is_recent none before now protection l ne v = absurd (ne refl)
  Since-is_recent (some seen) before now protection l ne v = ground arith

  unavailable :
      (cache : C) (nonce : List ℕ) (before now protection : ℕ)
      → now < before + protection
      → lru.get cache nonce ≢ none
      → Since before (lru.get cache nonce)
      → is_nonce_available lru cache nonce now protection ≡ (lru.used cache nonce, false)
  unfolding is_nonce_available
  unavailable cache nonce before now protection l ne v =
      rw (Since-is_recent (lru.get cache nonce) before now protection l ne v, is_nonce_available)
        refl

  -- A hello whose nonce was taken before, within the protection time, changes nothing in the server: no session
  -- is closed and no lease is taken. Any nonces may have been offered in between, as long as the cache has not
  -- evicted this one. Only a session of the client that waits under the same nonce and key is answered again.
  pub handle_hello-replay :
      (s : Server) (cache : C) (h : Hello) (others : List (List ℕ × ℕ))
      (channel before now protection : ℕ) (joined derived sent : Bool)
      → (is_nonce_available lru cache h.nonce before protection).1 ≡ true
      → All (λ o. before ≤ o.1) others
      → now < before + protection
      → let taken = (is_nonce_available lru cache h.nonce before protection).0 in
        let later = offered lru taken others protection in
        lru.get later h.nonce ≢ none
        → (IsSameProof s h → ⊥)
        → handle_hello lru s later h channel now protection joined derived sent
          ≡ (s, lru.used later h.nonce)
  unfolding handle_hello conclude
  handle_hello-replay s cache h others channel before now protection joined derived sent a order l
        kept other =
      let taken = (is_nonce_available lru cache h.nonce before protection).0 in
      let later = offered lru taken others protection in
      let again = unavailable later h.nonce before now protection l kept (
        offered-Since others taken h.nonce before protection order
          (taken-Since cache h.nonce before protection a)) in
      ap (conclude lru h channel joined derived sent) (
        prepare-replayed lru s later h (lookup h.source_id s.current) now protection
          (pending_session-none s h other) (ap (λ p. p.1) again))
      ∙ ap (λ c. (s, c)) (ap (λ p. p.0) again)
