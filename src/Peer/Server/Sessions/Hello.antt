-- ===== src/Peer/Server/Sessions/Hello.antt =====
-- peer/server: the sessions of hello.go, and security.go. `Lru` is the cache of the library golang-lru.
-- The hello is one that was authenticated; `joined` says that `OnNewClientJoin` takes it, `derived` that keys,
-- codecs and channels could be made, `sent` that the answer was published.
use telekit.Common.{
  ℕ, ◌+◌, ◌-◌, ◌≡◌, ◌≢◌, ◌⊎◌, Bool, true, false, not, ◌&&◌, Option, none, some, List, [], ◌∷◌, ◌++◌,
  ltb, if◌then◌else◌, length,
}
use telekit.Common.Bytes.{same_bytes}
use telekit.Common.Entries.{lookup}
use telekit.Peer.Server.Sessions.{
  Connection, Server, at, is_nil, reserve_connection, close_connection, set_connection,
  start_handshake_timer,
}

-- `Get` moves its key to the front (`used`) and changes no value. What was added last is there, and `Add` may
-- evict other keys but changes none of their values.
pub record Lru (C : Type 0) : Type 0 where
  pub get : C → List ℕ → Option ℕ
  pub used : C → List ℕ → C
  pub add : C → List ℕ → ℕ → C
  pub get-used : (c : C) (key other : List ℕ) → get (used c key) other ≡ get c other
  pub get-add : (c : C) (key : List ℕ) (value : ℕ) → get (add c key value) key ≡ some value
  pub get-add_other :
      (c : C) (key : List ℕ) (value : ℕ) (other : List ℕ)
      → other ≢ key
      → (get (add c key value) other ≡ get c other) ⊎ (get (add c key value) other ≡ none)

pub record Hello : Type 0 where
  pub source_id : ℕ
  pub nonce : List ℕ
  pub ephemeral_key : List ℕ

-- `isNonceAvailable`, times being milliseconds.
module _ {C : Type 0} (lru : Lru C) where
  abbrev pub is_recent : Option ℕ → ℕ → ℕ → Bool
  is_recent none now protection = false
  is_recent (some seen) now protection = ltb now (seen + protection)

  unfoldable pub is_nonce_available : C → List ℕ → ℕ → ℕ → C × Bool
  is_nonce_available cache nonce now protection =
      elim (is_recent (lru.get cache nonce) now protection) [
        | true ↦ (lru.used cache nonce, false)
        | false ↦ (lru.add (lru.used cache nonce) nonce now, true)
      ]

  -- Nonces that are offered one after the other, each at its time.
  abbrev pub offered : C → List (List ℕ × ℕ) → ℕ → C
  offered cache [] protection = cache
  offered cache ((nonce, now) ∷ rest) protection =
      offered (is_nonce_available cache nonce now protection).0 rest protection

-- What `prepareClientHello` answers; `reused` names the pending session.
pub data Prepared : Type 0 where
  reused : ℕ → Prepared
  replayed fresh : Prepared

abbrev pub is_pending : Connection → Hello → Bool
is_pending c h =
    not c.closed
    && is_nil c.transport_conn
    && is_nil c.selected_transport
    && same_bytes c.client_nonce h.nonce
    && same_bytes c.client_ephemeral_key h.ephemeral_key

-- The session that the client has, when it is pending under the same proof.
unfoldable pub pending_session : Server → Hello → Option ℕ → Option ℕ
pending_session s h none = none
pending_session s h (some i) = elim (at s i) [
  | none ↦ none
  | some c ↦ if is_pending c h then some i else none
]

unfoldable pub close_existing : Server → Option ℕ → Server
close_existing s none = s
close_existing s (some i) = close_connection s i

-- The connection that `handleClientHello` makes.
abbrev pub new_connection : Hello → ℕ → Connection
new_connection h channel = record {
  source_id = h.source_id;
  client_nonce = h.nonce;
  client_ephemeral_key = h.ephemeral_key;
  transport_conn = none;
  data_channel = some channel;
  ice_agent = none;
  selected_transport = none;
  transport_max_frame_size = 0;
  pending_ice_offer = none;
  last_transport_read = 0;
  established = false;
  closed = false;
  buffer_closed = false;
  pending_lease = true;
  total_lease = true;
  handshake_timer = false;
}

-- From the policy of the application to the end of `handleClientHello`.
unfoldable pub admit : Server → Hello → ℕ → Bool → Bool → Server × Option ℕ
admit s h channel joined derived =
    if not joined
    then (s, none)
    else (let (t, granted) = reserve_connection s in
        if not granted
        then (t, none)
        else if not derived
        then (
          record t {
            pending_handshakes = t.pending_handshakes - 1;
            total_connections = t.total_connections - 1;
          },
          none,
        )
        else (
          record t { connections = t.connections ++ new_connection h channel ∷ [] },
          some (length t.connections),
        ))

-- The rest of the subscription's handler, on the connection that is returned.
unfoldable pub settle : Server → Option ℕ → Bool → Server
settle s none sent = s
settle s (some i) sent =
    let (t, in_map) = set_connection s i in
    if not in_map
    then close_connection t i
    else (let u = start_handshake_timer t i in if sent then u else close_connection u i)

module _ {C : Type 0} (lru : Lru C) where
  unfoldable pub prepare_client_hello :
      Server → C → Hello → Option ℕ → ℕ → ℕ → Server × C × Prepared
  prepare_client_hello s cache h existing now protection = elim (pending_session s h existing) [
    | some i ↦ (s, cache, reused i)
    | none ↦
        let (cache', available) = is_nonce_available lru cache h.nonce now protection in
        elim available [
          | false ↦ (s, cache', replayed)
          | true ↦ (close_existing s existing, cache', fresh)
        ]
  ]

  -- What the handler does next.
  unfoldable pub conclude : Hello → ℕ → Bool → Bool → Bool → Server × C × Prepared → Server × C
  conclude h channel joined derived sent (s, cache, reused i) = (settle s (some i) sent, cache)
  conclude h channel joined derived sent (s, cache, replayed) = (s, cache)
  conclude h channel joined derived sent (s, cache, fresh) =
      let (t, made) = admit s h channel joined derived in (settle t made sent, cache)

  -- The whole handler of a hello.
  unfoldable pub handle_hello : Server → C → Hello → ℕ → ℕ → ℕ → Bool → Bool → Bool → Server × C
  handle_hello s cache h channel now protection joined derived sent =
      conclude h channel joined derived sent
        (prepare_client_hello s cache h (lookup h.source_id s.current) now protection)
