-- ===== src/Peer/Server/Sessions.antt =====
-- peer/server: limits.go, close.go, the state of connections in conn.go, and what listen.go does with it.
-- A pointer to a connection is its place among all that the server made; the other pointers, the names of
-- clients and of transports, and times are numbers, and no pointer, name or offer is `none`. Of the receive
-- buffer only whether it is closed. A method is one step, and `Close` runs the body of `closeOnce` when
-- `closed` was not set. The counters are int64, stored `bias` higher. Callbacks are left out. `current` is a map of
-- the library haxmap.
pub mod Hello
pub mod Counts
pub mod Sound
pub mod Closing
pub mod Steps
pub mod Joining
pub mod Handling
pub mod Replays
pub mod Runs
mod Tests
use telekit.Common.{
  ℕ, zero, suc, ◌+◌, ◌-◌, ◌^◌, Bool, true, false, not, ◌&&◌, ◌||◌, Option, none, some, List, [],
  ◌∷◌, ◌++◌, ◌==◌, ltb, leb, if◌then◌else◌, length, get_elem?, set,
}
use telekit.Common.Entries.{Directory, lookup, insert, remove}

pub record Connection : Type 0 where
  pub source_id : ℕ
  pub client_nonce : List ℕ
  pub client_ephemeral_key : List ℕ
  pub transport_conn : Option ℕ
  pub data_channel : Option ℕ
  pub ice_agent : Option ℕ
  pub selected_transport : Option ℕ
  pub transport_max_frame_size : ℕ
  pub pending_ice_offer : Option ℕ
  pub last_transport_read : ℕ
  pub established : Bool
  pub closed : Bool
  pub buffer_closed : Bool
  pub pending_lease : Bool
  pub total_lease : Bool
  pub handshake_timer : Bool

-- `connections` is every connection that was made, `current` the map of the same name.
pub record Server : Type 0 where
  pub connections : List Connection
  pub current : Directory
  pub total_connections : ℕ
  pub pending_handshakes : ℕ
  pub max_connections : ℕ
  pub max_pending_handshakes : ℕ
  pub shut : Bool

abbrev pub bias : ℕ
bias = 2 ^ 63

abbrev pub at : Server → ℕ → Option Connection
at s i = get_elem? s.connections i

abbrev pub put : Server → ℕ → Connection → Server
put s i c = record s { connections = set s.connections i c }

abbrev pub is_nil : Option ℕ → Bool
is_nil none = true
is_nil (some p) = false

-- Whether a pointer that is read is the one at hand.
abbrev pub points_to : Option ℕ → ℕ → Bool
points_to none q = false
points_to (some p) q = p == q

unfoldable pub reserve_counter : ℕ → ℕ → ℕ × Bool
reserve_counter counter limit =
    if leb (bias + limit) counter then (counter, false) else (counter + 1, true)

unfoldable pub reserve_connection : Server → Server × Bool
reserve_connection s =
    let (total, room) = reserve_counter s.total_connections s.max_connections in
    if not room
    then (s, false)
    else (let (pending, free) = reserve_counter s.pending_handshakes s.max_pending_handshakes in
        if not free
        then (record s { total_connections = total - 1 }, false)
        else (record s { total_connections = total; pending_handshakes = pending }, true))

unfoldable pub is_current : Server → ℕ → Bool
is_current s i = elim (at s i) [
  | none ↦ false
  | some c ↦ not c.closed && points_to (lookup c.source_id s.current) i
]

-- `releaseLease` and the other resets of `Close`.
abbrev pub emptied : Connection → Connection
emptied c = record c {
  closed = true;
  established = false;
  buffer_closed = true;
  handshake_timer = false;
  pending_lease = false;
  total_lease = false;
  transport_conn = none;
  data_channel = none;
  ice_agent = none;
}

abbrev pub lowered : Bool → ℕ → ℕ
lowered true n = n - 1
lowered false n = n

-- `removeCurrent`
abbrev pub remove_current : Server → ℕ → Connection → Directory
remove_current s i c =
    if points_to (lookup c.source_id s.current) i then remove c.source_id s.current else s.current

-- `Connection.Close`
unfoldable pub close_connection : Server → ℕ → Server
close_connection s i = elim (at s i) [
  | none ↦ s
  | some c ↦ elim c.closed [
    | true ↦ s
    | false ↦ record s {
      connections = set s.connections i (emptied c);
      current = remove_current s i c;
      total_connections = lowered c.total_lease s.total_connections;
      pending_handshakes = lowered c.pending_lease s.pending_handshakes;
    }
  ]
]

unfoldable pub set_connection : Server → ℕ → Server × Bool
set_connection s i = if s.shut then (s, false) else (elim (at s i) [
  | none ↦ (s, false)
  | some c ↦
      if c.closed then (s, false) else (record s { current = insert c.source_id i s.current }, true)
])

unfoldable pub start_handshake_timer : Server → ℕ → Server
start_handshake_timer s i = elim (at s i) [
  | none ↦ s
  | some c ↦
      if not c.handshake_timer && not c.closed
      then put s i (record c { handshake_timer = true })
      else s
]

-- What the timer does when it fires.
unfoldable pub handshake_timeout : Server → ℕ → Server
handshake_timeout s i = elim (at s i) [
  | none ↦ s
  | some c ↦ elim c.pending_lease [ true ↦ close_connection s i | false ↦ s ]
]

-- The name is `none` when the setup may not begin.
unfoldable pub selected_transport_for_setup : Server → ℕ → Option ℕ
selected_transport_for_setup s i = elim (at s i) [
  | none ↦ none
  | some c ↦
      if not c.closed && is_nil c.ice_agent && is_nil c.transport_conn && is_current s i
      then c.selected_transport
      else none
]

unfoldable pub install_ice_agent : Server → ℕ → ℕ → Server × Bool
install_ice_agent s i agent = elim (at s i) [
  | none ↦ (s, false)
  | some c ↦
      elim (not c.closed && is_nil c.ice_agent && is_nil c.transport_conn && is_current s i) [
        | true ↦ (put s i (record c { ice_agent = some agent }), true)
        | false ↦ (s, false)
      ]
]

unfoldable pub owns_ice_agent : Server → ℕ → ℕ → Bool
owns_ice_agent s i agent = elim (at s i) [
  | none ↦ false
  | some c ↦ not c.closed && points_to c.ice_agent agent && is_current s i
]

unfoldable pub install_transport : Server → ℕ → ℕ → ℕ → ℕ → Server × Bool
install_transport s i agent conn max_frame_size = elim (at s i) [
  | none ↦ (s, false)
  | some c ↦
      elim (not c.closed
        && points_to c.ice_agent agent
        && is_nil c.transport_conn
        && not (is_nil c.data_channel)
        && is_current s i) [
          | true ↦ (
            put s i (record c {
              transport_conn = some conn;
              transport_max_frame_size = max_frame_size;
            }),
            true,
          )
          | false ↦ (s, false)
        ]
]

unfoldable pub is_current_transport : Server → ℕ → ℕ → ℕ → Bool
is_current_transport s i conn channel = elim (at s i) [
  | none ↦ false
  | some c ↦
      not c.closed
      && points_to c.transport_conn conn
      && points_to c.data_channel channel
      && is_current s i
]

unfoldable pub mark_established : Server → ℕ → ℕ → ℕ → Server × Bool
mark_established s i agent conn = elim (at s i) [
  | none ↦ (s, false)
  | some c ↦
      elim (not c.closed
        && points_to c.ice_agent agent
        && points_to c.transport_conn conn
        && is_current s i) [
          | false ↦ (s, false)
          | true ↦ (
            record s {
              connections =
                  set s.connections i (record c {
                    established = true;
                    pending_lease = false;
                    handshake_timer = false;
                  });
              pending_handshakes = lowered c.pending_lease s.pending_handshakes;
            },
            true,
          )
        ]
]

-- An authenticated message that disconnects, selects a transport, or makes an offer. `offered` says whether
-- the server has the transport, `valid` whether the offer is complete and within the limits; an offer that is
-- returned is one to handle.
unfoldable pub receive_disconnect : Server → ℕ → Server
receive_disconnect s i = elim (is_current s i) [ true ↦ close_connection s i | false ↦ s ]

abbrev pub chosen : Option ℕ → ℕ → Option ℕ
chosen none name = some name
chosen (some old) name = some old

unfoldable pub receive_transport_select : Server → ℕ → ℕ → Bool → Server × Option ℕ
receive_transport_select s i name offered = elim (at s i) [
  | none ↦ (s, none)
  | some c ↦ elim (is_current s i && offered && not c.closed) [
    | false ↦ (s, none)
    | true ↦ (
      put s i (record c {
        selected_transport = chosen c.selected_transport name;
        pending_ice_offer = none;
      }),
      c.pending_ice_offer,
    )
  ]
]

unfoldable pub receive_ice_offer : Server → ℕ → ℕ → Bool → Server × Option ℕ
receive_ice_offer s i offer valid = elim (at s i) [
  | none ↦ (s, none)
  | some c ↦ elim (is_current s i && valid && not c.closed) [
    | false ↦ (s, none)
    | true ↦ elim (is_nil c.selected_transport) [
      | true ↦ (put s i (record c { pending_ice_offer = some offer }), none)
      | false ↦ (s, some offer)
    ]
  ]
]

-- `lastTransportRead.Store`
unfoldable pub note_read : Server → ℕ → ℕ → Server
note_read s i now = elim (at s i) [
  | none ↦ s
  | some c ↦ put s i (record c { last_transport_read = now })
]

-- One tick of `monitorTransport`; `beats` says whether the heartbeat is sent.
unfoldable pub monitor_tick : Server → ℕ → ℕ → ℕ → ℕ → ℕ → Bool → Server
monitor_tick s i conn channel now timeout beats = elim (at s i) [
  | none ↦ s
  | some c ↦ elim (is_current_transport s i conn channel) [
    | false ↦ s
    | true ↦ elim (leb (c.last_transport_read + timeout) now || not beats) [
      | true ↦ close_connection s i
      | false ↦ s
    ]
  ]
]

unfoldable pub close_all : Server → Directory → Server
close_all s [] = s
close_all s ((id, i) ∷ rest) = close_all (close_connection s i) rest

-- `Server.Close`, its map being read before any connection is closed.
unfoldable pub close_server : Server → Server
close_server s = record (close_all (record s { shut = true }) s.current) { current = [] }
