-- ===== src/Peer/Client.antt =====
-- peer/client: the transport and the agent of a client, in conn.go and disconnect.go. Pointers are numbers.
-- `given` and `closed` record, of transports and of agents, which ones the client was given and which ones it
-- closed. The receive buffer has no budget.
-- What is passed in is not nil, but for a data channel. Callbacks, addresses and the message to the server are left out.
pub mod Owned
mod Tests
use telekit.Common.{
  ℕ, ◌+◌, ◌%◌, ◌^◌, Bool, true, false, not, ◌&&◌, ◌||◌, Option, none, some, List, [], ◌∷◌,
  if◌then◌else◌,
}
use telekit.Peer.Buffer
use telekit.Peer.Buffer.{RecvBuffer}
use telekit.Peer.Server.Sessions.{is_nil, points_to}

pub record Handles : Type 0 where
  pub given : List ℕ
  pub closed : List ℕ

pub record Client : Type 0 where
  pub transport_conn : Option ℕ
  pub data_channel : Option ℕ
  pub ice_agent : Option ℕ
  pub manual_disconnect : Bool
  pub connected : Bool
  pub reconnect_generation : ℕ
  pub recv_buf : RecvBuffer
  pub conns : Handles
  pub agents : Handles

-- `NewClient`
unfoldable pub new_client : ℕ → Client
new_client receive_buffer_size = record {
  transport_conn = none;
  data_channel = none;
  ice_agent = none;
  manual_disconnect = false;
  connected = false;
  reconnect_generation = 0;
  recv_buf = Buffer.new receive_buffer_size;
  conns = record { given = []; closed = [] };
  agents = record { given = []; closed = [] };
}

-- A handle comes in, and is closed.
abbrev pub gives : Handles → ℕ → Handles
gives h k = record h { given = k ∷ h.given }

abbrev pub closes : Handles → Option ℕ → Handles
closes h none = h
closes h (some k) = record h { closed = k ∷ h.closed }

unfoldable pub install_ice_agent : Client → ℕ → Client × Bool
install_ice_agent c agent =
    if not c.manual_disconnect && is_nil c.ice_agent && is_nil c.transport_conn
    then (record c { ice_agent = some agent; agents = gives c.agents agent }, true)
    else (record c { agents = closes (gives c.agents agent) (some agent) }, false)

unfoldable pub set_transport_conn : Client → ℕ → ℕ → Option ℕ → Client × Bool
set_transport_conn c agent conn channel =
    if not c.manual_disconnect
      && points_to c.ice_agent agent
      && is_nil c.transport_conn
      && not (is_nil channel)
    then (
      record c { transport_conn = some conn; data_channel = channel; conns = gives c.conns conn },
      true,
    )
    else (record c { conns = closes (gives c.conns conn) (some conn) }, false)

unfoldable pub is_current_transport : Client → ℕ → ℕ → Bool
is_current_transport c conn channel =
    points_to c.transport_conn conn && points_to c.data_channel channel

abbrev pub reset_buffer : RecvBuffer → RecvBuffer
reset_buffer rb = elim (Buffer.reset rb none) [ none ↦ rb | some (rb', b) ↦ rb' ]

abbrev pub close_buffer : RecvBuffer → RecvBuffer
close_buffer rb = elim (Buffer.close rb none) [ none ↦ rb | some (rb', b) ↦ rb' ]

abbrev pub next_generation : ℕ → ℕ
next_generation n = (n + 1) % 2 ^ 64

-- Only the transport that is still the client's is taken down.
unfoldable pub finish_transport : Client → ℕ → ℕ → Client × Bool
finish_transport c conn channel =
    if not (is_current_transport c conn channel) then (c, false) else (
      record c {
        transport_conn = none;
        data_channel = none;
        ice_agent = none;
        connected = false;
        recv_buf = reset_buffer c.recv_buf;
        reconnect_generation = next_generation c.reconnect_generation;
        conns = closes c.conns (some conn);
        agents = closes c.agents c.ice_agent;
      },
      true,
    )

unfoldable pub disconnect : Client → Bool → Bool → Client
disconnect c cancel_reconnect closing = record c {
  transport_conn = none;
  data_channel = none;
  ice_agent = none;
  connected = false;
  reconnect_generation =
      if cancel_reconnect then next_generation c.reconnect_generation else c.reconnect_generation;
  recv_buf = if closing then close_buffer c.recv_buf else reset_buffer c.recv_buf;
  conns = closes c.conns c.transport_conn;
  agents = closes c.agents c.ice_agent;
}

-- `Disconnect`
unfoldable pub disconnect_manually : Client → Client
disconnect_manually c = disconnect (record c { manual_disconnect = true }) true true

-- What `ConnectWithContext` does first
abbrev pub reopened : Client → Client
reopened c = record c { manual_disconnect = false }

pub data Step : Type 0 where
  agent : ℕ → Step
  transport : ℕ → ℕ → Option ℕ → Step
  finish : ℕ → ℕ → Step
  drop : Bool → Bool → Step
  leave : Step
  reopen : Step

unfoldable pub step : Client → Step → Client
step c (agent a) = (install_ice_agent c a).0
step c (transport a conn channel) = (set_transport_conn c a conn channel).0
step c (finish conn channel) = (finish_transport c conn channel).0
step c (drop cancel_reconnect closing) = disconnect c cancel_reconnect closing
step c leave = disconnect_manually c
step c reopen = reopened c

unfoldable pub run : Client → List Step → Client
run c [] = c
run c (x ∷ xs) = run (step c x) xs
