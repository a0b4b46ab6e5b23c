-- ===== src/Peer/Server/Sessions/Runs.antt =====
-- A server from its start on, in any order of steps.
use telekit.Common.{ℕ, Bool, false, none, List, [], ◌∷◌, arith}
use telekit.Peer.Server.Sessions.Sound.{IsSound}
use telekit.Peer.Server.Sessions.Closing.{IsShut, close_connection-IsSound, close_server-IsShut}
use telekit.Peer.Server.Sessions.Steps.{
  handshake_timeout-IsSound, install_ice_agent-IsSound, install_transport-IsSound,
  mark_established-IsSound, receive_disconnect-IsSound, receive_transport_select-IsSound,
  receive_ice_offer-IsSound, note_read-IsSound, monitor_tick-IsSound,
}
use telekit.Peer.Server.Sessions.Handling.{handle_hello-IsSound}
use telekit.Peer.Server.Sessions.Hello.{Hello, Lru, handle_hello}
use telekit.Peer.Server.Sessions.{
  Server, bias, close_connection, handshake_timeout, install_ice_agent, install_transport,
  mark_established, receive_disconnect, receive_transport_select, receive_ice_offer, note_read,
  monitor_tick, close_server,
}

-- `NewServer`
unfoldable pub new_server : ℕ → ℕ → Server
new_server max_connections max_pending_handshakes = record {
  connections = [];
  current = [];
  total_connections = bias;
  pending_handshakes = bias;
  max_connections = max_connections;
  max_pending_handshakes = max_pending_handshakes;
  shut = false;
}

-- The methods, on any connection that was made.
pub data Step : Type 0 where
  hello : Hello → ℕ → ℕ → Bool → Bool → Bool → Step
  timed_out disconnect close : ℕ → Step
  agent read : ℕ → ℕ → Step
  transport : ℕ → ℕ → ℕ → ℕ → Step
  establish : ℕ → ℕ → ℕ → Step
  select offer : ℕ → ℕ → Bool → Step
  tick : ℕ → ℕ → ℕ → ℕ → ℕ → Bool → Step
  shut_down : Step

module _ {C : Type 0} (lru : Lru C) (protection : ℕ) where
  unfoldable pub step : Server × C → Step → Server × C
  step (s, cache) (hello h channel now joined derived sent) =
      handle_hello lru s cache h channel now protection joined derived sent
  step (s, cache) (timed_out i) = (handshake_timeout s i, cache)
  step (s, cache) (disconnect i) = (receive_disconnect s i, cache)
  step (s, cache) (close i) = (close_connection s i, cache)
  step (s, cache) (agent i a) = ((install_ice_agent s i a).0, cache)
  step (s, cache) (read i now) = (note_read s i now, cache)
  step (s, cache) (offer i o valid) = ((receive_ice_offer s i o valid).0, cache)
  step (s, cache) (transport i a conn max) = ((install_transport s i a conn max).0, cache)
  step (s, cache) (establish i a conn) = ((mark_established s i a conn).0, cache)
  step (s, cache) (select i name offered) = ((receive_transport_select s i name offered).0, cache)
  step (s, cache) (tick i conn channel now timeout beats) =
      (monitor_tick s i conn channel now timeout beats, cache)
  step (s, cache) shut_down = (close_server s, cache)

  unfoldable pub serve : Server × C → List Step → Server × C
  serve t [] = t
  serve t (x ∷ xs) = serve (step t x) xs

  step-IsSound :
      (s : Server) (cache : C) (x : Step) → IsSound none s → IsSound none (step (s, cache) x).0
  unfolding step
  step-IsSound s cache (hello h channel now joined derived sent) v =
      handle_hello-IsSound lru s cache h channel now protection joined derived sent v
  step-IsSound s cache (timed_out i) v = handshake_timeout-IsSound s i v
  step-IsSound s cache (disconnect i) v = receive_disconnect-IsSound s i v
  step-IsSound s cache (close i) v = close_connection-IsSound none s i v
  step-IsSound s cache (agent i a) v = install_ice_agent-IsSound s i v a
  step-IsSound s cache (read i now) v = note_read-IsSound s i v now
  step-IsSound s cache (offer i o valid) v = receive_ice_offer-IsSound s i v o valid
  step-IsSound s cache (transport i a conn max) v = install_transport-IsSound s i v a conn max
  step-IsSound s cache (establish i a conn) v = mark_established-IsSound s i v a conn
  step-IsSound s cache (select i name offered) v =
      receive_transport_select-IsSound s i v name offered
  step-IsSound s cache (tick i conn channel now timeout beats) v =
      monitor_tick-IsSound s i v conn channel now timeout beats
  step-IsSound s cache shut_down v = (close_server-IsShut s v).0

  steps-IsSound : (xs : List Step) (t : Server × C) → IsSound none t.0 → IsSound none (serve t xs).0
  unfolding serve
  steps-IsSound [] t v = v
  steps-IsSound (x ∷ xs) t v = steps-IsSound xs (step t x) (step-IsSound t.0 t.1 x v)

  new_server-IsSound : (n m : ℕ) → IsSound none (new_server n m)
  unfolding new_server
  new_server-IsSound n m = record {
    held = λ i c e. cc;
    total = omega arith;
    pending = omega arith;
    total_within = omega arith;
    pending_within = omega arith;
    entries = λ id i e. cc;
    in_map = λ i c e f l. cc;
  }

  -- Through any steps from its start on, a server's two counters are the leases that its connections hold,
  -- within the limits; a closed connection holds nothing; an established one has its agent, transport and
  -- channel and no handshake lease; and the map holds the open connections, each under its name.
  pub serve-IsSound :
      (n m : ℕ) (cache : C) (xs : List Step) → IsSound none (serve (new_server n m, cache) xs).0
  serve-IsSound n m cache xs = steps-IsSound xs (new_server n m, cache) (new_server-IsSound n m)

  -- `Server.Close` after any steps leaves no connection open, no lease out, and the map empty.
  pub serve-IsShut :
      (n m : ℕ) (cache : C) (xs : List Step)
      → IsShut (close_server (serve (new_server n m, cache) xs).0)
  serve-IsShut n m cache xs =
      (close_server-IsShut (serve (new_server n m, cache) xs).0 (serve-IsSound n m cache xs)).1
