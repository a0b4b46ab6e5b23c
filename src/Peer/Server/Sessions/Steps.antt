-- ===== src/Peer/Server/Sessions/Steps.antt =====
-- Every step keeps what holds of the connections.
use telekit.Common.{
  ℕ, ◌+◌, ◌<◌, ◌≡◌, inl, inr, refl, ap, Bool, true, false, not, ◌&&◌, ◌||◌, none, some, leb, arith,
  Bool-cases, Option-cases,
}
use telekit.Peer.Server.Sessions.Counts.{one}
use telekit.Peer.Server.Sessions.Sound.{IsSound, is_held, change-IsSound}
use telekit.Peer.Server.Sessions.Closing.{close_connection-IsSound}
use telekit.Peer.Server.Sessions.{
  Connection, Server, at, put, is_nil, points_to, lowered, is_current, is_current_transport,
  start_handshake_timer, handshake_timeout, install_ice_agent, install_transport, mark_established,
  receive_disconnect, receive_transport_select, receive_ice_offer, note_read, monitor_tick, chosen,
}

module _ (s : Server) (i : ℕ) (v : IsSound none s) where
  -- A change that leaves the leases alone.
  put-IsSound :
      (c c' : Connection)
      → at s i ≡ some c
      → c'.closed ≡ c.closed
      → c'.source_id ≡ c.source_id
      → c'.total_lease ≡ c.total_lease
      → c'.pending_lease ≡ c.pending_lease
      → is_held c' ≡ true
      → IsSound none (put s i c')
  put-IsSound c c' e k d t p h =
      change-IsSound none s i c c' s.pending_handshakes v e k d t (omega (arith, ap one p))
        (omega (arith, ap one p)) h

  pub start_handshake_timer-IsSound : IsSound none (start_handshake_timer s i)
  unfolding start_handshake_timer
  start_handshake_timer-IsSound = elim (Option-cases (at s i)) [
    | inl e ↦ rw (e, start_handshake_timer) v
    | inr (c, e) ↦ elim (Bool-cases (not c.handshake_timer && not c.closed)) [
      | inr k ↦ rw (e, k, start_handshake_timer) v
      | inl k ↦
          rw (e, k, start_handshake_timer)
            (put-IsSound c (record c { handshake_timer = true }) e refl refl refl refl
              (ground (arith, v.held i c e)))
    ]
  ]

  pub handshake_timeout-IsSound : IsSound none (handshake_timeout s i)
  unfolding handshake_timeout
  handshake_timeout-IsSound = elim (Option-cases (at s i)) [
    | inl e ↦ rw (e, handshake_timeout) v
    | inr (c, e) ↦ elim (Bool-cases c.pending_lease) [
      | inr k ↦ rw (e, k, handshake_timeout) v
      | inl k ↦ rw (e, k, handshake_timeout) (close_connection-IsSound none s i v)
    ]
  ]

  pub install_ice_agent-IsSound : (agent : ℕ) → IsSound none (install_ice_agent s i agent).0
  unfolding install_ice_agent
  install_ice_agent-IsSound agent = elim (Option-cases (at s i)) [
    | inl e ↦ rw (e, install_ice_agent) v
    | inr (c, e) ↦
        elim (Bool-cases
          (not c.closed && is_nil c.ice_agent && is_nil c.transport_conn && is_current s i)) [
            | inr k ↦ rw (e, k, install_ice_agent) v
            | inl k ↦
                rw (e, k, install_ice_agent)
                  (put-IsSound c (record c { ice_agent = some agent }) e refl refl refl refl
                    (ground (arith, v.held i c e)))
          ]
  ]

  pub install_transport-IsSound :
      (agent conn max_frame_size : ℕ)
      → IsSound none (install_transport s i agent conn max_frame_size).0
  unfolding install_transport
  install_transport-IsSound agent conn max_frame_size = elim (Option-cases (at s i)) [
    | inl e ↦ rw (e, install_transport) v
    | inr (c, e) ↦
        elim (Bool-cases (
          not c.closed
          && points_to c.ice_agent agent
          && is_nil c.transport_conn
          && not (is_nil c.data_channel)
          && is_current s i)) [
            | inr k ↦ rw (e, k, install_transport) v
            | inl k ↦
                rw (e, k, install_transport)
                  (put-IsSound c
                    (record c {
                      transport_conn = some conn;
                      transport_max_frame_size = max_frame_size;
                    })
                    e refl refl refl refl (ground (arith, v.held i c e)))
          ]
  ]

  pub mark_established-IsSound : (agent conn : ℕ) → IsSound none (mark_established s i agent conn).0
  unfolding mark_established
  mark_established-IsSound agent conn = elim (Option-cases (at s i)) [
    | inl e ↦ rw (e, mark_established) v
    | inr (c, e) ↦
        elim (Bool-cases (
          not c.closed
          && points_to c.ice_agent agent
          && points_to c.transport_conn conn
          && is_current s i)) [
            | inr k ↦ rw (e, k, mark_established) v
            | inl k ↦
                rw (e, k, mark_established)
                  (change-IsSound none s i c
                    (record c {
                      established = true;
                      pending_lease = false;
                      handshake_timer = false;
                    })
                    (lowered c.pending_lease s.pending_handshakes) v e refl refl refl (omega arith)
                    (lowered-one c.pending_lease s.pending_handshakes (omega (arith, v.pending)))
                    (ground (arith, v.held i c e)))
          ]
  ]
    where
      lowered-one : (b : Bool) (n : ℕ) → 0 < n → lowered b n + one b ≡ n + 0
      lowered-one true n p = omega arith
      lowered-one false n p = refl

  pub receive_disconnect-IsSound : IsSound none (receive_disconnect s i)
  unfolding receive_disconnect
  receive_disconnect-IsSound = elim (Bool-cases (is_current s i)) [
    | inl k ↦ rw (k, receive_disconnect) (close_connection-IsSound none s i v)
    | inr k ↦ rw (k, receive_disconnect) v
  ]

  pub receive_transport_select-IsSound :
      (name : ℕ) (offered : Bool) → IsSound none (receive_transport_select s i name offered).0
  unfolding receive_transport_select
  receive_transport_select-IsSound name offered = elim (Option-cases (at s i)) [
    | inl e ↦ rw (e, receive_transport_select) v
    | inr (c, e) ↦ elim (Bool-cases (is_current s i && offered && not c.closed)) [
      | inr k ↦ rw (e, k, receive_transport_select) v
      | inl k ↦
          rw (e, k, receive_transport_select)
            (put-IsSound c
              (record c {
                selected_transport = chosen c.selected_transport name;
                pending_ice_offer = none;
              })
              e refl refl refl refl (v.held i c e))
    ]
  ]

  pub receive_ice_offer-IsSound :
      (offer : ℕ) (valid : Bool) → IsSound none (receive_ice_offer s i offer valid).0
  unfolding receive_ice_offer
  receive_ice_offer-IsSound offer valid = elim (Option-cases (at s i)) [
    | inl e ↦ rw (e, receive_ice_offer) v
    | inr (c, e) ↦ elim (Bool-cases (is_current s i && valid && not c.closed)) [
      | inr k ↦ rw (e, k, receive_ice_offer) v
      | inl k ↦
          rw (e, k, receive_ice_offer)
            (elim (Bool-cases (is_nil c.selected_transport)) [
              | inr m ↦ rw m v
              | inl m ↦ rw m (
                  put-IsSound c (record c { pending_ice_offer = some offer }) e refl refl refl refl
                    (v.held i c e))
            ])
    ]
  ]

  pub note_read-IsSound : (now : ℕ) → IsSound none (note_read s i now)
  unfolding note_read
  note_read-IsSound now = elim (Option-cases (at s i)) [
    | inl e ↦ rw (e, note_read) v
    | inr (c, e) ↦
        rw (e, note_read)
          (put-IsSound c (record c { last_transport_read = now }) e refl refl refl refl
            (v.held i c e))
  ]

  pub monitor_tick-IsSound :
      (conn channel now timeout : ℕ) (beats : Bool)
      → IsSound none (monitor_tick s i conn channel now timeout beats)
  unfolding monitor_tick
  monitor_tick-IsSound conn channel now timeout beats = elim (Option-cases (at s i)) [
    | inl e ↦ rw (e, monitor_tick) v
    | inr (c, e) ↦ elim (Bool-cases (is_current_transport s i conn channel)) [
      | inr k ↦ rw (e, k, monitor_tick) v
      | inl k ↦
          rw (e, k, monitor_tick)
            (elim (Bool-cases (leb (c.last_transport_read + timeout) now || not beats)) [
              | inl m ↦ rw m (close_connection-IsSound none s i v)
              | inr m ↦ rw m v
            ])
    ]
  ]
