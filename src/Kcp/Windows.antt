-- ===== src/Kcp/Windows.antt =====
-- The windows are within their bounds, and nothing wraps.
use native.Mathlib.Nat.{mod-eq_of_lt, mul-le-mul, mul-le-mul_right, div-mul-le_self}
use telekit.Common.{
  ℕ, ◌*◌, ◌/◌, ◌%◌, ◌^◌, ◌≤◌, min, max, ◌≡◌, ap, ◌∙◌, ◌==◌, ltb, if◌then◌else◌, arith, inl, inr,
  Bool-cases,
}
use telekit.Kcp.{
  Transport, KcpSettings, mtu_of, tti_of, or_default, max_window, clamp_kcp_window,
  xray_in_flight_window, send_buffer, send_window_of, xray_kcp_settings, default_max_sending_window,
}

clamp-bounds :
    (n : ℕ)
    → (1 ≤ clamp_kcp_window n) × (clamp_kcp_window n ≤ max_window) × (clamp_kcp_window n ≤ max 1 n)
unfolding clamp_kcp_window
clamp-bounds n = (ground arith, ground arith, ground arith)

mtu-bounds : (t : Transport) → (50 ≤ mtu_of t) × (mtu_of t ≤ 1500)
unfolding mtu_of
mtu-bounds t = (ground arith, ground arith)

tti-bounds : (t : Transport) → (10 ≤ tti_of t) × (tti_of t ≤ 1000)
unfolding tti_of
tti-bounds t = (ground arith, ground arith)

in_flight-bounds :
    (capacity mtu tti : ℕ)
    → (8 ≤ xray_in_flight_window capacity mtu tti)
      × (xray_in_flight_window capacity mtu tti ≤ max_window)
unfolding xray_in_flight_window clamp_kcp_window
in_flight-bounds capacity mtu tti =
    let size = (capacity * 1024 % 2 ^ 64) * 1024 % 2 ^ 64 / mtu / (1000 / tti) in bounded size
  where
    bounded :
        (size : ℕ)
        → let n = clamp_kcp_window (if ltb size 8 then 8 else size) in (8 ≤ n) × (n ≤ max_window)
    bounded size = (ground arith, ground arith)

-- The buffer holds a packet at least, and no more bytes than the sending window, or than one packet.
send_buffer-fits :
    (limit mtu : ℕ) → (1 ≤ send_buffer limit mtu) × (send_buffer limit mtu * mtu ≤ max limit mtu)
unfolding send_buffer
send_buffer-fits limit mtu = elim (Bool-cases (limit / mtu == 0)) [
  | inl e ↦ rw e (omega arith, omega arith)
  | inr e ↦ rw e (ground arith, omega (arith, div-mul-le_self limit mtu))
]

send_window-fits :
    (in_flight multiplier buffer : ℕ)
    → 1 ≤ buffer
    → send_window_of in_flight multiplier buffer ≤ buffer
unfolding send_window_of clamp_kcp_window
send_window-fits in_flight multiplier buffer h = bounded (in_flight * multiplier % 2 ^ 64)
  where
    bounded :
        (window : ℕ) → clamp_kcp_window (if ltb buffer window then buffer else window) ≤ buffer
    bounded window = ground arith

-- The product of two numbers of 32 bits does not wrap.
send_window-unwrapped :
    (in_flight multiplier buffer : ℕ)
    → in_flight ≤ max_window
    → multiplier ≤ max_window
    → send_window_of in_flight multiplier buffer
      ≡ clamp_kcp_window (min buffer (in_flight * multiplier))
unfolding send_window_of
send_window-unwrapped in_flight multiplier buffer h k =
    let within : in_flight * multiplier ≤ max_window * max_window = mul-le-mul h k in
    let whole : in_flight * multiplier % 2 ^ 64 ≡ in_flight * multiplier =
      mod-eq_of_lt (omega arith) in
    ap (λ w. clamp_kcp_window (if ltb buffer w then buffer else w)) whole
    ∙ ap clamp_kcp_window (smaller (in_flight * multiplier))
  where
    smaller : (w : ℕ) → (if ltb buffer w then buffer else w) ≡ min buffer w
    smaller w = ground arith

-- What the Go types of the configuration say: three of its numbers have 32 bits.
pub record HasWords (t : Transport) : Type 0 where
  pub uplink_word : t.uplink_capacity ≤ max_window
  pub downlink_word : t.downlink_capacity ≤ max_window
  pub multiplier_word : t.cwnd_multiplier ≤ max_window

-- The packets that a capacity of so many MiB a second sends in one interval, 8 at least, with no wrapping.
abbrev pub packets_of : ℕ → ℕ → ℕ → ℕ
packets_of capacity mtu tti = min max_window (max 8 (capacity * 1024 * 1024 / mtu / (1000 / tti)))

in_flight-eq-packets_of :
    (capacity mtu tti : ℕ)
    → capacity ≤ max_window
    → xray_in_flight_window capacity mtu tti ≡ packets_of capacity mtu tti
unfolding xray_in_flight_window clamp_kcp_window
in_flight-eq-packets_of capacity mtu tti h =
    let whole : (capacity * 1024 % 2 ^ 64) * 1024 % 2 ^ 64 ≡ capacity * 1024 * 1024 =
      ap (λ k. k * 1024 % 2 ^ 64) (mod-eq_of_lt (omega arith)) ∙ mod-eq_of_lt (omega arith) in
    ap
      (λ n. clamp_kcp_window (if ltb (n / mtu / (1000 / tti)) 8 then 8 else n / mtu / (1000 / tti)))
      whole
    ∙ clamped (capacity * 1024 * 1024 / mtu / (1000 / tti))
  where
    clamped : (n : ℕ) → clamp_kcp_window (if ltb n 8 then 8 else n) ≡ min max_window (max 8 n)
    clamped n = ground arith

-- What a session is configured with. The windows are given as products that do not wrap.
pub record IsSettled (t : Transport) (s : KcpSettings) : Type 0 where
  pub mtu_range : (50 ≤ s.mtu) × (s.mtu ≤ 1500)
  pub tti_range : (10 ≤ s.tti) × (s.tti ≤ 1000)
  pub some_window : (1 ≤ s.initial_send_window) × (s.initial_send_window ≤ s.send_window)
  pub small_start : s.initial_send_window ≤ 128
  pub window_range : s.send_window ≤ max_window
  pub window_fits :
      s.send_window * s.mtu ≤ max (or_default t.max_sending_window default_max_sending_window) s.mtu
  pub unwrapped :
      s.send_window
      ≡ clamp_kcp_window (
          min (send_buffer (or_default t.max_sending_window default_max_sending_window) s.mtu) (
            packets_of (or_default t.uplink_capacity 5) s.mtu s.tti
            * or_default t.cwnd_multiplier 20))
  pub received : s.receive_window ≡ packets_of (or_default t.downlink_capacity 30) s.mtu s.tti
  pub receive_range : (8 ≤ s.receive_window) × (s.receive_window ≤ max_window)

-- The window that a session begins with.
pub initial-le-send_window :
    (t : Transport)
    → t.cwnd_multiplier ≤ max_window
    → (1 ≤ (xray_kcp_settings t).send_window)
      × ((xray_kcp_settings t).send_window ≤ max_window)
      × ((xray_kcp_settings t).initial_send_window ≤ (xray_kcp_settings t).send_window)
unfolding xray_kcp_settings clamp_kcp_window
initial-le-send_window t h =
    let mtu = mtu_of t in
    let flight = xray_in_flight_window (or_default t.uplink_capacity 5) mtu (tti_of t) in
    let buffer = send_buffer (or_default t.max_sending_window default_max_sending_window) mtu in
    let window = send_window_of flight (or_default t.cwnd_multiplier 20) buffer in
    let multiplier : or_default t.cwnd_multiplier 20 ≤ max_window = ground arith in
    let unwrapped =
      send_window-unwrapped flight (or_default t.cwnd_multiplier 20) buffer
        (in_flight-bounds (or_default t.uplink_capacity 5) mtu (tti_of t)).1 multiplier in
    let range = clamp-bounds (min buffer (flight * or_default t.cwnd_multiplier 20)) in
    let some_window : 1 ≤ window = omega (arith, unwrapped, range.0) in
    (some_window, omega (arith, unwrapped, range.1), start window some_window)
  where
    start : (n : ℕ) → 1 ≤ n → clamp_kcp_window (if ltb 128 n then 128 else n) ≤ n
    start n l = ground arith

-- Whatever the configuration, the packet size and the interval are in their ranges, the first window is
-- between 1 and 128 and at most the send window, the send window in bytes is within the configured maximum or
-- is one packet, and the receive window is at least 8. No product wraps: both windows are those of the capacities
-- in whole numbers. Capacities and multiplier have 32 bits.
pub xray_kcp_settings-IsSettled : (t : Transport) → HasWords t → IsSettled t (xray_kcp_settings t)
unfolding xray_kcp_settings clamp_kcp_window
xray_kcp_settings-IsSettled t v =
    let mtu = mtu_of t in
    let tti = tti_of t in
    let flight = xray_in_flight_window (or_default t.uplink_capacity 5) mtu tti in
    let back = xray_in_flight_window (or_default t.downlink_capacity 30) mtu tti in
    let limit = or_default t.max_sending_window default_max_sending_window in
    let buffer = send_buffer limit mtu in
    let window = send_window_of flight (or_default t.cwnd_multiplier 20) buffer in
    let (one_packet, in_buffer) = send_buffer-fits limit mtu in
    let (some_back, few_back) = in_flight-bounds (or_default t.downlink_capacity 30) mtu tti in
    let multiplier : or_default t.cwnd_multiplier 20 ≤ max_window =
      ground (arith, v.multiplier_word) in
    let uplink : or_default t.uplink_capacity 5 ≤ max_window = ground (arith, v.uplink_word) in
    let downlink : or_default t.downlink_capacity 30 ≤ max_window =
      ground (arith, v.downlink_word) in
    let small : window * mtu ≤ buffer * mtu =
      mul-le-mul_right mtu
        (send_window-fits flight (or_default t.cwnd_multiplier 20) buffer one_packet) in
    let unwrapped =
      send_window-unwrapped flight (or_default t.cwnd_multiplier 20) buffer
        (in_flight-bounds (or_default t.uplink_capacity 5) mtu tti).1 multiplier in
    let (_, within, begins) = initial-le-send_window t v.multiplier_word in
    record {
      mtu_range = mtu-bounds t;
      tti_range = tti-bounds t;
      some_window = ((clamp-bounds (if ltb 128 window then 128 else window)).0, begins);
      small_start = at_most window;
      window_range = within;
      window_fits = omega (arith, small, in_buffer);
      unwrapped =
          unwrapped
          ∙ ap (λ n. clamp_kcp_window (min buffer (n * or_default t.cwnd_multiplier 20)))
              (in_flight-eq-packets_of (or_default t.uplink_capacity 5) mtu tti uplink);
      received =
          clamped_again back some_back few_back
          ∙ in_flight-eq-packets_of (or_default t.downlink_capacity 30) mtu tti downlink;
      receive_range = in_range back some_back few_back;
    }
  where
    at_most : (n : ℕ) → clamp_kcp_window (if ltb 128 n then 128 else n) ≤ 128
    at_most n = ground arith

    in_range :
        (n : ℕ)
        → 8 ≤ n
        → n ≤ max_window
        → (8 ≤ clamp_kcp_window n) × (clamp_kcp_window n ≤ max_window)
    in_range n l k = (ground arith, ground arith)

    clamped_again : (n : ℕ) → 8 ≤ n → n ≤ max_window → clamp_kcp_window n ≡ n
    clamped_again n l k = ground arith
