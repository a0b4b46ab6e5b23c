-- ===== src/Kcp/Control.antt =====
-- transports/transport_kcp/congestion.go, and `monitorCongestion` of kcp.go. Times are nanoseconds, and the zero
-- time is `none`. What the session measures is an argument: the timeout of a resend and the round trip, both in
-- milliseconds; a round trip of 0 or below is 0.
use telekit.Common.{
  ℕ, ◌+◌, ◌-◌, ◌*◌, ◌/◌, ◌%◌, ◌^◌, true, false, ◌||◌, Option, none, some, List, [], ◌∷◌, ◌==◌, ltb,
  leb, if◌then◌else◌,
}
use telekit.Kcp.{KcpSettings}

pub record DeliveryRateController : Type 0 where
  pub sample_since : Option ℕ
  pub sample_bytes : ℕ
  pub max_rate : ℕ

abbrev pub since_or : Option ℕ → ℕ → ℕ
since_or none now = now
since_or (some t) now = t

-- `record` of bytes that were written.
unfoldable pub record_bytes : DeliveryRateController → ℕ → ℕ → DeliveryRateController
record_bytes c n now = if n == 0 then c else record c {
  sample_since = some (since_or c.sample_since now);
  sample_bytes = (c.sample_bytes + n) % 2 ^ 64;
}

abbrev pub max_uint64 : ℕ → ℕ → ℕ
max_uint64 a b = if ltb b a then a else b

-- The filter of the rates.
abbrev pub filtered : ℕ → ℕ → ℕ
filtered rate max_rate =
    if ltb max_rate rate
    then rate
    else if ltb rate max_rate
    then max_uint64 rate (max_rate * 7 % 2 ^ 64 / 8)
    else max_rate

unfoldable pub sample : DeliveryRateController → ℕ → DeliveryRateController × ℕ
sample c now = elim c.sample_since [
  | none ↦ (c, 0)
  | some since ↦ elim (c.sample_bytes == 0 || ltb (now - since) 500000000) [
    | true ↦ (c, 0)
    | false ↦
        let rate = filtered (c.sample_bytes * 1000000000 % 2 ^ 64 / (now - since)) c.max_rate in
        (record { sample_since = some now; sample_bytes = 0; max_rate = rate }, rate)
  ]
]

unfoldable pub bbr_target_window : ℕ → ℕ → ℕ → ℕ → ℕ
bbr_target_window rate srtt mtu limit =
    if rate == 0 || srtt == 0 || mtu == 0 || limit == 0
    then 0
    else (let bdp = rate * srtt % 2 ^ 64 / 1000 in
        let target = (bdp * 2 + mtu - 1) % 2 ^ 64 / mtu in
        let raised = if ltb target 16 then 16 else target in
        if ltb limit raised then limit else raised)

-- What `monitorCongestion` keeps; `window` is also the session's send window.
pub record Monitor : Type 0 where
  pub controller : DeliveryRateController
  pub window : ℕ
  pub degraded_since : Option ℕ

unfoldable pub new_monitor : KcpSettings → Monitor
new_monitor s = record {
  controller = record { sample_since = none; sample_bytes = 0; max_rate = 0 };
  window = s.initial_send_window;
  degraded_since = none;
}

-- The window after 750 ms of long timeouts.
unfoldable pub shrunk : ℕ → ℕ → ℕ
shrunk limit window =
    let next = window * 3 / 4 in
    let floored = if ltb next 16 then 16 else next in
    let capped = if ltb limit floored then limit else floored in
    if ltb capped window then capped else window

-- The window below a target.
unfoldable pub grown : ℕ → ℕ → ℕ → ℕ
grown limit target window =
    let step = if ltb (window / 2) 1 then 1 else window / 2 in
    let raised = if ltb target (window + step) then target else window + step in
    if ltb limit raised then limit else raised

-- A tick with a timeout of 750 ms or more.
unfoldable pub degrade : KcpSettings → Monitor → ℕ → Monitor
degrade s m now =
    let since = since_or m.degraded_since now in
    if ltb (now - since) 750000000
    then record m { degraded_since = some since }
    else record m { window = shrunk s.send_window m.window; degraded_since = some now }

-- A tick with a shorter one.
unfoldable pub recover : KcpSettings → Monitor → ℕ → ℕ → Monitor
recover s m rate srtt =
    let target = bbr_target_window rate (if srtt == 0 then s.tti else srtt) s.mtu s.send_window in
    record m {
      degraded_since = none;
      window =
          if rate == 0 || leb s.send_window m.window || leb target m.window
          then m.window
          else grown s.send_window target m.window;
    }

unfoldable pub tick : KcpSettings → Monitor → ℕ → ℕ → ℕ → Monitor
tick s m now rto srtt =
    let (c, rate) = sample m.controller now in
    let m' : Monitor = record m { controller = c } in
    if leb 750 rto then degrade s m' now else recover s m' rate srtt

pub data Step : Type 0 where
  wrote : ℕ → ℕ → Step
  ticked : ℕ → ℕ → ℕ → Step

unfoldable pub step : KcpSettings → Monitor → Step → Monitor
step s m (wrote n now) = record m { controller = record_bytes m.controller n now }
step s m (ticked now rto srtt) = tick s m now rto srtt

unfoldable pub run : KcpSettings → Monitor → List Step → Monitor
run s m [] = m
run s m (x ∷ xs) = run s (step s m x) xs
