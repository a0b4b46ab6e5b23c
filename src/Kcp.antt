-- ===== src/Kcp.antt =====
-- transports/transport_kcp/settings.go: the windows of a KCP session. An int of the configuration below 0 is
-- treated as 0 is; `int` has 64 bits, and uint64 numbers wrap.
pub mod Windows
pub mod Control
pub mod Steady
mod Tests
use telekit.Common.{
  ℕ, ◌+◌, ◌*◌, ◌/◌, ◌%◌, ◌^◌, ◌-◌, Bool, true, false, not, ◌||◌, ◌==◌, ltb, if◌then◌else◌,
}

-- The fields of `Transport` that the windows come from.
pub record Transport : Type 0 where
  pub mtu : ℕ
  pub tti : ℕ
  pub uplink_capacity : ℕ
  pub downlink_capacity : ℕ
  pub cwnd_multiplier : ℕ
  pub max_sending_window : ℕ

pub record KcpSettings : Type 0 where
  pub mtu : ℕ
  pub tti : ℕ
  pub send_window : ℕ
  pub initial_send_window : ℕ
  pub receive_window : ℕ

abbrev pub min_kcp_mtu : ℕ
min_kcp_mtu = 50

abbrev pub max_kcp_mtu : ℕ
max_kcp_mtu = 1500

abbrev pub min_kcp_interval : ℕ
min_kcp_interval = 10

abbrev pub max_kcp_interval : ℕ
max_kcp_interval = 1000

abbrev pub default_max_sending_window : ℕ
default_max_sending_window = 2 * 2 ^ 20

-- `DefaultMTU`, `DefaultTTI` and the other defaults stand for values that are out of range.
unfoldable pub mtu_of : Transport → ℕ
mtu_of t = if ltb t.mtu min_kcp_mtu || ltb max_kcp_mtu t.mtu then 1200 else t.mtu

unfoldable pub tti_of : Transport → ℕ
tti_of t = if ltb t.tti min_kcp_interval || ltb max_kcp_interval t.tti then 50 else t.tti

abbrev pub or_default : ℕ → ℕ → ℕ
or_default n default = if n == 0 then default else n

abbrev pub max_window : ℕ
max_window = 2 ^ 32 - 1

unfoldable pub clamp_kcp_window : ℕ → ℕ
clamp_kcp_window size = if size == 0 then 1 else if ltb max_window size then max_window else size

unfoldable pub xray_in_flight_window : ℕ → ℕ → ℕ → ℕ
xray_in_flight_window capacity mtu tti =
    let intervals_per_second = 1000 / tti in
    let size = (capacity * 1024 % 2 ^ 64) * 1024 % 2 ^ 64 / mtu / intervals_per_second in
    clamp_kcp_window (if ltb size 8 then 8 else size)

unfoldable pub send_buffer : ℕ → ℕ → ℕ
send_buffer max_sending_window mtu =
    if max_sending_window / mtu == 0 then 1 else max_sending_window / mtu

unfoldable pub send_window_of : ℕ → ℕ → ℕ → ℕ
send_window_of in_flight multiplier buffer =
    let window = in_flight * multiplier % 2 ^ 64 in
    clamp_kcp_window (if ltb buffer window then buffer else window)

unfoldable pub xray_kcp_settings : Transport → KcpSettings
xray_kcp_settings t =
    let mtu = mtu_of t in
    let tti = tti_of t in
    let send_in_flight = xray_in_flight_window (or_default t.uplink_capacity 5) mtu tti in
    let receive_in_flight = xray_in_flight_window (or_default t.downlink_capacity 30) mtu tti in
    let buffer = send_buffer (or_default t.max_sending_window default_max_sending_window) mtu in
    let window = send_window_of send_in_flight (or_default t.cwnd_multiplier 20) buffer in
    record {
      mtu = mtu;
      tti = tti;
      send_window = window;
      initial_send_window = clamp_kcp_window (if ltb 128 window then 128 else window);
      receive_window = clamp_kcp_window receive_in_flight;
    }
