-- ===== src/Kcp/Steady.antt =====
-- The send window through any ticks and writes.
use telekit.Common.{
  ℕ, ◌≤◌, ◌<◌, min, ◌||◌, List, [], ◌∷◌, leb, if◌then◌else◌, arith, Bool-cases, inl, inr, ◌==◌,
}
use telekit.Kcp.{Transport, KcpSettings, max_window, xray_kcp_settings}
use telekit.Kcp.Windows.{initial-le-send_window}
use telekit.Kcp.Control.{
  Monitor, new_monitor, sample, shrunk, grown, degrade, recover, tick, Step, wrote, ticked, step,
  run, bbr_target_window,
}

-- The window is at most the configured one, and at least 16 or the one that the session began with.
pub record IsSteady (s : KcpSettings) (m : Monitor) : Type 0 where
  pub bounded : m.window ≤ s.send_window
  pub floored : min 16 s.initial_send_window ≤ m.window

shrunk-bounds :
    (limit first window : ℕ)
    → window ≤ limit
    → first ≤ limit
    → min 16 first ≤ window
    → (shrunk limit window ≤ limit) × (min 16 first ≤ shrunk limit window)
unfolding shrunk
shrunk-bounds limit first window h k l = (ground arith, ground arith)

grown-bounds :
    (limit target window : ℕ)
    → window ≤ limit
    → window < target
    → (grown limit target window ≤ limit) × (window ≤ grown limit target window)
unfolding grown
grown-bounds limit target window h k = (ground arith, ground arith)

module _ (s : KcpSettings) (fits : s.initial_send_window ≤ s.send_window) where
  degrade-IsSteady : (m : Monitor) (now : ℕ) → IsSteady s m → IsSteady s (degrade s m now)
  unfolding degrade
  degrade-IsSteady m now v =
      let (a, b) =
        shrunk-bounds s.send_window s.initial_send_window m.window v.bounded fits v.floored in
      record { bounded = ground (arith, a, v.bounded); floored = ground (arith, b, v.floored) }

  recover-IsSteady :
      (m : Monitor) (rate srtt : ℕ) → IsSteady s m → IsSteady s (recover s m rate srtt)
  unfolding recover
  recover-IsSteady m rate srtt v =
      let target = bbr_target_window rate (if srtt == 0 then s.tti else srtt) s.mtu s.send_window in
      elim (Bool-cases (rate == 0 || leb s.send_window m.window || leb target m.window)) [
        | inl e ↦ rw (e, recover) (record { bounded = v.bounded; floored = v.floored })
        | inr e ↦
            let (a, b) = grown-bounds s.send_window target m.window v.bounded (ground arith) in
            rw (e, recover) (record { bounded = a; floored = omega (arith, b, v.floored) })
      ]

  tick-IsSteady :
      (m : Monitor) (now rto srtt : ℕ) → IsSteady s m → IsSteady s (tick s m now rto srtt)
  unfolding tick
  tick-IsSteady m now rto srtt v =
      let m' : Monitor = record m { controller = (sample m.controller now).0 } in
      let v' : IsSteady s m' = record { bounded = v.bounded; floored = v.floored } in
      elim (Bool-cases (leb 750 rto)) [
        | inl e ↦ rw (e, tick) (degrade-IsSteady m' now v')
        | inr e ↦ rw (e, tick) (recover-IsSteady m' (sample m.controller now).1 srtt v')
      ]

  steps-IsSteady : (xs : List Step) (m : Monitor) → IsSteady s m → IsSteady s (run s m xs)
  unfolding run step
  steps-IsSteady [] m v = v
  steps-IsSteady (wrote n now ∷ xs) m v =
      steps-IsSteady xs (step s m (wrote n now))
        (record { bounded = v.bounded; floored = v.floored })
  steps-IsSteady (ticked now rto srtt ∷ xs) m v =
      steps-IsSteady xs (tick s m now rto srtt) (tick-IsSteady m now rto srtt v)

-- Through any writes and ticks of a session, whatever is configured and measured, the adaptive send window is
-- at most the configured one and never below 16, or below the window that the session began with when that
-- is smaller.
pub run-IsSteady :
    (t : Transport) (xs : List Step)
    → t.cwnd_multiplier ≤ max_window
    → let s = xray_kcp_settings t in IsSteady s (run s (new_monitor s) xs)
unfolding new_monitor
run-IsSteady t xs h =
    let s = xray_kcp_settings t in
    let fits = (initial-le-send_window t h).2 in
    steps-IsSteady s fits xs (new_monitor s) (record { bounded = fits; floored = omega arith })
