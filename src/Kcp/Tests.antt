-- ===== src/Kcp/Tests.antt =====
-- A small configuration.
use telekit.Common.{arith, List, [], ◌∷◌}
use telekit.Kcp.Control.{Step, wrote, ticked, run, new_monitor}
use telekit.Kcp.Steady.{IsSteady, run-IsSteady}
use telekit.Kcp.{Transport, xray_kcp_settings}
use telekit.Kcp.Windows.{IsSettled, xray_kcp_settings-IsSettled}

abbrev narrow : Transport
narrow = record {
  mtu = 1300;
  tti = 20;
  uplink_capacity = 5;
  downlink_capacity = 0;
  cwnd_multiplier = 2;
  max_sending_window = 65536;
}

xray_kcp_settings-IsSettled_example : IsSettled narrow (xray_kcp_settings narrow)
xray_kcp_settings-IsSettled_example = xray_kcp_settings-IsSettled narrow (record {
  uplink_word = omega arith;
  downlink_word = omega arith;
  multiplier_word = omega arith;
})

abbrev session : List Step
session =
    wrote 60000 1000000000
    ∷ ticked 1500000000 200 40
    ∷ wrote 60000 1600000000
    ∷ ticked 1750000000 800 40
    ∷ ticked 2600000000 900 40
    ∷ []

run-IsSteady_example :
    IsSteady
      (xray_kcp_settings narrow)
      (run (xray_kcp_settings narrow) (new_monitor (xray_kcp_settings narrow)) session)
run-IsSteady_example = run-IsSteady narrow session (omega arith)
