-- ===== src/Ui/Log/Tests.antt =====
-- Instances for src/ui/LogPanel.cpp.
use site_sim.Base.{ℕ, ◌≡◌, List, [], ◌∷◌, length-replicate, replicate, false}
use site_sim.Tx.Control.{Channel}
use site_sim.Ui.Log.{LogPanel, add_rx_entry, render}
use site_sim.Ui.Log.Newest.{render_full}

abbrev line : List ℕ
line = 82 ∷ 69 ∷ 71 ∷ []

abbrev full : LogPanel
full = record { rx_log = replicate 500 line; last_tx_count = 0; last_rx_count = 0 }

abbrev idle : Channel
idle = record {
  running = false;
  tsbk_queue = [];
  log = [];
  frame_count = 0;
  sys_idx = 0;
  frame_n = 0;
}

render_full_example : (render idle (add_rx_entry (render idle full).1 line)).0.rx_scrolls ≡ false
render_full_example = render_full idle full line (length-replicate 500 line)
