-- ===== src/Tx/Control.antt =====
-- `ControlChannel` of src/tx/ControlChannel.hpp and ControlChannel.cpp: the site's configuration, the
-- queue of responses, the log, and one round of `producerThread`. Each locked region is one step. The
-- frames are the dibits that `sendFrame` is given. `sysIdx` is an `int` that the code only counts up.
pub mod Run
pub mod Round
pub mod Queue
pub mod Delivery
pub mod Rotation
pub mod Air
pub mod Samples
mod Tests
use site_sim.Base.{
  ℕ, ◌+◌, ◌-◌, ◌*◌, ◌/◌, ◌%◌, ◌^◌, List, [], ◌∷◌, ◌++◌, Option, none, some, Bool, true, false,
  length, get_or, drop, ltb, ◌==◌, if◌then◌else◌, u8, u64,
}
use site_sim.Base.Int.{ℤ}
use site_sim.P25.Frame.{build_frame, build_tdu_frame}
use site_sim.P25.Tsbk.Messages.{
  build_net_status_bcast, build_rfss_status_bcast, build_adj_sts_bcast, build_iden_up,
}
use site_sim.P25.Tsbk.Sync.{Tm, build_sync_bcast}

-- The operations of `double` that the code uses. `to_int16` is `int16_t(std::round(x))`.
pub record Doubles (Double : Type 0) : Type 0 where
  pub literal : ℕ → Double
  pub mul : Double → Double → Double
  pub add : Double → Double → Double
  pub div : Double → Double → Double
  pub to_uint64 : Double → ℕ
  pub to_int16 : Double → ℤ
  pub to_uint32 : Double → ℕ

-- `SiteConfig`
pub record SiteConfig (Double : Type 0) : Type 0 where
  pub nac : ℕ
  pub wacn : ℕ
  pub sysid : ℕ
  pub rfssid : ℕ
  pub siteid : ℕ
  pub cc_freq_hz : Double
  pub tx_offset_mhz : Double
  pub gain_db : Double
  pub amp_enabled : Bool
  pub tx_offset_units : ℤ
  pub chan_id : ℕ
  pub bw_units : ℕ
  pub ch_spac_units : ℕ
  pub vchan_base_freq_hz : Double
  pub v_chan_num : ℕ

-- The clock of a round, as `BuildSyncBcast` reads it.
pub record Clock : Type 0 where
  pub utc : Tm
  pub has_gmtoff : Bool
  pub gmtoff : ℤ

-- `kSysNames`
pub data SysName : Type 0 where
  iden_up : SysName
  net_sts : SysName
  rfss_sts : SysName
  adj_sts : SysName
  sync : SysName

-- `LogEntry`: the two forms of a line, `SYS ...` and `ACT TSBK`.
pub data LogEntry : Type 0 where
  sys : SysName → LogEntry
  act : LogEntry

-- The members of `ControlChannel` that its threads share, and `sysIdx` and `frameN` of the producer.
pub record Channel : Type 0 where
  pub running : Bool
  pub tsbk_queue : List (List ℕ)
  pub log : List LogEntry
  pub frame_count : ℕ
  pub sys_idx : ℕ
  pub frame_n : ℕ

-- `kStaticSysCount` and `kBurstLen`
abbrev pub static_sys_count : ℕ
static_sys_count = 4

abbrev pub burst_len : ℕ
burst_len = 5

module _ {Double : Type 0} (doubles : Doubles Double) where
  -- `rxFreqHz`
  pub rx_freq_hz : SiteConfig Double → Double
  rx_freq_hz cfg =
      doubles.add cfg.cc_freq_hz (doubles.mul cfg.tx_offset_mhz (doubles.literal 1000000))

  -- `configure`: what `m_cfg` becomes.
  unfoldable pub configure : SiteConfig Double → SiteConfig Double
  configure cfg =
      let off_khz = doubles.mul cfg.tx_offset_mhz (doubles.literal 1000) in
      record cfg { tx_offset_units = doubles.to_int16 (doubles.div off_khz (doubles.literal 250)) }

  -- `sysTSBKs`
  unfoldable pub sys_tsbks : SiteConfig Double → List (List ℕ)
  sys_tsbks cfg =
      build_iden_up cfg.chan_id cfg.bw_units cfg.tx_offset_units cfg.ch_spac_units
        (doubles.to_uint64 cfg.vchan_base_freq_hz)
      ∷ build_net_status_bcast cfg.wacn cfg.sysid 0 0 0x00
      ∷ build_rfss_status_bcast 0x00 cfg.sysid cfg.rfssid cfg.siteid cfg.chan_id 0 0x00
      ∷ build_adj_sts_bcast cfg.sysid cfg.rfssid (u8 (cfg.siteid + 1)) 0 0 0x00
      ∷ []

abbrev pub sys_names : List SysName
sys_names = iden_up ∷ net_sts ∷ rfss_sts ∷ adj_sts ∷ sync ∷ []

-- `start`, with the locals of the thread that it starts.
unfoldable pub start : Channel → Channel
start c =
    if c.running then c else record c { running = true; frame_count = 0; sys_idx = 0; frame_n = 0 }

-- `stop`, as far as the members go.
unfoldable pub stop : Channel → Channel
stop c = record c { running = false }

-- `queueTSBK`
pub queue_tsbk : Channel → List ℕ → Channel
queue_tsbk c tsbk =
    if ltb (length c.tsbk_queue) 128 then record c { tsbk_queue = c.tsbk_queue ++ tsbk ∷ [] } else c

-- `getLog`
pub get_log : Channel → ℕ → List LogEntry
get_log c max_entries =
    let start = if ltb max_entries (length c.log) then length c.log - max_entries else 0 in
    drop start c.log

-- `addLog`: the log after it.
pub add_log : List LogEntry → LogEntry → List LogEntry
add_log log msg =
    let grown = log ++ msg ∷ [] in if ltb 500 (length grown) then drop 1 grown else grown

-- A system slot: the next message of the rotation. `sysIdx` is an int, whose overflow after 2^31 system
-- messages is left out.
pub sys_slot : List (List ℕ) → Clock → Channel → List ℕ × LogEntry × Channel
sys_slot static_tsbks clock c =
    let idx = c.sys_idx % burst_len in
    (
      if ltb idx static_sys_count
          then get_or static_tsbks idx []
          else build_sync_bcast clock.utc clock.has_gmtoff clock.gmtoff,
      sys (get_or sys_names idx sync),
      record c { sys_idx = c.sys_idx + 1 },
    )

-- The choice of the block of a round, and its log line.
pub next_block : List (List ℕ) → Clock → Channel → List ℕ × LogEntry × Channel
next_block static_tsbks clock c =
    let slot = sys_slot static_tsbks clock c in
    if c.frame_n % burst_len == 0
    then slot
    else elim c.tsbk_queue [ [] ↦ slot | tsbk ∷ rest ↦ (tsbk, act, record c { tsbk_queue = rest }) ]

-- The end of a round: the counters and the log.
pub finish_round : LogEntry → Channel → Channel
finish_round msg c = record c {
  frame_count = u64 (c.frame_count + 1);
  log = add_log c.log msg;
  frame_n = u64 (c.frame_n + 1);
}

-- The frames of a round: a TDU follows the last of a burst.
unfoldable pub round_frames : ℕ → List ℕ → Channel → List (Option (List ℕ))
round_frames nac tsbk c =
    build_frame nac tsbk
    ∷ (if u64 (c.frame_n + 1) % burst_len == 0 then build_tdu_frame nac ∷ [] else [])
