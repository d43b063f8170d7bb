-- ===== src/P25/Tsbk/Sync/Size.antt =====
-- The synchronization broadcast of src/p25/TSBK.cpp is a block.
use site_sim.Base.{Bool, true}
use site_sim.Base.Int.{ℤ}
use site_sim.P25.Tsbk.Block.Parse.{IsBlock, build_tsbk-IsBlock}
use site_sim.P25.Tsbk.Sync.{Tm, build_sync_bcast, pack_bytes, sync_bytes, clamp_offset, half_hours}
use site_sim.P25.Tsbk.Messages.{tsbk_sync_bcast}

pub build_sync_bcast-IsBlock :
    (utc : Tm) (has_gmtoff : Bool) (gmtoff : ℤ) → IsBlock (build_sync_bcast utc has_gmtoff gmtoff)
unfolding build_sync_bcast
build_sync_bcast-IsBlock utc has_gmtoff gmtoff =
    build_tsbk-IsBlock true tsbk_sync_bcast 0x00
      (pack_bytes 0 (sync_bytes utc (clamp_offset (half_hours has_gmtoff gmtoff))))
