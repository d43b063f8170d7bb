-- ===== src/P25/Tsbk/Sync/Tests.antt =====
-- Instances for `BuildSyncBcast` of src/p25/TSBK.cpp.
use site_sim.P25.Tsbk.Sync.{Tm}

-- 23:59:58 on the last day of 2025.
abbrev evening : Tm
evening = record { year = 125; mon = 11; mday = 31; hour = 23; min = 59; sec = 58 }
