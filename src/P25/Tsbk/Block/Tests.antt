-- ===== src/P25/Tsbk/Block/Tests.antt =====
-- Instances for `buildTSBK` of src/p25/TSBK.cpp.
use site_sim.Base.{◌≡◌, some, true, arith}
use site_sim.P25.Tsbk.Block.{build_tsbk}
use site_sim.P25.Tsbk.Block.Parse.{parse_tsbk, parse-build_tsbk}

parse-build_tsbk_example :
    parse_tsbk (build_tsbk true 0x3B 0 0xBEEF0001000000)
    ≡ some (record { last_block = true; opcode = 0x3B; mfid = 0; args = 0xBEEF0001000000 })
parse-build_tsbk_example =
    parse-build_tsbk true 0x3B 0 0xBEEF0001000000 (omega arith) (omega arith) (omega arith)
