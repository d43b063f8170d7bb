-- ===== src/P25/Nid/Tests.antt =====
-- Instances for src/p25/NID.hpp.
use site_sim.Base.{◌≤◌, arith}
use site_sim.P25.Nid.{encode_bch}
use site_sim.P25.Nid.Distance.{hamming}
use site_sim.P25.Nid.Distance.{encode_bch_distance}

encode_bch_distance_example : 23 ≤ hamming 64 (encode_bch 0x2937) (encode_bch 0x2933)
encode_bch_distance_example =
    encode_bch_distance 0x2937 0x2933 (omega arith) (omega arith) (omega arith)
