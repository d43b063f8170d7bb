-- ===== src/Uplink/Main/Exit.antt =====
-- How `main` of src/uplink_test_main.cpp ends.
use Prim.Native.String.{String}
use site_sim.Rx.Pipeline.{Pipeline}
