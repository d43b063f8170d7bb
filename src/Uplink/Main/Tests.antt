-- ===== src/Uplink/Main/Tests.antt =====
-- Instances for `main` of src/uplink_test_main.cpp.
use site_sim.Base.{ℕ, none}
use site_sim.Uplink.{Conversions}

abbrev conversions : Conversions ℕ
conversions = record { stod = λ s. none; stoul_hex = λ s. none }
