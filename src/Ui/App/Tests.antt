-- ===== src/Ui/App/Tests.antt =====
-- Instances for src/ui/App.cpp.
use site_sim.Base.{ℕ}
use site_sim.Ui.Console.{Console}
use site_sim.Ui.App.{Entry, found}

abbrev name : Entry ℕ
name = found 7
