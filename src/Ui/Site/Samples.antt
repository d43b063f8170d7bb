-- ===== src/Ui/Site/Samples.antt =====
-- Data that tests share: a panel of src/ui/SitePanel.hpp, texts that are numbers, and JSON values.
use Prim.Native.String.{String}
use site_sim.Base.{ℕ, Option, none, some, Bool, ◌==◌, if◌then◌else◌}
use site_sim.Tx.Control.Samples.{site}
use site_sim.Ui.Site.{Hex, Panel}
use site_sim.Ui.Site.Store.{Json, no_status}

-- A text is a number, and 999 is one that does not convert.
abbrev pub hex : Hex ℕ
hex = record { print = λ n. n; stoul = λ n. if n == 999 then none else some n }

abbrev pub panel : Panel ℕ ℕ
panel = record {
  cfg = site;
  nac_buf = 0x1293;
  wacn_buf = 999;
  sysid_buf = 0x2D1;
  status = no_status;
}

-- Values that are kept as they are; a text is an object.
pub data Value : Type 0 where
  number_value : ℕ → Value
  real_value : ℕ → Value
  boolean_value : Bool → Value

abbrev pub numbers_of : ℕ → Value → Option ℕ
numbers_of w (number_value n) = some n
numbers_of w (real_value x) = none
numbers_of w (boolean_value b) = none

abbrev pub reals_of : Value → Option ℕ
reals_of (number_value n) = some n
reals_of (real_value x) = some x
reals_of (boolean_value b) = none

abbrev pub booleans_of : Value → Option Bool
booleans_of (number_value n) = none
booleans_of (real_value x) = none
booleans_of (boolean_value b) = some b

abbrev pub json : Json Value (String → Option Value) ℕ
json = record {
  number = number_value;
  real = real_value;
  boolean = boolean_value;
  get_number = numbers_of;
  get_real = reals_of;
  get_boolean = booleans_of;
  dump = λ j. j;
  parse = λ j. some j;
}
