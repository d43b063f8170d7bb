-- ===== src/Ui/Band/Tests.antt =====
-- Instances for src/ui/BandSelector.hpp, with whole numbers of hertz.
use site_sim.Base.{ℕ, ◌≡◌, refl, some, true, false, ltb, leb, ◌==◌, not, arith}
use site_sim.Ui.Band.{Frequencies, Widgets, new_selector, render}
use site_sim.Ui.Band.Limits.{Laws, IsLicensed, render-IsLicensed}

abbrev hertz : Frequencies ℕ ℕ
hertz = record {
  hz = λ n. n;
  less = ltb;
  at_most = leb;
  differs = λ x y. not (x == y);
  print = λ x. x;
  parse = λ x. x;
}

hertz-at_most_unless_less : (x y : ℕ) → ltb x y ≡ false → leb y x ≡ true
hertz-at_most_unless_less x y h = ground arith

hertz-Laws : Laws hertz
hertz-Laws = record { at_most_hz = λ m n. refl; at_most_unless_less = hertz-at_most_unless_less }

-- The second band is chosen, and then 446 MHz is entered.
abbrev clicks : Widgets ℕ
clicks = record { selected = λ i. i == 1; edited = some 446000000; pressed = λ i. false }

render-IsLicensed_example :
    IsLicensed hertz hertz-Laws 145050000 (render hertz clicks (new_selector hertz) 145050000)
render-IsLicensed_example = render-IsLicensed hertz hertz-Laws clicks (new_selector hertz) 145050000
