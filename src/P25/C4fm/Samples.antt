-- ===== src/P25/C4fm/Samples.antt =====
-- Data that tests share: an arithmetic on natural numbers for src/p25/C4FM.cpp.
use site_sim.Base.{ℕ, ◌+◌, ◌-◌, ◌*◌, ◌/◌, ◌%◌, ltb, ◌==◌}
use site_sim.Base.Int.{ℤ, pos, negsuc}
use site_sim.P25.C4fm.{Arith}

abbrev pub whole : ℤ → ℕ
whole (pos n) = n
whole (negsuc n) = n + 1

abbrev pub numbers : Arith ℕ ℕ
numbers = record {
  float_of = whole;
  float_add = λ x y. x + y;
  float_mul = λ x y. x * y;
  float_div = λ x y. x / y;
  float_is_zero = λ x. x == 0;
  to_float = λ x. x;
  to_double = λ x. x;
  double_of = whole;
  double_add = λ x y. x + y;
  double_sub = λ x y. x - y;
  double_mul = λ x y. x * y;
  double_div = λ x y. x / y;
  double_less = ltb;
  double_abs = λ x. x;
  double_sin = λ x. x;
  double_cos = λ x. x + 1;
  to_int8 = λ x. x % 256;
  pi = 3;
  sqrt2 = 1;
  tiny = 1;
}
