-- ===== src/Examples/Decimals.antt =====
-- A stand-in for float64 that can be evaluated: a number of millionths.
use web4_v.Base.{ℕ, ◌+◌, ◌-◌, ◌*◌, ◌/◌, false, ltb, leb, ◌==◌, [], ◌∷◌, arith}
use web4_v.Base.Int.{pos, negsuc}
use web4_v.Floats.{Floats}
use web4_v.Policy.Loops.{IsOrder}

abbrev pub decimals : Floats ℕ
decimals = record {
  of_int = λ a. elim a [ pos n ↦ n * 1000000 | negsuc n ↦ 0 ];
  to_int = λ x. pos (x / 1000000);
  round = λ x. (x + 500000) / 1000000 * 1000000;
  plus = λ a b. a + b;
  minus = λ a b. a - b;
  times = λ a b. a * b / 1000000;
  over = λ a b. a * 1000000 / b;
  negate = λ a. 0;
  exp = λ a. 1000000;
  lt = ltb;
  le = leb;
  eq = ◌==◌;
  is_nan = λ a. false;
  is_inf = λ a. false;
  is_pos_inf = λ a. false;
  max_float = 1000000000000000000;
  below_max_int = 9000000000000;
  format = λ a. a ∷ [];
}

pub decimals-IsOrder : IsOrder decimals
decimals-IsOrder = record { lt_irrefl = λ a. ground arith; lt_trans = λ a b d h k. ground arith }
