-- ===== src/Floats.antt =====
-- The float64 of Go and of its package math, which the prices of core/price and core/node and the
-- scores of core/policy are: a parameter, of which no law is assumed but where a theorem says so.
use web4_v.Base.{ℕ, Bool, List}
use web4_v.Base.Int.{ℤ}

pub record Floats (F : Type 0) : Type 0 where
  -- `float64(i)` of an int64, and `int64(x)`
  pub of_int : ℤ → F
  pub to_int : F → ℤ
  -- `math.Round`
  pub round : F → F
  pub plus : F → F → F
  pub minus : F → F → F
  pub times : F → F → F
  pub over : F → F → F
  pub negate : F → F
  pub exp : F → F
  pub lt : F → F → Bool
  pub le : F → F → Bool
  pub eq : F → F → Bool
  pub is_nan : F → Bool
  -- `math.IsInf(x, 0)` and `math.IsInf(x, 1)`
  pub is_inf : F → Bool
  pub is_pos_inf : F → Bool
  -- `math.MaxFloat64`, and the float below `float64(math.MaxInt64)`
  pub max_float : F
  pub below_max_int : F
  -- `fmt.Sprintf("%.17g", x)`
  pub format : F → List ℕ
