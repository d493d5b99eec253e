-- ===== src/Model/Amount/Scaled.antt =====
-- The conversions of core/model/amount.go between amounts and floats. A panic is the error `panicked`.
use web4_v.Base.{
  ◌≡◌, false, arith, ◌||◌, Result, ok, err, ◌>>◌, fail_if, amount_overflow, amount_negative,
  invalid_amount, panicked,
}
use web4_v.Base.Int.{ℤ, pos, max_i64, IsI64, ◌≤ℤ◌}
use web4_v.Floats.{Floats}

-- `AmountScale`
abbrev pub amount_scale : ℤ
amount_scale = pos 1000000

module _ {F : Type 0} (fl : Floats F) where
  abbrev nought : F
  nought = fl.of_int (pos 0)

  unfoldable pub from_float_checked : F → Result ℤ
  from_float_checked f = do
    fail_if (fl.is_nan f || fl.is_inf f) invalid_amount
    fail_if (fl.lt f nought) amount_negative
    let scaled = fl.times f (fl.of_int amount_scale)
    fail_if (fl.is_nan scaled || fl.is_inf scaled) amount_overflow
    fail_if (fl.lt (fl.round scaled) nought || fl.lt fl.below_max_int (fl.round scaled))
        amount_overflow
    ok (fl.to_int (fl.round scaled))

  -- An error that its caller panics with.
  abbrev pub or_panic {ℓ} : {A : Type ℓ} → Result A → Result A
  or_panic (ok a) = ok a
  or_panic (err _) = err panicked

  unfoldable pub from_float : F → Result ℤ
  from_float f = or_panic (from_float_checked f)

  unfoldable pub to_float : ℤ → F
  to_float a = fl.over (fl.of_int a) (fl.of_int amount_scale)

  unfoldable pub mul : ℤ → F → Result ℤ
  mul a ratio = do
    fail_if (fl.is_nan ratio || fl.is_inf ratio || fl.lt ratio nought) panicked
    let scaled = fl.times (fl.of_int a) ratio
    fail_if (fl.lt (fl.of_int max_i64) scaled) panicked
    ok (fl.to_int (fl.round scaled))

-- What Go documents of the conversion to int64: a float that is not below zero nor above the greatest
-- float under 2 ^ 63 becomes an int64 of zero or more.
abbrev pub ConvertsInRange : {F : Type 0} → Floats F → Type 0
ConvertsInRange {F} fl =
    (x : F)
    → fl.lt x (fl.of_int (pos 0)) ≡ false
    → fl.lt fl.below_max_int x ≡ false
    → IsI64 (fl.to_int x) × (pos 0 ≤ℤ fl.to_int x)

-- An amount that `FromFloatChecked` returns is an int64 and not negative.
pub from_float_checked_bounds :
    {F : Type 0} (fl : Floats F) (f : F) (a : ℤ)
    → ConvertsInRange fl
    → from_float_checked fl f ≡ ok a
    → IsI64 a × (pos 0 ≤ℤ a)
unfolding from_float_checked
from_float_checked_bounds fl f a law e =
    ground (arith, law (fl.round (fl.times f (fl.of_int amount_scale))))
