-- ===== src/Model/Amount.antt =====
-- core/model/amount.go: an `Amount` is an int64, here an integer with the range `IsI64`. Every
-- difference and sum wraps as in Go. `Add` is left out: it panics where `CheckedAdd` fails.
pub mod Exact
pub mod Scaled
use web4_v.Base.{Bool, ◌&&◌, ◌||◌, Result, ok, err, ◌>>◌, fail_if}
use web4_v.Base.{amount_overflow, amount_negative, insufficient_amount}
use web4_v.Base.Int.{ℤ, pos, ◌+ℤ◌, ◌-ℤ◌, ltb_ℤ, max_i64, min_i64, wrap64}

-- The test that `Add` and `CheckedAdd` make first.
overflows : ℤ → ℤ → Bool
overflows a b =
    (ltb_ℤ (pos 0) b && ltb_ℤ (wrap64 (max_i64 -ℤ b)) a)
    || (ltb_ℤ b (pos 0) && ltb_ℤ a (wrap64 (min_i64 -ℤ b)))

unfoldable pub checked_add : ℤ → ℤ → Result ℤ
unfolding overflows
checked_add a b = do fail_if (overflows a b) amount_overflow; ok (wrap64 (a +ℤ b))

unfoldable pub sub : ℤ → ℤ → Result ℤ
sub a b = do
  fail_if (ltb_ℤ b (pos 0)) amount_negative
  fail_if (ltb_ℤ a b) insufficient_amount
  ok (wrap64 (a -ℤ b))

abbrev pub valid_amount : ℤ → Bool
valid_amount a = ltb_ℤ (pos 0) a

abbrev pub valid_flow_amount : ℤ → Bool
valid_flow_amount a = ltb_ℤ (pos 0) a
