-- ===== src/Model/Amount/Exact.antt =====
-- `CheckedAdd` and `Sub` are exact on int64: they return the true sum or difference, or an error.
use web4_v.Base.{◌≡◌, ap, inl, inr, ok, err, arith, Bool-cases, Bool, true, false}
use web4_v.Base.{amount_overflow, amount_negative, insufficient_amount}
use web4_v.Base.{if◌then◌else◌, ltb, leb, ◌&&◌, ◌^◌, ◌↔◌}
use web4_v.Base.Int.{ℤ, pos, ◌+ℤ◌, ◌-ℤ◌, ◌≤ℤ◌, IsI64, wrap64, wrap64_exact, max_i64, min_i64}
use web4_v.Base.Int.{pos_part, neg_part, ltb_ℤ, negsuc}
use web4_v.Model.Amount.{overflows, checked_add, sub}

-- The range test on an exact sum.
abbrev pub fits : ℤ → Bool
fits a = ltb (pos_part a) (2 ^ 63) && leb (neg_part a) (2 ^ 63)

pub fits_iff : (a : ℤ) → (fits a ≡ true) ↔ IsI64 a
fits_iff a = ground arith

-- The bounds that the test compares with do not wrap where they are looked at.
headroom : (b : ℤ) → IsI64 b → pos 0 ≤ℤ b → wrap64 (max_i64 -ℤ b) ≡ max_i64 -ℤ b
unfolding ◌-ℤ◌
headroom b hb h = wrap64_exact (max_i64 -ℤ b) (ground arith)

footroom : (b : ℤ) → IsI64 b → b ≤ℤ pos 0 → wrap64 (min_i64 -ℤ b) ≡ min_i64 -ℤ b
unfolding ◌-ℤ◌
footroom b hb h = wrap64_exact (min_i64 -ℤ b) (ground arith)

overflows-fits :
    (a b : ℤ) → IsI64 a → IsI64 b → overflows a b ≡ (if fits (a +ℤ b) then false else true)
unfolding overflows ◌+ℤ◌ ◌-ℤ◌
overflows-fits a (pos n) ha hb = rw (headroom (pos n) hb (omega arith)) (ground arith)
overflows-fits a (negsuc n) ha hb = rw (footroom (negsuc n) hb (omega arith)) (ground arith)

-- On two int64 values `CheckedAdd` returns the exact sum if that is an int64, and fails with an
-- overflow otherwise.
pub checked_add_exact :
    (a b : ℤ)
    → IsI64 a
    → IsI64 b
    → checked_add a b ≡ (if fits (a +ℤ b) then ok (a +ℤ b) else err amount_overflow)
unfolding checked_add
checked_add_exact a b ha hb = elim (Bool-cases (fits (a +ℤ b))) [
  | inl e ↦ rw (overflows-fits a b ha hb, e) (ap ok (wrap64_exact _ ((fits_iff _).0 e)))
  | inr e ↦ rw (overflows-fits a b ha hb, e)
]

pub sub-IsI64 : (a b : ℤ) → IsI64 a → pos 0 ≤ℤ b → b ≤ℤ a → IsI64 (a -ℤ b)
unfolding ◌-ℤ◌
sub-IsI64 a b ha h k = ground arith

-- On two int64 values `Sub` returns the exact difference, which is not negative, if the second is
-- not negative and not above the first, and names the guard that fails otherwise.
pub sub_exact :
    (a b : ℤ)
    → IsI64 a
    → IsI64 b
    → sub a b ≡ (
        if ltb_ℤ b (pos 0)
        then err amount_negative
        else if ltb_ℤ a b
        then err insufficient_amount
        else ok (a -ℤ b))
unfolding sub
sub_exact a b ha hb = elim (Bool-cases (ltb_ℤ b (pos 0))) [
  | inl e ↦ rw e
  | inr e ↦ elim (Bool-cases (ltb_ℤ a b)) [
    | inl f ↦ rw (e, f)
    | inr f ↦
        rw (e, f) (ap ok (wrap64_exact (a -ℤ b) (sub-IsI64 a b ha (ground arith) (ground arith))))
  ]
]
