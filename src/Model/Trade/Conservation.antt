-- ===== src/Model/Trade/Conservation.antt =====
-- `checkTradeConservation` of core/model/protocol.go compares two maps by the number of their keys
-- and the entries of one of them; with positive amounts that makes the sums of every unit equal.
use web4_v.Base.{
  ◌≡◌, ◌≢◌, sym, ◌∙◌, [], ◌∷◌, ◌++◌, none, some, not, ok, fail_if, ◌==◌, length, ◌≤◌, arith, nat_eq,
  inl, inr, >>=-eq-ok, Option-cases, All-append, unit_set_changed,
}
use web4_v.Base.Int.{ℤ, pos, ◌+ℤ◌, IsI64, eqb_ℤ_iff, zero_+ℤ}
use web4_v.Base.Dict.{Dict, lookup, get, IsMap, AllValues, AllValues-lookup, same_keys}
use web4_v.Model.Types.{UnitId, TradeTx}
use web4_v.Model.Sums.{
  tally, sum_of, InRange, ArePositive, IsPositive, tally-sum, tally-IsMap, tally-IsPositive,
}
use web4_v.Model.Trade.{same_amounts, check_trade_conservation}

same_amounts-eq :
    (a b : Dict UnitId ℤ) (u : UnitId) (x : ℤ)
    → same_amounts a b ≡ ok tt
    → lookup u a ≡ some x
    → x ≡ get (pos 0) u b
unfolding same_amounts
same_amounts-eq [] b u x e found = cc
same_amounts-eq ((w, y) ∷ a) b u x e found =
    ground (arith, same_amounts-eq a b u x, eqb_ℤ_iff y (get (pos 0) w b))

-- Two maps of positive amounts that pass the comparison are equal at every unit.
same_amounts_sound :
    (a b : Dict UnitId ℤ) (u : UnitId)
    → IsMap a
    → AllValues IsPositive a
    → length b ≤ length a
    → same_amounts a b ≡ ok tt
    → get (pos 0) u a ≡ get (pos 0) u b
same_amounts_sound a b u m p le e = elim (Option-cases (lookup u a)) [
  | inr (x, found) ↦ rw (found, get) (same_amounts-eq a b u x e found)
  | inl missing ↦ elim (Option-cases (lookup u b)) [
    | inl gone ↦ rw (missing, gone, get)
    | inr (y, there) ↦
        absurd (same_keys a b u m (λ w inside gone. kept w inside gone) le (λ gone. cc) missing)
  ]
]
  where
    kept : (w : UnitId) → lookup w a ≢ none → lookup w b ≢ none
    kept w inside gone = elim (Option-cases (lookup w a)) [
      | inl missing ↦ inside missing
      | inr (x, found) ↦
          let (_, positive) = AllValues-lookup IsPositive w x a p found in
          ground (arith, same_amounts-eq a b w x e found)
    ]

-- What the Go type of the amounts in a trade says.
pub record TradeInRange (tx : TradeTx) : Type 0 where
  pub inputs_a_i64 : InRange tx.inputs_a
  pub inputs_b_i64 : InRange tx.inputs_b
  pub outputs_a_i64 : InRange tx.outputs_a
  pub outputs_b_i64 : InRange tx.outputs_b

-- A trade of positive inputs and int64 amounts that passes the check has the same exact sum of
-- every unit on both sides, although the code looks at the units of the inputs only.
pub check_trade_conservation_sound :
    (tx : TradeTx)
    → TradeInRange tx
    → ArePositive (tx.inputs_a ++ tx.inputs_b)
    → check_trade_conservation tx ≡ ok tt
    → (u : UnitId) → sum_of u (tx.inputs_a ++ tx.inputs_b) ≡ sum_of u (tx.outputs_a ++ tx.outputs_b)
unfolding check_trade_conservation
check_trade_conservation_sound tx r p e u =
    let ins = tx.inputs_a ++ tx.inputs_b in
    let outs = tx.outputs_a ++ tx.outputs_b in
    let (i, ei, e1) = >>=-eq-ok (tally [] ins) _ e in
    let (o, eo, e2) = >>=-eq-ok (tally [] outs) _ e1 in
    let (_, sizes, same) = >>=-eq-ok (fail_if (not (length i == length o)) unit_set_changed) _ e2 in
    let ins_i64 : InRange ins =
      All-append (λ v. IsI64 v.amount) tx.inputs_a tx.inputs_b r.inputs_a_i64 r.inputs_b_i64 in
    let outs_i64 : InRange outs =
      All-append (λ v. IsI64 v.amount) tx.outputs_a tx.outputs_b r.outputs_a_i64 r.outputs_b_i64 in
    let sums_in : get (pos 0) u i ≡ pos 0 +ℤ sum_of u ins = tally-sum [] ins i tt ins_i64 ei u in
    let sums_out : get (pos 0) u o ≡ pos 0 +ℤ sum_of u outs =
      tally-sum [] outs o tt outs_i64 eo u in
    sym (sums_in ∙ zero_+ℤ (sum_of u ins))
    ∙ same_amounts_sound i o u (tally-IsMap [] ins i tt ei)
        (tally-IsPositive [] ins i tt ins_i64 p ei) (ground arith) same
    ∙ sums_out
    ∙ zero_+ℤ (sum_of u outs)
