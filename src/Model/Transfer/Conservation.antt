-- ===== src/Model/Transfer/Conservation.antt =====
-- `checkConservation` of core/model/validate.go: the inputs fill a balance for each unit and the
-- outputs empty it.
use web4_v.Base.{
  ◌≡◌, refl, sym, ap, ◌∙◌, Bool, true, false, not, ◌&&◌, List, [], ◌∷◌, Option, none, some, Result,
  ok, err, fail_if, if◌then◌else◌, ◌==◌, ==_iff, nat_eq, arith, inl, inr, >>=-eq-ok, >>-eq-ok,
  ok-inj, Bool-cases, amount_not_positive, issuer_mismatch, unknown_unit, exceeds_inputs,
}
use web4_v.Base.Int.{
  ℤ, pos, ◌+ℤ◌, ◌-ℤ◌, IsI64, int_laws, ltb_ℤ, eqb_ℤ_iff, +ℤ_assoc, +ℤ_zero, zero_+ℤ,
}
use web4_v.Base.Dict.{
  Dict, lookup, get, insert, lookup-insert, AllValues, AllValues-insert, AllValues-get,
  AllValues-lookup,
}
use web4_v.Model.Types.{UnitId, Value}
use web4_v.Model.Amount.{checked_add, sub, valid_amount}
use web4_v.Model.Amount.Exact.{sub_exact, sub-IsI64}
use web4_v.Model.Sums.{sum_of, InRange, checked_add-ok}
use web4_v.Model.Transfer.Checks.{
  UnitBalance, no_balance, fund, spend, all_spent, or_exceeds, check_conservation,
}

abbrev balance_of : UnitId → Dict UnitId UnitBalance → ℤ
balance_of u balances = (get no_balance u balances).amount

abbrev IsFunded : UnitBalance → Type 0
IsFunded b = IsI64 b.amount

insert_balance :
    (u w : UnitId) (b : UnitBalance) (d : Dict UnitId UnitBalance)
    → balance_of w (insert u b d) ≡ (if u == w then b.amount else balance_of w d)
insert_balance u w b d = ground (arith, lookup-insert u w b d)

fund-sum :
    (d : Dict UnitId UnitBalance) (vs : List Value) (t : Dict UnitId UnitBalance)
    → AllValues IsFunded d
    → InRange vs
    → fund d vs ≡ ok t
    → AllValues IsFunded t × ((u : UnitId) → balance_of u t ≡ balance_of u d +ℤ sum_of u vs)
unfolding fund
fund-sum d [] t hd hv e =
    let same : t ≡ d = sym (ok-inj d t e) in rw same (hd, λ u. sym (+ℤ_zero (balance_of u d)))
fund-sum d (v ∷ vs) t hd hv e =
    let b = get no_balance v.unit d in
    let (_, e1) = >>-eq-ok (fail_if (not (valid_amount v.amount)) amount_not_positive) _ e in
    let (_, e2) =
      >>-eq-ok (fail_if (b.is_set && not (b.issuer == v.issuer)) issuer_mismatch) _ e1 in
    let (next, e3, e4) = >>=-eq-ok (checked_add b.amount v.amount) _ e2 in
    let (fit, exact) =
      checked_add-ok b.amount v.amount next
        (AllValues-get IsFunded no_balance v.unit d hd (omega arith)) hv.0 e3 in
    let b' : UnitBalance = record { amount = next; issuer = v.issuer; is_set = true } in
    let (funded, sums) =
      fund-sum (insert v.unit b' d) vs t (AllValues-insert IsFunded v.unit b' d hd fit) hv.1 e4 in
    (
      funded,
      λ u.
          sums u
          ∙ ap (λ x. x +ℤ sum_of u vs) (insert_balance v.unit u b' d ∙ step u next exact)
          ∙ +ℤ_assoc (balance_of u d) (if v.unit == u then v.amount else pos 0) (sum_of u vs),
    )
  where
    step :
        (u : UnitId) (next : ℤ)
        → next ≡ balance_of v.unit d +ℤ v.amount
        → (if v.unit == u then next else balance_of u d)
          ≡ balance_of u d +ℤ (if v.unit == u then v.amount else pos 0)
    step u next exact = ground (arith, +ℤ_zero (balance_of u d), ==_iff v.unit u)

or_exceeds-sub :
    (a b n : ℤ) → IsI64 a → IsI64 b → or_exceeds (sub a b) ≡ ok n → IsI64 n × (n ≡ a -ℤ b)
or_exceeds-sub a b n ha hb e = elim (Bool-cases (ltb_ℤ b (pos 0))) [
  | inl negative ↦ absurd (ground (arith, sub_exact a b ha hb))
  | inr enough ↦ elim (Bool-cases (ltb_ℤ a b)) [
    | inl short ↦ absurd (ground (arith, sub_exact a b ha hb))
    | inr covers ↦
        let same : n ≡ a -ℤ b = ground (arith, sub_exact a b ha hb) in
        (rw same (sub-IsI64 a b ha (ground arith) (ground arith)), same)
  ]
]

pub some_of_found :
    (o : Option UnitBalance) (b : UnitBalance)
    → ◌≡◌ {A = Result UnitBalance} (elim o [ none ↦ err unknown_unit | some x ↦ ok x ]) (ok b)
    → o ≡ some b
some_of_found none b e = cc
some_of_found (some x) b e = cc

spend_step :
    (same : Bool) (x sum n held a y : ℤ)
    → x +ℤ sum ≡ (if same then n else y)
    → n ≡ held -ℤ a
    → (same ≡ true → held ≡ y)
    → x +ℤ ((if same then a else pos 0) +ℤ sum) ≡ y
spend_step true x sum n held a y h k here = let e = here refl in grind int_laws
spend_step false x sum n held a y h k here = grind int_laws

-- After the outputs, each balance is down by their exact sum.
spend-sum :
    (d : Dict UnitId UnitBalance) (vs : List Value) (t : Dict UnitId UnitBalance)
    → AllValues IsFunded d
    → InRange vs
    → spend d vs ≡ ok t
    → (u : UnitId) → balance_of u t +ℤ sum_of u vs ≡ balance_of u d
unfolding spend
spend-sum d [] t hd hv e u =
    let same : t ≡ d = sym (ok-inj d t e) in rw same (+ℤ_zero (balance_of u d))
spend-sum d (v ∷ vs) t hd hv e u =
    let (_, e1) = >>-eq-ok (fail_if (not (valid_amount v.amount)) amount_not_positive) _ e in
    let (b, eb, e2) =
      >>=-eq-ok (elim (lookup v.unit d) [ none ↦ err unknown_unit | some b ↦ ok b ]) _ e1 in
    let (_, e3) = >>-eq-ok (fail_if (not (b.issuer == v.issuer)) issuer_mismatch) _ e2 in
    let (_, e4) = >>-eq-ok (fail_if (ltb_ℤ b.amount v.amount) exceeds_inputs) _ e3 in
    let (next, e5, e6) = >>=-eq-ok (or_exceeds (sub b.amount v.amount)) _ e4 in
    let found : lookup v.unit d ≡ some b = some_of_found (lookup v.unit d) b eb in
    let (fit, exact) =
      or_exceeds-sub b.amount v.amount next (AllValues-lookup IsFunded v.unit b d hd found) hv.0
        e5 in
    let b' : UnitBalance = record b { amount = next } in
    spend_step (v.unit == u) (balance_of u t) (sum_of u vs) next b.amount v.amount (balance_of u d)
      (spend-sum (insert v.unit b' d) vs t (AllValues-insert IsFunded v.unit b' d hd fit) hv.1 e6 u
        ∙ insert_balance v.unit u b' d)
      exact (λ same. ground (arith, ==_iff v.unit u))

all_spent-zero :
    (d : Dict UnitId UnitBalance) (u : UnitId) → all_spent d ≡ ok tt → balance_of u d ≡ pos 0
unfolding all_spent
all_spent-zero [] u e = refl
all_spent-zero ((w, b) ∷ d) u e = ground (arith, all_spent-zero d u, eqb_ℤ_iff b.amount (pos 0))

-- A transfer whose inputs and outputs, of int64 amounts, pass the check has the same exact sum of
-- every unit on both sides.
pub check_conservation_sound :
    (ins outs : List Value)
    → InRange ins
    → InRange outs
    → check_conservation ins outs ≡ ok tt
    → (u : UnitId) → sum_of u ins ≡ sum_of u outs
unfolding check_conservation
check_conservation_sound ins outs hi ho e u =
    let (funded, e1, e2) = >>=-eq-ok (fund [] ins) _ e in
    let (left, e3, e4) = >>=-eq-ok (spend funded outs) _ e2 in
    let (fit, sums) = fund-sum [] ins funded tt hi e1 in
    sym (zero_+ℤ (sum_of u ins))
    ∙ sym (sums u)
    ∙ sym (spend-sum funded outs left fit ho e3 u)
    ∙ ap (λ x. x +ℤ sum_of u outs) (all_spent-zero left u e4)
    ∙ zero_+ℤ (sum_of u outs)
