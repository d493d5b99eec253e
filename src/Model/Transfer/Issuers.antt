-- ===== src/Model/Transfer/Issuers.antt =====
-- `checkConservation` of core/model/validate.go keeps each unit with one issuer: an output names the
-- issuer of an input of its unit.
use web4_v.Base.{
  ◌≡◌, ◌⊎◌, refl, sym, ap, true, not, ◌&&◌, List, [], ◌∷◌, Option, none, some, ok, err, fail_if,
  fail_if-not-true, if◌then◌else◌, ◌==◌, ==_iff, nat_eq, arith, inl, inr, >>=-eq-ok, >>-eq-ok,
  ok-inj, All, amount_not_positive, issuer_mismatch, unknown_unit, exceeds_inputs,
}
use web4_v.Base.Int.{ltb_ℤ}
use web4_v.Base.Dict.{Dict, lookup, get, insert, lookup-insert}
use web4_v.Model.Types.{UnitId, NodeId, Value}
use web4_v.Model.Amount.{checked_add, sub, valid_amount}
use web4_v.Model.Transfer.Checks.{
  UnitBalance, no_balance, fund, spend, or_exceeds, check_conservation, key_of, is_input_key,
}
use web4_v.Model.Transfer.Conservation.{some_of_found}

abbrev issuer_at : UnitId → Dict UnitId UnitBalance → Option NodeId
issuer_at u d = elim (lookup u d) [ none ↦ none | some b ↦ some b.issuer ]

insert_issuer :
    (u w : UnitId) (b : UnitBalance) (d : Dict UnitId UnitBalance)
    → issuer_at w (insert u b d) ≡ (if u == w then some b.issuer else issuer_at w d)
insert_issuer u w b d = ground (arith, lookup-insert u w b d)

fund_issuers :
    (d : Dict UnitId UnitBalance) (vs : List Value) (t : Dict UnitId UnitBalance) (u : UnitId)
    (i : NodeId)
    → fund d vs ≡ ok t
    → issuer_at u t ≡ some i
    → (issuer_at u d ≡ some i) ⊎ (is_input_key (u, i) vs ≡ true)
unfolding fund
fund_issuers d [] t u i e h = let same : t ≡ d = sym (ok-inj d t e) in inl (rw same at h)
fund_issuers d (v ∷ vs) t u i e h =
    let b = get no_balance v.unit d in
    let (_, e1) = >>-eq-ok (fail_if (not (valid_amount v.amount)) amount_not_positive) _ e in
    let (_, e2) =
      >>-eq-ok (fail_if (b.is_set && not (b.issuer == v.issuer)) issuer_mismatch) _ e1 in
    let (next, e3, e4) = >>=-eq-ok (checked_add b.amount v.amount) _ e2 in
    let b' : UnitBalance = record { amount = next; issuer = v.issuer; is_set = true } in
    from_step (fund_issuers (insert v.unit b' d) vs t u i e4 h) (insert_issuer v.unit u b' d)
  where
    from_step :
        {o : Option NodeId}
        → (o ≡ some i) ⊎ (is_input_key (u, i) vs ≡ true)
        → o ≡ (if v.unit == u then some v.issuer else issuer_at u d)
        → (issuer_at u d ≡ some i) ⊎ (is_input_key (u, i) (v ∷ vs) ≡ true)
    from_step p q = ground (arith, ==_iff v.unit u, ==_iff v.issuer i)

spend_issuers :
    (d : Dict UnitId UnitBalance) (vs : List Value) (t : Dict UnitId UnitBalance)
    → spend d vs ≡ ok t
    → All (λ v. issuer_at v.unit d ≡ some v.issuer) vs
unfolding spend
spend_issuers d [] t e = tt
spend_issuers d (v ∷ vs) t e =
    let (_, e1) = >>-eq-ok (fail_if (not (valid_amount v.amount)) amount_not_positive) _ e in
    let (b, eb, e2) =
      >>=-eq-ok (elim (lookup v.unit d) [ none ↦ err unknown_unit | some b ↦ ok b ]) _ e1 in
    let (same, e3) = >>-eq-ok (fail_if (not (b.issuer == v.issuer)) issuer_mismatch) _ e2 in
    let (_, e4) = >>-eq-ok (fail_if (ltb_ℤ b.amount v.amount) exceeds_inputs) _ e3 in
    let (next, e5, e6) = >>=-eq-ok (or_exceeds (sub b.amount v.amount)) _ e4 in
    let found = some_of_found (lookup v.unit d) b eb in
    let b' : UnitBalance = record b { amount = next } in
    let issuer : b.issuer ≡ v.issuer =
      (==_iff b.issuer v.issuer).0 (fail_if-not-true (b.issuer == v.issuer) issuer_mismatch same) in
    let here : issuer_at v.unit d ≡ some v.issuer = rw (found, issuer_at) (ap some issuer) in
    (here, keep b b' vs found refl (spend_issuers (insert v.unit b' d) vs t e6))
  where
    keep :
        (b b' : UnitBalance) (ws : List Value)
        → lookup v.unit d ≡ some b
        → b'.issuer ≡ b.issuer
        → All (λ w. issuer_at w.unit (insert v.unit b' d) ≡ some w.issuer) ws
        → All (λ w. issuer_at w.unit d ≡ some w.issuer) ws
    keep b b' [] found same h = tt
    keep b b' (w ∷ ws) found same h = (
      ground (arith, insert_issuer v.unit w.unit b' d, ==_iff v.unit w.unit),
      keep b b' ws found same h.1,
    )

abbrev pub HasInputKey : List Value → Value → Type 0
HasInputKey ins v = is_input_key (key_of v) ins ≡ true

-- Every output of a transfer that passes the check has the unit and the issuer of an input.
pub check_conservation_issuers :
    (ins outs : List Value) → check_conservation ins outs ≡ ok tt → All (HasInputKey ins) outs
unfolding check_conservation
check_conservation_issuers ins outs e =
    let (funded, e1, e2) = >>=-eq-ok (fund [] ins) _ e in
    let (left, e3, e4) = >>=-eq-ok (spend funded outs) _ e2 in
    from_inputs funded outs e1 (spend_issuers funded outs left e3)
  where
    from_inputs :
        (funded : Dict UnitId UnitBalance) (vs : List Value)
        → fund [] ins ≡ ok funded
        → All (λ v. issuer_at v.unit funded ≡ some v.issuer) vs
        → All (HasInputKey ins) vs
    from_inputs funded [] e1 h = tt
    from_inputs funded (v ∷ vs) e1 h = (
      elim (fund_issuers [] ins funded v.unit v.issuer e1 h.0) [
        | inl none_yet ↦ absurd (cc)
        | inr there ↦ there
      ],
      from_inputs funded vs e1 h.1,
    )
