-- ===== src/Model/Transfer/Outputs.antt =====
-- The outputs of a transfer that `NewTransferTx` (core/model/transfer.go) has completed.
use web4_v.Base.{
  ℕ, suc, ◌≡◌, refl, sym, ap, ◌∙◌, true, false, not, List, [], ◌∷◌, none, some, ok, err, fail_if,
  fail_if-false, fail_if-not-true, ◌==◌, ==_iff, ==_refl, nat_eq, >>=-eq-ok, >>-eq-ok, ok-inj,
  length, All, owner_required, amount_not_positive, issuer_mismatch, unknown_unit, exceeds_inputs,
}
use web4_v.Base.Int.{ℤ, ltb_ℤ}
use web4_v.Base.Dict.{Dict, lookup, insert}
use web4_v.Crypto.{Primitives}
use web4_v.Model.Types.{UnitId, Value, is_zero_node_id}
use web4_v.Model.Amount.{valid_amount, sub}
use web4_v.Model.Ids.{value_id_for}
use web4_v.Model.Ids.Preimages.{value_id_for-body}
use web4_v.Model.Transfer.Checks.{
  UnitBalance, UnitIssuerKey, fund, spend, or_exceeds, check_conservation, check_expiry_propagation,
  least_expiries, normalize_transfer_output_expiries, clamp_expiries,
}
use web4_v.Model.Transfer.Issuers.{HasInputKey}
use web4_v.Model.Transfer.Expiry.{within, check_expiries_iff, clamp_expiry-within}
use web4_v.Model.Transfer.{validate_transfer_outputs, complete_outputs}

clamp_expiries-within :
    (least : Dict UnitIssuerKey ℤ) (vs : List Value)
    → All (λ v. within least v ≡ true) (clamp_expiries least vs)
unfolding clamp_expiries
clamp_expiries-within least [] = tt
clamp_expiries-within least (v ∷ vs) = (clamp_expiry-within least v, clamp_expiries-within least vs)

length-clamp_expiries :
    (least : Dict UnitIssuerKey ℤ) (vs : List Value) → length (clamp_expiries least vs) ≡ length vs
unfolding clamp_expiries
length-clamp_expiries least [] = refl
length-clamp_expiries least (v ∷ vs) = ap suc (length-clamp_expiries least vs)

pub normal-within :
    (ins outs : List Value)
    → All
        (λ v. within (least_expiries [] ins) v ≡ true)
        (normalize_transfer_output_expiries ins outs)
unfolding normalize_transfer_output_expiries
normal-within ins outs = clamp_expiries-within (least_expiries [] ins) outs

pub length-normal :
    (ins outs : List Value) → length (normalize_transfer_output_expiries ins outs) ≡ length outs
unfolding normalize_transfer_output_expiries
length-normal ins outs = length-clamp_expiries (least_expiries [] ins) outs

spend_valid :
    (d : Dict UnitId UnitBalance) (vs : List Value) (t : Dict UnitId UnitBalance)
    → spend d vs ≡ ok t
    → All (λ v. valid_amount v.amount ≡ true) vs
unfolding spend
spend_valid d [] t e = tt
spend_valid d (v ∷ vs) t e =
    let (positive, e1) = >>-eq-ok (fail_if (not (valid_amount v.amount)) amount_not_positive) _ e in
    let (b, eb, e2) =
      >>=-eq-ok (elim (lookup v.unit d) [ none ↦ err unknown_unit | some b ↦ ok b ]) _ e1 in
    let (_, e3) = >>-eq-ok (fail_if (not (b.issuer == v.issuer)) issuer_mismatch) _ e2 in
    let (_, e4) = >>-eq-ok (fail_if (ltb_ℤ b.amount v.amount) exceeds_inputs) _ e3 in
    let (next, e5, e6) = >>=-eq-ok (or_exceeds (sub b.amount v.amount)) _ e4 in
    (
      fail_if-not-true (valid_amount v.amount) amount_not_positive positive,
      spend_valid (insert v.unit (record b { amount = next }) d) vs t e6,
    )

pub conserved_valid :
    (ins outs : List Value)
    → check_conservation ins outs ≡ ok tt
    → All (λ v. valid_amount v.amount ≡ true) outs
unfolding check_conservation
conserved_valid ins outs e =
    let (funded, e1, e2) = >>=-eq-ok (fund [] ins) _ e in
    let (left, e3, e4) = >>=-eq-ok (spend funded outs) _ e2 in spend_valid funded outs left e3

-- Outputs with the units, issuers and expiries that the inputs allow pass the last check.
pub within_allowed :
    (ins outs : List Value)
    → All (HasInputKey ins) outs
    → All (λ v. within (least_expiries [] ins) v ≡ true) outs
    → check_expiry_propagation ins outs ≡ ok tt
unfolding check_expiry_propagation
within_allowed ins outs k w =
    (check_expiries_iff (least_expiries [] ins) ins outs).1 (both outs k w)
  where
    both :
        (vs : List Value)
        → All (HasInputKey ins) vs
        → All (λ v. within (least_expiries [] ins) v ≡ true) vs
        → All (λ v. HasInputKey ins v × (within (least_expiries [] ins) v ≡ true)) vs
    both [] h g = tt
    both (v ∷ vs) h g = ((h.0, g.0), both vs h.1 g.1)

module _ (c : Primitives) where
  -- An output that `NewTransferTx` has completed.
  abbrev pub IsCompleted : ℕ → Value → Type 0
  IsCompleted depth v =
      (is_zero_node_id v.owner ≡ false) × (v.depth ≡ depth) × (value_id_for c v ≡ ok v.id)

  pub complete_outputs-IsCompleted :
      (least : Dict UnitIssuerKey ℤ) (depth : ℕ) (vs ws : List Value)
      → All (λ v. within least v ≡ true) vs
      → complete_outputs c depth vs ≡ ok ws
      → All (IsCompleted depth) ws × All (λ v. within least v ≡ true) ws × (length ws ≡ length vs)
  unfolding complete_outputs
  complete_outputs-IsCompleted least depth [] ws h e =
      let same : ws ≡ [] = sym (ok-inj [] ws e) in rw same (tt, tt, refl)
  complete_outputs-IsCompleted least depth (v ∷ vs) ws h e =
      let (owned, e1) = >>-eq-ok (fail_if (is_zero_node_id v.owner) owner_required) _ e in
      let placed : Value = record v { depth = depth } in
      let (id, ei, e2) = >>=-eq-ok (value_id_for c placed) _ e1 in
      let (rest, er, e3) = >>=-eq-ok (complete_outputs c depth vs) _ e2 in
      let done : Value = record placed { id = id } in
      let same : ws ≡ done ∷ rest = sym (ok-inj (done ∷ rest) ws e3) in
      let (completed, inside, size) = complete_outputs-IsCompleted least depth vs rest h.1 er in
      rw same (
        (
          (
            fail_if-false (is_zero_node_id v.owner) owner_required owned,
            refl,
            value_id_for-body c placed id ∙ ei,
          ),
          completed,
        ),
        (h.0, inside),
        ap suc size,
      )

  pub validate_outputs_ok :
      (depth : ℕ) (vs : List Value)
      → All (IsCompleted depth) vs
      → All (λ v. valid_amount v.amount ≡ true) vs
      → validate_transfer_outputs c depth vs ≡ ok tt
  unfolding validate_transfer_outputs
  validate_outputs_ok depth [] h p = refl
  validate_outputs_ok depth (v ∷ vs) h p =
      let (owned, placed, named) = h.0 in
      let deep : (v.depth == depth) ≡ true = (==_iff v.depth depth).1 placed in
      rw (p.0, owned, deep, named, ==_refl v.id) (validate_outputs_ok depth vs h.1 p.1)
