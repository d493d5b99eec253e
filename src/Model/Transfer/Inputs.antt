-- ===== src/Model/Transfer/Inputs.antt =====
-- `canonicalInputsForTransfer` of core/model/validate.go on the inputs of `NewTransferTx`.
use web4_v.Base.{
  suc, ◌≡◌, refl, sym, ap, not, List, [], ◌∷◌, Option, none, some, Result, ok, err, fail_if, ◌==◌,
  ==_iff, nat_eq, arith, >>=-eq-ok, >>-eq-ok, ok-inj, length, value_id_mismatch, duplicate_value_id,
  duplicate_tx_input, input_id_mismatch, input_set_mismatch,
}
use mathlib.Core.Path.{ap₂, subst}
use web4_v.Base.Dict.{Dict, lookup, has, insert, lookup-insert}
use web4_v.Crypto.{Primitives}
use web4_v.Model.Types.{ValueId, Value}
use web4_v.Model.Ids.{value_id_for}
use web4_v.Model.Trade.{contains}
use web4_v.Model.Transfer.Checks.{ids_of, pick_inputs, index_inputs, canonical_inputs_for_transfer}

-- Every value stands under its own ID.
abbrev IsKeyed : Dict ValueId Value → Type 0
IsKeyed d = (id : ValueId) (v : Value) → lookup id d ≡ some v → v.id ≡ id

insert-IsKeyed : (v : Value) (d : Dict ValueId Value) → IsKeyed d → IsKeyed (insert v.id v d)
insert-IsKeyed v d h id w e = ground (arith, lookup-insert v.id id v d, ==_iff v.id id, h id w)

found_input :
    (o : Option Value) (v : Value)
    → ◌≡◌ {A = Result Value} (elim o [ none ↦ err input_id_mismatch | some x ↦ ok x ]) (ok v)
    → o ≡ some v
found_input none v e = cc
found_input (some x) v e = cc

pub length-ids_of : (vs : List Value) → length (ids_of vs) ≡ length vs
length-ids_of [] = refl
length-ids_of (v ∷ vs) = ap suc (length-ids_of vs)

ids_of-pick_inputs :
    (d : Dict ValueId Value) (seen ids : List ValueId) (vs : List Value)
    → IsKeyed d
    → pick_inputs d seen ids ≡ ok vs
    → ids_of vs ≡ ids
unfolding pick_inputs
ids_of-pick_inputs d seen [] vs h e = rw (sym (ok-inj [] vs e))
ids_of-pick_inputs d seen (id ∷ ids) vs h e =
    let (_, e1) = >>-eq-ok (fail_if (contains id seen) duplicate_tx_input) _ e in
    let (v, ev, e2) =
      >>=-eq-ok (elim (lookup id d) [ none ↦ err input_id_mismatch | some x ↦ ok x ]) _ e1 in
    let (rest, er, e3) = >>=-eq-ok (pick_inputs d (id ∷ seen) ids) _ e2 in
    rw (sym (ok-inj (v ∷ rest) vs e3)) (
      ap₂ ◌∷◌ (h id v (found_input (lookup id d) v ev))
        (ids_of-pick_inputs d (id ∷ seen) ids rest h er))

module _ (c : Primitives) where
  index_inputs-IsKeyed :
      (d : Dict ValueId Value) (vs : List Value) (t : Dict ValueId Value)
      → IsKeyed d
      → index_inputs c d vs ≡ ok t
      → IsKeyed t
  unfolding index_inputs
  index_inputs-IsKeyed d [] t h e = subst IsKeyed (ok-inj d t e) h
  index_inputs-IsKeyed d (v ∷ vs) t h e =
      let (expected, ee, e1) = >>=-eq-ok (value_id_for c v) _ e in
      let (_, e2) = >>-eq-ok (fail_if (not (v.id == expected)) value_id_mismatch) _ e1 in
      let (_, e3) = >>-eq-ok (fail_if (has v.id d) duplicate_value_id) _ e2 in
      index_inputs-IsKeyed (insert v.id v d) vs t (insert-IsKeyed v d h) e3

  -- The inputs that `canonicalInputsForTransfer` returns are in the order of the IDs that name
  -- them.
  pub ids_of-canonical :
      (ids : List ValueId) (values canonical : List Value)
      → canonical_inputs_for_transfer c ids values ≡ ok canonical
      → ids_of canonical ≡ ids
  unfolding canonical_inputs_for_transfer
  ids_of-canonical ids values canonical e =
      let (d, ed, e1) = >>=-eq-ok (index_inputs c [] values) _ e in
      let (inputs, ei, e2) = >>=-eq-ok (pick_inputs d [] ids) _ e1 in
      let (_, e3) = >>-eq-ok (fail_if (not (length ids == length d)) input_set_mismatch) _ e2 in
      rw (sym (ok-inj inputs canonical e3)) (
        ids_of-pick_inputs d [] ids inputs
          (index_inputs-IsKeyed [] values d (λ id v h. absurd (cc)) ed) ei)
