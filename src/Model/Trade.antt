-- ===== src/Model/Trade.antt =====
-- `ValidateTradeTx` and `ApplyTradeTx` of core/model/protocol.go. A nil transaction is not modelled.
pub mod Conservation
pub mod Charges
pub mod Coverage
pub mod Supply
pub mod Apply
use web4_v.Base.{
  ℕ, Bool, true, false, not, ◌&&◌, ◌||◌, List, [], ◌∷◌, ◌++◌, ◌+◌, Result, ok, err, ◌>>=◌, ◌>>◌,
  fail_if, if◌then◌else◌, ◌==◌, length, nat_eq, amount_not_positive, owner_mismatch, owner_required,
  value_id_mismatch, duplicate_value_id, unit_set_changed, not_conserved, not_in_inventory,
  parties_required, parties_must_differ, inputs_required, outputs_required, tx_id_mismatch,
}
use web4_v.Base.Int.{ℤ, pos, ltb_ℤ, eqb_ℤ}
use web4_v.Base.Dict.{Dict, get}
use web4_v.Crypto.{Primitives}
use web4_v.Model.Types.{UnitId, ValueId, NodeId, Value, TradeTx, is_zero_node_id}
use web4_v.Model.Amount.{valid_amount}
use web4_v.Model.Ids.{value_id_for, trade_tx_id}
use web4_v.Model.Inventory.{InventoryState, Outcome, get_amount, add_checked, sub_amount, copy}
use web4_v.Model.Sums.{tally}

-- `_, ok := seen[id]` in a map[ValueID]struct{}, by its keys.
abbrev pub contains : ValueId → List ValueId → Bool
contains id [] = false
contains id (seen ∷ more) = seen == id || contains id more

unfoldable pub check_group : List ValueId → List Value → Result (List ValueId)
check_group seen [] = ok seen
check_group seen (v ∷ vs) = do
  fail_if (contains v.id seen) duplicate_value_id
  check_group (v.id ∷ seen) vs

check_groups : List ValueId → List (List Value) → Result (Unit {0})
unfolding check_group
check_groups seen [] = ok tt
check_groups seen (group ∷ groups) = do seen' ← check_group seen group; check_groups seen' groups

unfoldable pub check_no_duplicate_value_ids : List (List Value) → Result (Unit {0})
unfolding check_groups
check_no_duplicate_value_ids groups = check_groups [] groups

-- The loop over the input amounts at the end of `checkTradeConservation`.
unfoldable pub same_amounts : Dict UnitId ℤ → Dict UnitId ℤ → Result (Unit {0})
same_amounts [] outputs = ok tt
same_amounts ((unit, amount) ∷ inputs) outputs = do
  fail_if (not (eqb_ℤ amount (get (pos 0) unit outputs))) not_conserved
  same_amounts inputs outputs

unfoldable pub check_trade_conservation : TradeTx → Result (Unit {0})
check_trade_conservation tx = do
  inputs ← tally [] (tx.inputs_a ++ tx.inputs_b)
  outputs ← tally [] (tx.outputs_a ++ tx.outputs_b)
  fail_if (not (length inputs == length outputs)) unit_set_changed
  same_amounts inputs outputs

-- The loop over the required amounts at the end of `checkTradeInventoryCoverage`.
unfoldable pub covers : InventoryState → NodeId → Dict UnitId ℤ → Result (Unit {0})
covers inv party [] = ok tt
covers inv party ((unit, amount) ∷ required) = do
  fail_if (ltb_ℤ (get_amount inv party unit) amount) not_in_inventory
  covers inv party required

unfoldable pub check_trade_inventory_coverage :
    InventoryState → NodeId → List Value → Result (Unit {0})
check_trade_inventory_coverage inv party inputs = do
  required ← tally [] inputs
  covers inv party required

-- One step of a loop whose body returns the error of a method of `next`.
abbrev pub advance : Outcome → Result InventoryState
advance (ok _, next) = ok next
advance (err e, next) = err e

-- `next.Sub(party, input.Unit, input.Amount)` for each input.
unfoldable pub charge : NodeId → InventoryState → List Value → Result InventoryState
charge party s [] = ok s
charge party s (v ∷ vs) = do
  next ← advance (sub_amount s party v.unit v.amount)
  charge party next vs

-- `next.AddChecked(output.Owner, output.Unit, output.Amount)` for each output.
unfoldable pub credit : InventoryState → List Value → Result InventoryState
credit s [] = ok s
credit s (v ∷ vs) = do next ← advance (add_checked s v.owner v.unit v.amount); credit next vs

module _ (c : Primitives) where
  unfoldable pub validate_value_set : List Value → NodeId → Bool → Result (Unit {0})
  validate_value_set [] owner require_owned = ok tt
  validate_value_set (v ∷ vs) owner require_owned = do
    fail_if (not (valid_amount v.amount)) amount_not_positive
    fail_if (require_owned && not (v.owner == owner)) owner_mismatch
    fail_if (not require_owned && is_zero_node_id v.owner) owner_required
    expected ← value_id_for c v
    fail_if (not (v.id == expected)) value_id_mismatch
    validate_value_set vs owner require_owned

  unfoldable pub validate_trade_tx : TradeTx → InventoryState → Result (Unit {0})
  validate_trade_tx tx inv = do
    fail_if (is_zero_node_id tx.party_a || is_zero_node_id tx.party_b) parties_required
    fail_if (tx.party_a == tx.party_b) parties_must_differ
    fail_if (length tx.inputs_a + length tx.inputs_b == 0) inputs_required
    fail_if (length tx.outputs_a + length tx.outputs_b == 0) outputs_required
    validate_value_set tx.inputs_a tx.party_a true
    validate_value_set tx.inputs_b tx.party_b true
    validate_value_set tx.outputs_a tx.party_a false
    validate_value_set tx.outputs_b tx.party_b false
    check_no_duplicate_value_ids (tx.inputs_a ∷ tx.inputs_b ∷ tx.outputs_a ∷ tx.outputs_b ∷ [])
    check_trade_conservation tx
    expected ← trade_tx_id c tx
    fail_if (not (tx.id == expected)) tx_id_mismatch
    check_trade_inventory_coverage inv tx.party_a tx.inputs_a
    check_trade_inventory_coverage inv tx.party_b tx.inputs_b

  unfoldable pub apply_trade_tx : InventoryState → TradeTx → Result InventoryState
  apply_trade_tx inv tx = do
    validate_trade_tx tx inv
    after_a ← charge tx.party_a (copy inv) tx.inputs_a
    after_b ← charge tx.party_b after_a tx.inputs_b
    credited_a ← credit after_b tx.outputs_a
    credit credited_a tx.outputs_b
