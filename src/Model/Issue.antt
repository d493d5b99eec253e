-- ===== src/Model/Issue.antt =====
-- Issuing value: core/model/issue.go, `ValidateIssueTx` of core/model/validate.go, and the structural
-- checks of core/model/protocol.go. A nil transaction is not modelled.
pub mod Apply
pub mod Signed
use web4_v.Base.{
  ℕ, zero, suc, Bool, true, false, not, ◌&&◌, ◌||◌, List, [], ◌∷◌, Result, ok, err, ◌>>=◌, ◌>>◌,
  fail_if, if◌then◌else◌, ◌==◌, length, unit_name_required, amount_not_positive, owner_required,
  unit_mismatch, value_id_mismatch, duplicate_value_id, outputs_required, tx_id_mismatch,
  invalid_signature, one_output_required, output_differs, output_mismatch,
}
use web4_v.Base.Int.{ℤ, pos, eqb_ℤ}
use web4_v.Crypto.{Primitives, sign, verify}
use web4_v.Model.Types.{Bytes, UnitId, ValueId, NodeId, Value, IssueTx, value_eqb, is_zero_node_id}
use web4_v.Model.Amount.{valid_amount}
use web4_v.Model.Ids.{
  value_id_for, issue_tx_id, issue_preimage, new_unit_id, node_id_from_public_key,
  public_key_from_private, public_key,
}
use web4_v.Model.Inventory.{InventoryState, copy}
use web4_v.Model.Trade.{contains, credit}

-- `tx.Outputs[0]`, where the number of outputs is tested to be one.
abbrev pub sole_output : List Value → Result Value
sole_output (v ∷ []) = ok v
sole_output _ = err one_output_required

-- The value of `NewIssueTx`, before it has its ID.
abbrev pub issue_output : UnitId → ℤ → NodeId → NodeId → ℤ → Value
issue_output unit amount owner issuer expiry = record {
  id = 0;
  unit = unit;
  amount = amount;
  owner = owner;
  created_at = pos 0;
  issuer = issuer;
  expiry_unix = expiry;
  depth = 0;
}

-- The transaction of `NewIssueTx`, before it has its ID and its signature.
abbrev pub issue_draft : Bytes → UnitId → ℤ → NodeId → NodeId → ℤ → Value → IssueTx
issue_draft unit_name unit amount owner issuer expiry output = record {
  id = 0;
  unit = unit;
  outputs = output ∷ [];
  issuer = issuer;
  timestamp = pos 0;
  unit_name = unit_name;
  amount = amount;
  owner = owner;
  expiry_unix = expiry;
  signature = [];
}

module _ (c : Primitives) where
  -- The loop of `ValidateStructuralIssueTx`.
  unfoldable pub validate_outputs : UnitId → List ValueId → List Value → Result (Unit {0})
  validate_outputs unit seen [] = ok tt
  validate_outputs unit seen (v ∷ vs) = do
    fail_if (not (valid_amount v.amount)) amount_not_positive
    fail_if (not (v.unit == unit)) unit_mismatch
    fail_if (is_zero_node_id v.owner) owner_required
    expected ← value_id_for c v
    fail_if (not (v.id == expected)) value_id_mismatch
    fail_if (contains v.id seen) duplicate_value_id
    validate_outputs unit (v.id ∷ seen) vs

  unfoldable pub validate_structural_issue_tx : IssueTx → Result (Unit {0})
  validate_structural_issue_tx tx = do
    fail_if (length tx.outputs == 0) outputs_required
    expected ← issue_tx_id c tx
    fail_if (not (tx.id == expected)) tx_id_mismatch
    validate_outputs tx.unit [] tx.outputs

  unfoldable pub apply_structural_issue_tx : InventoryState → IssueTx → Result InventoryState
  apply_structural_issue_tx inv tx = do
    validate_structural_issue_tx tx
    credit (copy inv) tx.outputs

  -- The end of `NewIssueTx`: the transaction gets its ID and its signature.
  unfoldable pub sign_issue : Bytes → IssueTx → Value → Result (IssueTx × Value)
  sign_issue priv draft output = do
    tx_id ← issue_tx_id c draft
    preimage ← issue_preimage (record draft { id = tx_id })
    signature ← sign c priv preimage
    ok (record draft { id = tx_id; signature = signature }, output)

  unfoldable pub new_issue_tx : Bytes → Bytes → Bytes → ℤ → ℤ → Result (IssueTx × Value)
  new_issue_tx priv owner_key unit_name amount expiry = do
    fail_if (length unit_name == 0) unit_name_required
    fail_if (not (valid_amount amount)) amount_not_positive
    issuer_key ← public_key_from_private c priv
    issuer ← node_id_from_public_key issuer_key
    owner ← node_id_from_public_key owner_key
    fail_if (is_zero_node_id owner) owner_required
    unit ← new_unit_id c issuer_key unit_name
    let blank = issue_output unit amount owner issuer expiry
    value_id ← value_id_for c blank
    let output = record blank { id = value_id }
    sign_issue priv (issue_draft unit_name unit amount owner issuer expiry output) output

  unfoldable pub validate_issue_tx : IssueTx → Value → Result (Unit {0})
  validate_issue_tx tx output = do
    fail_if (length tx.unit_name == 0) unit_name_required
    fail_if (not (valid_amount tx.amount)) amount_not_positive
    fail_if (is_zero_node_id tx.owner) owner_required
    unit ← new_unit_id c (public_key tx.issuer) tx.unit_name
    fail_if (not (tx.unit == unit)) unit_mismatch
    expected ← issue_tx_id c tx
    fail_if (not (tx.id == expected)) tx_id_mismatch
    preimage ← issue_preimage tx
    fail_if (not (verify c (public_key tx.issuer) preimage tx.signature)) invalid_signature
    tx_output ← sole_output tx.outputs
    fail_if (is_zero_node_id tx_output.owner) owner_required
    expected_output ← value_id_for c tx_output
    fail_if (not (tx_output.id == expected_output)) value_id_mismatch
    fail_if (not (value_eqb tx_output output)) output_differs
    fail_if
        (not (eqb_ℤ output.amount tx.amount)
          || not (output.unit == tx.unit)
          || not (output.owner == tx.owner)
          || not (output.issuer == tx.issuer)
          || not (eqb_ℤ output.expiry_unix tx.expiry_unix)
          || not (output.depth == 0))
        output_mismatch
    fail_if (is_zero_node_id output.owner) owner_required
    expected_value ← value_id_for c output
    fail_if (not (output.id == expected_value)) value_id_mismatch
