-- ===== src/Model/Transfer.antt =====
-- Transfers: core/model/transfer.go, and `ValidateTransferTx` with its checks in
-- core/model/validate.go. A nil transaction is not modelled.
pub mod Checks
pub mod Conservation
pub mod Issuers
pub mod Expiry
pub mod Inputs
pub mod Outputs
pub mod Signed
use web4_v.Base.{
  ℕ, ◌+◌, ◌-◌, ◌^◌, Bool, true, false, not, ◌&&◌, ◌||◌, List, [], ◌∷◌, Result, ok, err, ◌>>=◌, ◌>>◌,
  fail_if, if◌then◌else◌, ◌==◌, length, inputs_required, outputs_required, input_count_mismatch,
  not_owned_by_author, amount_not_positive, owner_required, depth_mismatch, value_id_mismatch,
  tx_id_mismatch, invalid_signature,
}
use web4_v.Base.Int.{ℤ}
use web4_v.Crypto.{Primitives, sign, verify}
use web4_v.Model.Types.{Bytes, ValueId, NodeId, Value, TransferTx, is_zero_node_id}
use web4_v.Model.Amount.{valid_amount}
use web4_v.Model.Ids.{
  value_id_for, transfer_tx_id, transfer_preimage, node_id_from_public_key, public_key_from_private,
  public_key,
}
use Checks.{
  canonical_inputs_for_transfer, canonical_unique_inputs, next_transfer_depth, check_conservation,
  check_expiry_propagation, normalize_transfer_output_expiries, ids_of,
}

-- `for i, input := range inputs { if input.Owner != author { return … } }`
unfoldable pub check_owners : NodeId → List Value → Result (Unit {0})
check_owners author [] = ok tt
check_owners author (v ∷ vs) = do
  fail_if (not (v.owner == author)) not_owned_by_author
  check_owners author vs

module _ (c : Primitives) where
  -- The loop of `ValidateTransferTx` over the outputs.
  unfoldable pub validate_transfer_outputs : ℕ → List Value → Result (Unit {0})
  validate_transfer_outputs depth [] = ok tt
  validate_transfer_outputs depth (v ∷ vs) = do
    fail_if (not (valid_amount v.amount)) amount_not_positive
    fail_if (is_zero_node_id v.owner) owner_required
    fail_if (not (v.depth == depth)) depth_mismatch
    expected ← value_id_for c v
    fail_if (not (v.id == expected)) value_id_mismatch
    validate_transfer_outputs depth vs

  unfoldable pub validate_transfer_tx : TransferTx → List Value → Result (Unit {0})
  validate_transfer_tx tx input_values = do
    fail_if (length tx.inputs == 0) inputs_required
    fail_if (length tx.outputs == 0) outputs_required
    fail_if (not (length tx.inputs == length input_values)) input_count_mismatch
    inputs ← canonical_inputs_for_transfer c tx.inputs input_values
    check_owners tx.author inputs
    depth ← next_transfer_depth inputs
    validate_transfer_outputs depth tx.outputs
    check_conservation inputs tx.outputs
    check_expiry_propagation inputs tx.outputs
    expected ← transfer_tx_id c tx
    fail_if (not (tx.id == expected)) tx_id_mismatch
    preimage ← transfer_preimage tx
    fail_if (not (verify c (public_key tx.author) preimage tx.signature)) invalid_signature

  -- The loop of `NewTransferTx` that completes the outputs.
  unfoldable pub complete_outputs : ℕ → List Value → Result (List Value)
  complete_outputs depth [] = ok []
  complete_outputs depth (v ∷ vs) = do
    fail_if (is_zero_node_id v.owner) owner_required
    let placed = record v { depth = depth }
    id ← value_id_for c placed
    rest ← complete_outputs depth vs
    ok (record placed { id = id } ∷ rest)

  -- The end of `NewTransferTx`: the transaction gets its ID and its signature.
  unfoldable pub sign_transfer : Bytes → TransferTx → Result TransferTx
  sign_transfer priv draft = do
    tx_id ← transfer_tx_id c draft
    preimage ← transfer_preimage (record draft { id = tx_id })
    signature ← sign c priv preimage
    ok (record draft { id = tx_id; signature = signature })

  unfoldable pub new_transfer_tx : Bytes → List Value → List Value → Result TransferTx
  new_transfer_tx priv inputs outputs = do
    fail_if (length inputs == 0) inputs_required
    fail_if (length outputs == 0) outputs_required
    author_key ← public_key_from_private c priv
    author ← node_id_from_public_key author_key
    canonical ← canonical_unique_inputs c inputs
    check_owners author canonical
    depth ← next_transfer_depth canonical
    completed ← complete_outputs depth (normalize_transfer_output_expiries canonical outputs)
    check_conservation canonical completed
    sign_transfer priv (record {
      id = 0;
      inputs = ids_of canonical;
      outputs = completed;
      author = author;
      signature = [];
    })
