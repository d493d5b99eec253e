-- ===== src/Model/Transfer/Signed.antt =====
-- `NewTransferTx` (core/model/transfer.go) against `ValidateTransferTx` (core/model/validate.go).
use web4_v.Base.{
  ℕ, ◌≡◌, refl, sym, ap, ◌∙◌, true, false, List, [], ok, fail_if, fail_if-false, ◌==◌, ==_refl,
  nat_eq, >>=-eq-ok, >>-eq-ok, ok-inj, length, inputs_required, outputs_required,
}
use web4_v.Crypto.{Primitives, IsSound, IsKey, sign, verify, verify-sign}
use web4_v.Model.Types.{Bytes, NodeId, Value, TransferTx}
use web4_v.Model.Ids.{
  transfer_tx_id, transfer_preimage, node_id_from_public_key, public_key_from_private, public_key,
}
use web4_v.Model.Issue.Signed.{public_key-node_id}
use web4_v.Model.Transfer.Checks.{
  canonical_inputs_for_transfer, canonical_unique_inputs, next_transfer_depth, check_conservation,
  check_expiry_propagation, least_expiries, normalize_transfer_output_expiries, ids_of,
}
use web4_v.Model.Transfer.Inputs.{length-ids_of, ids_of-canonical}
use web4_v.Model.Transfer.Issuers.{check_conservation_issuers}
use web4_v.Model.Transfer.{
  check_owners, validate_transfer_outputs, validate_transfer_tx, complete_outputs, sign_transfer,
  new_transfer_tx,
}
use web4_v.Model.Transfer.Outputs.{
  normal-within, length-normal, conserved_valid, within_allowed, complete_outputs-IsCompleted,
  validate_outputs_ok,
}

-- The transaction of `NewTransferTx`, before it has its ID and its signature.
abbrev draft_of : List Value → List Value → NodeId → TransferTx
draft_of inputs outputs author = record {
  id = 0;
  inputs = ids_of inputs;
  outputs = outputs;
  author = author;
  signature = [];
}

module _ (c : Primitives) where
  transfer_preimage-body :
      (tx : TransferTx) (id : ℕ) (sig : Bytes)
      → transfer_preimage (record tx { id = id; signature = sig }) ≡ transfer_preimage tx
  unfolding transfer_preimage
  transfer_preimage-body tx id sig = refl

  transfer_tx_id-body :
      (tx : TransferTx) (id : ℕ) (sig : Bytes)
      → transfer_tx_id c (record tx { id = id; signature = sig }) ≡ transfer_tx_id c tx
  unfolding transfer_tx_id
  transfer_tx_id-body tx id sig = rw (transfer_preimage-body tx id sig)

  -- What `NewTransferTx` has found when it succeeds.
  record Transferred (priv : Bytes) (inputs outputs : List Value) (tx : TransferTx) : Type 0 where
    author_key : Bytes
    author : NodeId
    canonical : List Value
    depth : ℕ
    completed : List Value
    has_inputs : (length inputs == 0) ≡ false
    has_outputs : (length outputs == 0) ≡ false
    key : public_key_from_private c priv ≡ ok author_key
    author_id : node_id_from_public_key author_key ≡ ok author
    canonical_inputs : canonical_unique_inputs c inputs ≡ ok canonical
    owners : check_owners author canonical ≡ ok tt
    next_depth : next_transfer_depth canonical ≡ ok depth
    completes :
        complete_outputs c depth (normalize_transfer_output_expiries canonical outputs)
        ≡ ok completed
    conserved : check_conservation canonical completed ≡ ok tt
    signed : sign_transfer c priv (draft_of canonical completed author) ≡ ok tx

  new_transfer_tx-Transferred :
      (priv : Bytes) (inputs outputs : List Value) (tx : TransferTx)
      → new_transfer_tx c priv inputs outputs ≡ ok tx
      → Transferred priv inputs outputs tx
  unfolding new_transfer_tx
  new_transfer_tx-Transferred priv inputs outputs tx e =
      let (has_in, e1) = >>-eq-ok (fail_if (length inputs == 0) inputs_required) _ e in
      let (has_out, e2) = >>-eq-ok (fail_if (length outputs == 0) outputs_required) _ e1 in
      let (author_key, ek, e3) = >>=-eq-ok (public_key_from_private c priv) _ e2 in
      let (author, ea, e4) = >>=-eq-ok (node_id_from_public_key author_key) _ e3 in
      let (canonical, ec, e5) = >>=-eq-ok (canonical_unique_inputs c inputs) _ e4 in
      let (owners, e6) = >>-eq-ok (check_owners author canonical) _ e5 in
      let (depth, ed, e7) = >>=-eq-ok (next_transfer_depth canonical) _ e6 in
      let (completed, eo, e8) =
        >>=-eq-ok (complete_outputs c depth (normalize_transfer_output_expiries canonical outputs))
          _ e7 in
      let (conserved, e9) = >>-eq-ok (check_conservation canonical completed) _ e8 in
      record {
        author_key = author_key;
        author = author;
        canonical = canonical;
        depth = depth;
        completed = completed;
        has_inputs = fail_if-false (length inputs == 0) inputs_required has_in;
        has_outputs = fail_if-false (length outputs == 0) outputs_required has_out;
        key = ek;
        author_id = ea;
        canonical_inputs = ec;
        owners = owners;
        next_depth = ed;
        completes = eo;
        conserved = conserved;
        signed = e9;
      }

  sign_transfer-parts :
      (priv : Bytes) (draft tx : TransferTx)
      → sign_transfer c priv draft ≡ ok tx
      → (id : ℕ) × (preimage : Bytes) × (sig : Bytes) × (transfer_tx_id c draft ≡ ok id)
        × (transfer_preimage (record draft { id = id }) ≡ ok preimage)
        × (sign c priv preimage ≡ ok sig)
        × (tx ≡ record draft { id = id; signature = sig })
  unfolding sign_transfer
  sign_transfer-parts priv draft tx e =
      let (id, et, e1) = >>=-eq-ok (transfer_tx_id c draft) _ e in
      let (preimage, ep, e2) = >>=-eq-ok (transfer_preimage (record draft { id = id })) _ e1 in
      let (sig, es, e3) = >>=-eq-ok (sign c priv preimage) _ e2 in
      (
        id,
        preimage,
        sig,
        et,
        ep,
        es,
        sym (ok-inj (record draft { id = id; signature = sig }) tx e3),
      )

  transfer-finished :
      (tx : TransferTx) (values canonical : List Value) (key preimage : Bytes) (depth : ℕ)
      → (length tx.inputs == 0) ≡ false
      → (length tx.outputs == 0) ≡ false
      → (length tx.inputs == length values) ≡ true
      → canonical_inputs_for_transfer c tx.inputs values ≡ ok canonical
      → check_owners tx.author canonical ≡ ok tt
      → next_transfer_depth canonical ≡ ok depth
      → validate_transfer_outputs c depth tx.outputs ≡ ok tt
      → check_conservation canonical tx.outputs ≡ ok tt
      → check_expiry_propagation canonical tx.outputs ≡ ok tt
      → transfer_tx_id c tx ≡ ok tx.id
      → transfer_preimage tx ≡ ok preimage
      → verify c key preimage tx.signature ≡ true
      → public_key tx.author ≡ key
      → validate_transfer_tx c tx values ≡ ok tt
  unfolding validate_transfer_tx
  transfer-finished tx values canonical key preimage depth ins outs count canon owners deep valid
        conserved expiry id signed accepted same_key =
      rw (
        ins,
        outs,
        count,
        canon,
        owners,
        deep,
        valid,
        conserved,
        expiry,
        id,
        ==_refl tx.id,
        signed,
        same_key,
        accepted,
      )

  -- If the primitives do what they document (`IsSound`), `ValidateTransferTx` accepts whatever
  -- `NewTransferTx` creates and signs with a key that is made from a seed, given the same inputs.
  pub validate-new_transfer_tx :
      IsSound c
      → (priv : Bytes) (inputs outputs : List Value) (tx : TransferTx) → IsKey c priv
      → new_transfer_tx c priv inputs outputs ≡ ok tx
      → validate_transfer_tx c tx inputs ≡ ok tt
  validate-new_transfer_tx s priv inputs outputs tx k e =
      let t = new_transfer_tx-Transferred priv inputs outputs tx e in
      let least = least_expiries [] t.canonical in
      let normal = normalize_transfer_output_expiries t.canonical outputs in
      let draft = draft_of t.canonical t.completed t.author in
      let ids = ids_of-canonical c (ids_of inputs) inputs t.canonical t.canonical_inputs in
      let size : length (ids_of t.canonical) ≡ length inputs =
        ap length ids ∙ length-ids_of inputs in
      let (done, inside, count) =
        complete_outputs-IsCompleted c least t.depth normal t.completed
          (normal-within t.canonical outputs) t.completes in
      let out_size : length t.completed ≡ length outputs =
        count ∙ length-normal t.canonical outputs in
      let (id, preimage, sig, et, ep, es, same_tx) = sign_transfer-parts priv draft tx t.signed in
      let (key, part) = public_key-node_id c s priv t.author_key t.author t.key t.author_id in
      rw same_tx (
        transfer-finished (record draft { id = id; signature = sig }) inputs t.canonical
          t.author_key preimage t.depth (rw size t.has_inputs) (rw out_size t.has_outputs)
          (rw size (==_refl (length inputs))) (rw ids t.canonical_inputs) t.owners t.next_depth
          (validate_outputs_ok c t.depth t.completed done
            (conserved_valid t.canonical t.completed t.conserved))
          t.conserved
          (within_allowed t.canonical t.completed
            (check_conservation_issuers t.canonical t.completed t.conserved) inside)
          (transfer_tx_id-body draft id sig ∙ et)
          (transfer_preimage-body draft id sig ∙ sym (transfer_preimage-body draft id []) ∙ ep)
          (rw part (verify-sign c s priv preimage sig k es)) key)
