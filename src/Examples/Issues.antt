-- ===== src/Examples/Issues.antt =====
-- The theorems on issuing at concrete values.
use web4_v.Base.{ℕ, ◌≡◌, refl, ok, err, [], ◌∷◌, arith, Result, if◌then◌else◌, ◌==◌}
use web4_v.Base.Int.{pos, ◌+ℤ◌}
use web4_v.Crypto.{sign}
use web4_v.Model.Types.{Value, IssueTx}
use web4_v.Model.Ids.{
  new_unit_id, public_key_from_private, node_id_from_public_key, issue_tx_id, issue_preimage,
  value_preimages, value_preimage,
}
use web4_v.Canonical.{encode_fields}
use web4_v.Model.Ids.Arrays.{of_bytes}
use web4_v.Model.Inventory.{InventoryState, get_amount}
use web4_v.Model.Inventory.Holdings.{IsValid}
use web4_v.Model.Inventory.Total.{total}
use web4_v.Model.Sums.{sum_of}
use web4_v.Model.Trade.Charges.{sum_to}
use web4_v.Model.Issue.{
  sign_issue, new_issue_tx, validate_issue_tx, validate_outputs, validate_structural_issue_tx,
  apply_structural_issue_tx,
}
use web4_v.Model.Issue.Signed.{validate-new_issue_tx}
use web4_v.Model.Issue.Apply.{apply_structural_issue_tx_effect}
use web4_v.Examples.Keys.{toy, toy-IsSound, toy-IsKey}
use web4_v.Examples.Amounts.{stock, stock-IsValid}
use web4_v.Examples.Trades.{evaluated, value}
use web4_v.Examples.Transfers.{private_key, replicate}

abbrev issued : Result (IssueTx × Value)
issued = new_issue_tx toy private_key (replicate 32 5) (104 ∷ 105 ∷ []) (pos 40) (pos 0)

abbrev blank_value : Value
blank_value = record {
  id = 0;
  unit = 0;
  amount = pos 0;
  owner = 0;
  created_at = pos 0;
  issuer = 0;
  expiry_unix = pos 0;
  depth = 0;
}

abbrev blank_issue : IssueTx
blank_issue = record {
  id = 0;
  unit = 10;
  outputs = [];
  issuer = 8;
  timestamp = pos 50;
  unit_name = [];
  amount = pos 0;
  owner = 0;
  expiry_unix = pos 0;
  signature = [];
}

abbrev pub issue : IssueTx × Value
issue = elim issued [ ok pair ↦ pair | err _ ↦ (blank_issue, blank_value) ]

issue_created : issued ≡ ok issue
unfolding evaluated of_bytes new_issue_tx sign_issue public_key_from_private node_id_from_public_key
    new_unit_id sign
issue_created = refl

validate-new_issue_tx_example : validate_issue_tx toy issue.0 issue.1 ≡ ok tt
validate-new_issue_tx_example =
    validate-new_issue_tx toy toy-IsSound private_key (replicate 32 5) (104 ∷ 105 ∷ []) (pos 40)
      (pos 0) issue.0 issue.1 (toy-IsKey (replicate 32 3) refl) issue_created

abbrev minting_draft : IssueTx
minting_draft = record blank_issue { outputs = value 10 5 2 100 ∷ value 10 6 3 100 ∷ [] }

abbrev minting : IssueTx
minting = elim (issue_tx_id toy minting_draft) [
  | ok id ↦ record minting_draft { id = id }
  | err _ ↦ minting_draft
]

abbrev minted : InventoryState
minted = elim (apply_structural_issue_tx toy stock minting) [ ok s ↦ s | err _ ↦ stock ]

minting_applied : apply_structural_issue_tx toy stock minting ≡ ok minted
unfolding evaluated apply_structural_issue_tx validate_structural_issue_tx validate_outputs
minting_applied = refl

apply_structural_issue_tx_effect_example :
    IsValid minted
    × ((n u : ℕ) → get_amount minted n u ≡ get_amount stock n u +ℤ sum_to n u minting.outputs)
    × ((u : ℕ)
        → total u minted ≡ total u stock +ℤ (if 10 == u then sum_of u minting.outputs else pos 0))
unfolding issue_tx_id issue_preimage value_preimages value_preimage encode_fields
apply_structural_issue_tx_effect_example =
    apply_structural_issue_tx_effect toy stock minting minted stock-IsValid (ground arith)
      minting_applied
