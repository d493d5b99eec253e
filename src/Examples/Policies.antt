-- ===== src/Examples/Policies.antt =====
-- The theorems on policies at a transfer and an issue that are accepted.
use web4_v.Base.{ℕ, ◌≡◌, refl, false, [], ◌∷◌, ok, nat_eq, ltb}
use web4_v.Base.Int.{pos}
use web4_v.Model.Transfer.{validate_transfer_tx, validate_transfer_outputs}
use web4_v.Crypto.{verify}
use web4_v.Policy.{Policy, accept, evaluate_transfer, check_inputs, check_outputs}
use web4_v.Policy.Loops.{AllFresh, AllTrusted}
use web4_v.Policy.Accepts.{evaluate_transfer-accepts}
use web4_v.Examples.Keys.{toy}
use web4_v.Examples.Decimals.{decimals, decimals-IsOrder}
use web4_v.Examples.Transfers.{coins, transfer, transferred}

-- The issuer of the coins is number 8.
abbrev trusting : Policy ℕ
trusting = record {
  trusted_issuers = (8, 900000) ∷ (9, 700000) ∷ [];
  min_score = 500000;
  max_depth = 9;
}

transfer_accepted :
    (evaluate_transfer decimals toy trusting (pos 100) transfer coins).decision ≡ accept
unfolding transferred evaluate_transfer check_inputs check_outputs validate_transfer_tx verify
    validate_transfer_outputs
transfer_accepted = refl

evaluate_transfer-accepts_example :
    let score = (evaluate_transfer decimals toy trusting (pos 100) transfer coins).score in
    (validate_transfer_tx toy transfer coins ≡ ok tt)
    × AllFresh decimals trusting (pos 100) coins
    × AllTrusted decimals trusting (pos 100) score coins
    × AllFresh decimals trusting (pos 100) transfer.outputs
    × (ltb score trusting.min_score ≡ false)
evaluate_transfer-accepts_example =
    evaluate_transfer-accepts decimals trusting (pos 100) toy transfer coins decimals-IsOrder
      transfer_accepted
