-- ===== src/Policy/Accepts.antt =====
-- When a policy of core/policy accepts.
use web4_v.Base.{◌≡◌, refl, false, List, [], ◌∷◌, Option, none, Result, ok, err, nat_eq}
use web4_v.Base.Int.{ℤ}
use web4_v.Floats.{Floats}
use web4_v.Crypto.{Primitives}
use web4_v.Model.Types.{Value, TransferTx}
use web4_v.Model.Transfer.{validate_transfer_tx}
use web4_v.Policy.{
  accept, input_issuers_trusted, transfer_accepted, Policy, Verdict, passed, refused, score_or_zero,
  check_inputs, check_outputs, judge_transfer, after_inputs, validated, evaluate_transfer,
}
use web4_v.Policy.Loops.{
  IsOrder, AllFresh, AllTrusted, check_inputs-passed, check_outputs-passed, judged,
}

module _ {F : Type 0} (fl : Floats F) (p : Policy F) (now : ℤ) where
  judge_transfer-accepts :
      (score : F) (outputs : List Value) (r : Verdict F (Unit {0}))
      → check_outputs fl p now outputs ≡ r
      → (judge_transfer fl p score r).decision ≡ accept
      → AllFresh fl p now outputs
        × (fl.lt score p.min_score ≡ false)
        × ((judge_transfer fl p score r).score ≡ score)
  judge_transfer-accepts score outputs (refused r) e h = absurd (cc)
  judge_transfer-accepts score outputs (passed _) e h =
      let (enough, same) =
        judged fl p now score (input_issuers_trusted ∷ transfer_accepted ∷ []) h in
      (check_outputs-passed fl p now outputs e, enough, same)

  after_inputs-accepts :
      (inputs outputs : List Value) (r : Verdict F (Option F))
      → IsOrder fl
      → check_inputs fl p now none inputs ≡ r
      → (after_inputs fl p now outputs r).decision ≡ accept
      → let score = (after_inputs fl p now outputs r).score in
        AllFresh fl p now inputs
        × AllTrusted fl p now score inputs
        × AllFresh fl p now outputs
        × (fl.lt score p.min_score ≡ false)
  after_inputs-accepts inputs outputs (refused r) o e h = absurd (cc)
  after_inputs-accepts inputs outputs (passed final) o e h =
      let (fresh, trusted, _) = check_inputs-passed fl p now none inputs final o e in
      let (fresh', enough, same) =
        judge_transfer-accepts (score_or_zero fl final) outputs (check_outputs fl p now outputs)
          refl h in
      rw same (fresh, trusted, fresh', enough)

  validated-accepts :
      (tx : TransferTx) (inputs : List Value) (r : Result (Unit {0}))
      → IsOrder fl
      → (validated fl p now tx inputs r).decision ≡ accept
      → let score = (validated fl p now tx inputs r).score in
        (r ≡ ok tt)
        × AllFresh fl p now inputs
        × AllTrusted fl p now score inputs
        × AllFresh fl p now tx.outputs
        × (fl.lt score p.min_score ≡ false)
  validated-accepts tx inputs (err e) o h = absurd (cc)
  validated-accepts tx inputs (ok _) o h =
      let (a, b, d, e) =
        after_inputs-accepts inputs tx.outputs (check_inputs fl p now none inputs) o refl h in
      (refl, a, b, d, e)

  module _ (c : Primitives) where
    -- A transfer that a policy accepts, where floats are ordered as IEEE 754 says, is valid; none of
    -- its inputs and outputs has expired or is deeper than the policy allows; the issuer of every input
    -- is trusted, and with no less than the score of the result; and the score is not below the
    -- minimum.
    pub evaluate_transfer-accepts :
        (tx : TransferTx) (inputs : List Value)
        → IsOrder fl
        → (evaluate_transfer fl c p now tx inputs).decision ≡ accept
        → let score = (evaluate_transfer fl c p now tx inputs).score in
          (validate_transfer_tx c tx inputs ≡ ok tt)
          × AllFresh fl p now inputs
          × AllTrusted fl p now score inputs
          × AllFresh fl p now tx.outputs
          × (fl.lt score p.min_score ≡ false)
    unfolding evaluate_transfer
    evaluate_transfer-accepts tx inputs o h =
        validated-accepts tx inputs (validate_transfer_tx c tx inputs) o h
