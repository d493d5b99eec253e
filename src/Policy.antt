-- ===== src/Policy.antt =====
-- core/policy: whether a node accepts values that were issued or transferred to it (decision.go,
-- policy.go). `TrustedIssuers` has the ids of the issuers for keys: `IssuerKey` writes an id in hex, and a
-- key of another form is never looked up. A reason is the case of its text, with what is printed in
-- it. The clock is an argument. A nil policy is not modelled: its fields are read.
pub mod Loops
pub mod Accepts
use web4_v.Base.{
  ℕ, Bool, true, false, not, ◌&&◌, List, [], ◌∷◌, Option, none, some, Result, ok, err, Error,
  if◌then◌else◌, ltb,
}
use web4_v.Base.{nat_eq}
use web4_v.Base.Int.{ℤ, pos, ltb_ℤ, eqb_ℤ}
use web4_v.Base.Dict.{Dict, lookup}
use web4_v.Floats.{Floats}
use web4_v.Crypto.{Primitives}
use web4_v.Model.Types.{NodeId, Value, IssueTx, TransferTx}
use web4_v.Model.Issue.{validate_issue_tx}
use web4_v.Model.Transfer.{validate_transfer_tx}

pub data Decision : Type 0 where
  accept : Decision
  reject : Decision
  pending : Decision

pub data Reason (F : Type 0) : Type 0 where
  validation_failed : Error → Reason F
  value_expired : Reason F
  depth_exceeds : ℕ → ℕ → Reason F
  issuer_not_trusted : Reason F
  trust_below : F → F → Reason F
  issuer_trusted : Reason F
  issue_accepted : Reason F
  input_expired : Reason F
  input_depth_exceeds : ℕ → ℕ → Reason F
  input_issuer_not_trusted : Reason F
  output_expired : Reason F
  output_depth_exceeds : ℕ → ℕ → Reason F
  input_issuers_trusted : Reason F
  transfer_accepted : Reason F

pub record AcceptanceResult (F : Type 0) : Type 0 where
  pub decision : Decision
  pub score : F
  pub reasons : List (Reason F)

pub record Policy (F : Type 0) : Type 0 where
  pub trusted_issuers : Dict NodeId F
  pub min_score : F
  pub max_depth : ℕ

-- A loop of a policy goes on with a value, or ends the evaluation with a score of zero and a reason.
pub data Verdict (F A : Type 0) : Type 0 where
  passed : A → Verdict F A
  refused : Reason F → Verdict F A

abbrev pub has_expired : ℤ → ℤ → Bool
has_expired now expiry_unix = not (eqb_ℤ expiry_unix (pos 0)) && not (ltb_ℤ now expiry_unix)

abbrev pub refuse : {F : Type 0} → F → Reason F → AcceptanceResult F
refuse score reason = record { decision = reject; score = score; reasons = reason ∷ [] }

module _ {F : Type 0} (fl : Floats F) where
  abbrev pub no_score : F
  no_score = fl.of_int (pos 0)

  abbrev pub issuer_trust : Policy F → NodeId → Option F
  issuer_trust p issuer = lookup issuer p.trusted_issuers

  -- `trust` if no score is set or if it is below the score.
  abbrev pub lower_score : Option F → F → F
  lower_score none trust = trust
  lower_score (some score) trust = if fl.lt trust score then trust else score

  -- The loop over the inputs of `EvaluateTransfer`, with the score if `scoreSet`.
  unfoldable pub check_inputs : Policy F → ℤ → Option F → List Value → Verdict F (Option F)
  check_inputs p now score [] = passed score
  check_inputs p now score (v ∷ vs) =
      if has_expired now v.expiry_unix
      then refused input_expired
      else if ltb p.max_depth v.depth
      then refused (input_depth_exceeds v.depth p.max_depth)
      else elim (issuer_trust p v.issuer) [
        | none ↦ refused input_issuer_not_trusted
        | some trust ↦ check_inputs p now (some (lower_score score trust)) vs
      ]

  -- The loop over the outputs.
  unfoldable pub check_outputs : Policy F → ℤ → List Value → Verdict F (Unit {0})
  check_outputs p now [] = passed tt
  check_outputs p now (v ∷ vs) =
      if has_expired now v.expiry_unix
      then refused output_expired
      else if ltb p.max_depth v.depth
      then refused (output_depth_exceeds v.depth p.max_depth)
      else check_outputs p now vs

  abbrev pub score_or_zero : Option F → F
  score_or_zero none = no_score
  score_or_zero (some score) = score

  -- The end of both evaluations.
  abbrev pub judge : Policy F → F → List (Reason F) → AcceptanceResult F
  judge p score reasons =
      if fl.lt score p.min_score
      then refuse score (trust_below score p.min_score)
      else record { decision = accept; score = score; reasons = reasons }

  abbrev pub judge_transfer : Policy F → F → Verdict F (Unit {0}) → AcceptanceResult F
  judge_transfer p score (refused r) = refuse no_score r
  judge_transfer p score (passed _) = judge p score (input_issuers_trusted ∷ transfer_accepted ∷ [])

  abbrev pub after_inputs : Policy F → ℤ → List Value → Verdict F (Option F) → AcceptanceResult F
  after_inputs p now outputs (refused r) = refuse no_score r
  after_inputs p now outputs (passed score) =
      judge_transfer p (score_or_zero score) (check_outputs p now outputs)

  abbrev pub validated :
      Policy F → ℤ → TransferTx → List Value → Result (Unit {0}) → AcceptanceResult F
  validated p now tx inputs (err e) = refuse no_score (validation_failed e)
  validated p now tx inputs (ok _) = after_inputs p now tx.outputs (check_inputs p now none inputs)

  module _ (c : Primitives) where
    unfoldable pub evaluate_issue : Policy F → ℤ → IssueTx → Value → AcceptanceResult F
    evaluate_issue p now tx output = elim (validate_issue_tx c tx output) [
      | err e ↦ refuse no_score (validation_failed e)
      | ok _ ↦
          if has_expired now output.expiry_unix
          then refuse no_score value_expired
          else if ltb p.max_depth output.depth
          then refuse no_score (depth_exceeds output.depth p.max_depth)
          else elim (issuer_trust p output.issuer) [
            | none ↦ refuse no_score issuer_not_trusted
            | some score ↦ judge p score (issuer_trusted ∷ issue_accepted ∷ [])
          ]
    ]

    unfoldable pub evaluate_transfer : Policy F → ℤ → TransferTx → List Value → AcceptanceResult F
    evaluate_transfer p now tx inputs = validated p now tx inputs (validate_transfer_tx c tx inputs)
