-- ===== src/Model/Issue/Apply.antt =====
-- `ApplyStructuralIssueTx` of core/model/protocol.go.
use web4_v.Base.{
  ℕ, ◌≡◌, refl, ap, ◌∙◌, List, [], ◌∷◌, false, ok, if◌then◌else◌, ◌==◌, ==_iff, arith, >>-eq-ok,
  Bool-cases, inl, inr,
}
use web4_v.Base.Int.{pos, ◌+ℤ◌, zero_+ℤ}
use web4_v.Crypto.{Primitives}
use web4_v.Model.Types.{UnitId, NodeId, Value, IssueTx}
use web4_v.Model.Inventory.{InventoryState, get_amount}
use web4_v.Model.Inventory.Holdings.{IsValid}
use web4_v.Model.Inventory.Copy.{copy_lem}
use web4_v.Model.Inventory.Total.{total}
use web4_v.Model.Sums.{sum_of, InRange}
use web4_v.Model.Trade.{credit}
use web4_v.Model.Trade.Charges.{sum_to, credit_effect}
use web4_v.Model.Trade.Supply.{total-credit}
use web4_v.Model.Issue.{validate_outputs, validate_structural_issue_tx, apply_structural_issue_tx}

module _ (c : Primitives) where
  -- Outputs that pass the loop are all of the transaction's unit.
  foreign_unit :
      (unit w : UnitId) (seen : List ℕ) (vs : List Value)
      → validate_outputs c unit seen vs ≡ ok tt
      → (unit == w) ≡ false
      → sum_of w vs ≡ pos 0
  unfolding validate_outputs
  foreign_unit unit w seen [] e h = refl
  foreign_unit unit w seen (v ∷ vs) e h =
      ground (arith, foreign_unit unit w (v.id ∷ seen) vs, zero_+ℤ (pos 0), ==_iff v.unit unit)

  -- An issuance of int64 amounts that is applied to a well-formed inventory leaves a well-formed
  -- one: each holding grows by the outputs that name its owner and unit, the supply of the issued
  -- unit by the sum of the outputs, and the supply of no other unit changes.
  pub apply_structural_issue_tx_effect :
      (inv : InventoryState) (tx : IssueTx) (next : InventoryState)
      → IsValid inv
      → InRange tx.outputs
      → apply_structural_issue_tx c inv tx ≡ ok next
      → IsValid next
        × ((n : NodeId) (u : UnitId)
            → get_amount next n u ≡ get_amount inv n u +ℤ sum_to n u tx.outputs)
        × ((u : UnitId)
            → total u next ≡ total u inv +ℤ (if tx.unit == u then sum_of u tx.outputs else pos 0))
  unfolding apply_structural_issue_tx validate_structural_issue_tx
  apply_structural_issue_tx_effect inv tx next v r e =
      let (checked, credited) = >>-eq-ok (validate_structural_issue_tx c tx) _ e in
      let done : credit inv tx.outputs ≡ ok next = rw (copy_lem inv v) at credited in
      let (valid, holdings) = credit_effect inv tx.outputs next v r done in
      let outputs : validate_outputs c tx.unit [] tx.outputs ≡ ok tt = ground arith in
      (
        valid,
        holdings,
        λ u.
            total-credit u inv tx.outputs next v r done
            ∙ ap (λ x. total u inv +ℤ x)
                (elim (Bool-cases (tx.unit == u)) [
                  | inl same ↦ rw same
                  | inr other ↦ rw other (foreign_unit tx.unit u [] tx.outputs outputs other)
                ]),
      )
