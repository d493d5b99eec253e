-- ===== src/Model/Trade/Apply.antt =====
-- `ApplyTradeTx` of core/model/protocol.go, and what it does to each holding and to the supply.
use web4_v.Base.{
  ◌≡◌, ◌≢◌, sym, ◌∙◌, List, [], ◌∷◌, Bool, true, ok, if◌then◌else◌, ◌==◌, arith, >>=-eq-ok,
  >>-eq-ok, All-append,
}
use web4_v.Base.Int.{ℤ, pos, ◌+ℤ◌, ◌≤ℤ◌, int_laws}
use web4_v.Crypto.{Primitives}
use web4_v.Model.Types.{UnitId, NodeId, Value, TradeTx}
use web4_v.Model.Inventory.{InventoryState, get_amount, copy}
use web4_v.Model.Inventory.Holdings.{IsValid}
use web4_v.Model.Inventory.Copy.{copy_lem}
use web4_v.Model.Inventory.Total.{total}
use web4_v.Model.Sums.{sum_of, sum_of-append, ArePositive}
use web4_v.Model.Trade.{
  charge, credit, validate_value_set, check_trade_conservation, check_trade_inventory_coverage,
  validate_trade_tx, apply_trade_tx,
}
use web4_v.Model.Trade.Conservation.{TradeInRange, check_trade_conservation_sound}
use web4_v.Model.Trade.Charges.{sum_to, credit_effect, charge_effect}
use web4_v.Model.Trade.Supply.{total-credit, total-charge}

-- What a node gives and gets of a unit in a trade.
abbrev pub paid : TradeTx → NodeId → UnitId → ℤ
paid tx n u =
    (if tx.party_a == n then sum_of u tx.inputs_a else pos 0)
    +ℤ (if tx.party_b == n then sum_of u tx.inputs_b else pos 0)

abbrev pub received : TradeTx → NodeId → UnitId → ℤ
received tx n u = sum_to n u tx.outputs_a +ℤ sum_to n u tx.outputs_b

-- The algebra of the four loops.
settle :
    (x a b d y p q r s : ℤ)
    → a +ℤ p ≡ x
    → b +ℤ q ≡ a
    → d ≡ b +ℤ r
    → y ≡ d +ℤ s
    → y +ℤ (p +ℤ q) ≡ x +ℤ (r +ℤ s)
settle x a b d y p q r s h k l m = grind int_laws

supply :
    (x a b d y p q r s : ℤ)
    → a +ℤ p ≡ x
    → b +ℤ q ≡ a
    → d ≡ b +ℤ r
    → y ≡ d +ℤ s
    → p +ℤ q ≡ r +ℤ s
    → y ≡ x
supply x a b d y p q r s h k l m same = grind int_laws

module _ (c : Primitives) where
  validate_value_set-positive :
      (vs : List Value) (owner : NodeId) (owned : Bool)
      → validate_value_set c vs owner owned ≡ ok tt
      → ArePositive vs
  unfolding validate_value_set
  validate_value_set-positive [] owner owned e = tt
  validate_value_set-positive (v ∷ vs) owner owned e =
      ground (arith, validate_value_set-positive vs owner owned)

  -- What validation has shown of a trade.
  pub record Validated (tx : TradeTx) (inv : InventoryState) : Type 0 where
    pub parties : tx.party_a ≢ tx.party_b
    pub positive_a : ArePositive tx.inputs_a
    pub positive_b : ArePositive tx.inputs_b
    pub conserved : check_trade_conservation tx ≡ ok tt
    pub covered_a : check_trade_inventory_coverage inv tx.party_a tx.inputs_a ≡ ok tt
    pub covered_b : check_trade_inventory_coverage inv tx.party_b tx.inputs_b ≡ ok tt

  validate-Validated :
      (tx : TradeTx) (inv : InventoryState) → validate_trade_tx c tx inv ≡ ok tt → Validated tx inv
  unfolding validate_trade_tx
  validate-Validated tx inv e = ground (
    arith,
    validate_value_set-positive tx.inputs_a tx.party_a true,
    validate_value_set-positive tx.inputs_b tx.party_b true,
  )

  -- The steps of a trade that went through.
  record Steps (inv : InventoryState) (tx : TradeTx) (next : InventoryState) : Type 0 where
    valid : validate_trade_tx c tx inv ≡ ok tt
    after_a : InventoryState
    after_b : InventoryState
    credited : InventoryState
    charged_a : charge tx.party_a inv tx.inputs_a ≡ ok after_a
    charged_b : charge tx.party_b after_a tx.inputs_b ≡ ok after_b
    credited_a : credit after_b tx.outputs_a ≡ ok credited
    credited_b : credit credited tx.outputs_b ≡ ok next

  apply-Steps :
      (inv : InventoryState) (tx : TradeTx) (next : InventoryState)
      → IsValid inv
      → apply_trade_tx c inv tx ≡ ok next
      → Steps inv tx next
  unfolding apply_trade_tx
  apply-Steps inv tx next v e =
      let (valid, e1) = >>-eq-ok (validate_trade_tx c tx inv) _ e in
      let (a, ea, e2) = >>=-eq-ok (charge tx.party_a (copy inv) tx.inputs_a) _ e1 in
      let (b, eb, e3) = >>=-eq-ok (charge tx.party_b a tx.inputs_b) _ e2 in
      let (d, ed, e4) = >>=-eq-ok (credit b tx.outputs_a) _ e3 in
      record {
        valid = valid;
        after_a = a;
        after_b = b;
        credited = d;
        charged_a = rw (copy_lem inv v) at ea;
        charged_b = eb;
        credited_a = ed;
        credited_b = e4;
      }

  -- A trade with int64 amounts that is applied to a well-formed inventory leaves a well-formed one,
  -- in which each node has of each unit what it had, less the inputs charged to it, plus the
  -- outputs that it owns.
  pub apply_trade_tx_effect :
      (inv : InventoryState) (tx : TradeTx) (next : InventoryState)
      → IsValid inv
      → TradeInRange tx
      → apply_trade_tx c inv tx ≡ ok next
      → IsValid next
        × ((n : NodeId) (u : UnitId)
            → get_amount next n u +ℤ paid tx n u ≡ get_amount inv n u +ℤ received tx n u)
  apply_trade_tx_effect inv tx next v r e =
      let s = apply-Steps inv tx next v e in
      let (va, ha) =
        charge_effect tx.party_a inv tx.inputs_a s.after_a v r.inputs_a_i64 s.charged_a in
      let (vb, hb) =
        charge_effect tx.party_b s.after_a tx.inputs_b s.after_b va r.inputs_b_i64 s.charged_b in
      let (vc, hc) =
        credit_effect s.after_b tx.outputs_a s.credited vb r.outputs_a_i64 s.credited_a in
      let (vd, hd) = credit_effect s.credited tx.outputs_b next vc r.outputs_b_i64 s.credited_b in
      (
        vd,
        λ n u.
            settle (get_amount inv n u) (get_amount s.after_a n u) (get_amount s.after_b n u)
              (get_amount s.credited n u) (get_amount next n u) _ _ (sum_to n u tx.outputs_a)
              (sum_to n u tx.outputs_b) (ha n u) (hb n u) (hc n u) (hd n u),
      )

  -- A trade with int64 amounts that is applied to a well-formed inventory changes the supply of no
  -- unit.
  pub apply_trade_tx_conserves :
      (inv : InventoryState) (tx : TradeTx) (next : InventoryState)
      → IsValid inv
      → TradeInRange tx
      → apply_trade_tx c inv tx ≡ ok next
      → (u : UnitId) → total u next ≡ total u inv
  apply_trade_tx_conserves inv tx next v r e u =
      let s = apply-Steps inv tx next v e in
      let checked = validate-Validated tx inv s.valid in
      let (va, _) =
        charge_effect tx.party_a inv tx.inputs_a s.after_a v r.inputs_a_i64 s.charged_a in
      let (vb, _) =
        charge_effect tx.party_b s.after_a tx.inputs_b s.after_b va r.inputs_b_i64 s.charged_b in
      let (vc, _) =
        credit_effect s.after_b tx.outputs_a s.credited vb r.outputs_a_i64 s.credited_a in
      let positive =
        All-append (λ v. pos 1 ≤ℤ v.amount) tx.inputs_a tx.inputs_b checked.positive_a
          checked.positive_b in
      supply (total u inv) (total u s.after_a) (total u s.after_b) (total u s.credited)
        (total u next) (sum_of u tx.inputs_a) (sum_of u tx.inputs_b) (sum_of u tx.outputs_a)
        (sum_of u tx.outputs_b)
        (total-charge u tx.party_a inv tx.inputs_a s.after_a v r.inputs_a_i64 s.charged_a)
        (total-charge u tx.party_b s.after_a tx.inputs_b s.after_b va r.inputs_b_i64 s.charged_b)
        (total-credit u s.after_b tx.outputs_a s.credited vb r.outputs_a_i64 s.credited_a)
        (total-credit u s.credited tx.outputs_b next vc r.outputs_b_i64 s.credited_b)
        (sym (sum_of-append u tx.inputs_a tx.inputs_b)
          ∙ check_trade_conservation_sound tx r positive checked.conserved u
          ∙ sum_of-append u tx.outputs_a tx.outputs_b)
