-- ===== src/Handler/Builds.antt =====
-- The trades that a session builds of its quotes (`buildTradeTx` in core/handler/state.go).
use web4_v.Base.{
  ◌≡◌, refl, sym, ap, ◌∙◌, Bool, true, false, [], ◌∷◌, ◌++◌, ok, if◌then◌else◌, ◌==◌, ==_refl,
  >>=-eq-ok, ok-inj,
}
use mathlib.Core.Path.{subst}
use web4_v.Base.Int.{ℤ, pos, ◌+ℤ◌, int_laws}
use web4_v.Crypto.{Primitives}
use web4_v.Model.Types.{UnitId, NodeId, Value, TradeTx, TxId, is_zero_node_id}
use web4_v.Model.Amount.{valid_amount}
use web4_v.Model.Ids.{value_id_for, trade_tx_id, trade_preimage}
use web4_v.Model.Ids.Preimages.{value_id_for-body}
use web4_v.Model.Sums.{sum_of}
use web4_v.Model.Trade.{validate_value_set}
use web4_v.Node.{Quote}
use web4_v.Handler.{later, unnamed_value, trade_value, build_trade_tx}

-- The amounts of one unit on the two sides of an exchange.
exchanged : (a b : ℤ) → a +ℤ (b +ℤ pos 0) ≡ b +ℤ (a +ℤ pos 0)
exchanged a b = omega int_laws

swapped :
    (u : UnitId) (a b x y : Value)
    → a.unit ≡ y.unit
    → a.amount ≡ y.amount
    → b.unit ≡ x.unit
    → b.amount ≡ x.amount
    → sum_of u (a ∷ b ∷ []) ≡ sum_of u (x ∷ y ∷ [])
swapped u a b x y au aa bu ba =
    rw (au, aa, bu, ba)
      (exchanged (if y.unit == u then y.amount else pos 0)
        (if x.unit == u then x.amount else pos 0))

module _ (c : Primitives) where
  -- A trade that names itself, with valid inputs of its parties and valid outputs, and the same exact
  -- sum of every unit on both sides.
  abbrev pub IsSettling : TradeTx → Type 0
  IsSettling tx =
      (trade_tx_id c tx ≡ ok tx.id)
      × (validate_value_set c tx.inputs_a tx.party_a true ≡ ok tt)
      × (validate_value_set c tx.inputs_b tx.party_b true ≡ ok tt)
      × (validate_value_set c tx.outputs_a tx.party_a false ≡ ok tt)
      × (validate_value_set c tx.outputs_b tx.party_b false ≡ ok tt)
      × ((u : UnitId)
          → sum_of u (tx.inputs_a ++ tx.inputs_b) ≡ sum_of u (tx.outputs_a ++ tx.outputs_b))

  trade_value-named :
      (unit : UnitId) (amount : ℤ) (owner : NodeId) (at : ℤ) (v : Value)
      → trade_value c unit amount owner at ≡ ok v
      → (v ≡ record (unnamed_value unit amount owner at) { id = v.id })
        × (value_id_for c v ≡ ok v.id)
  unfolding trade_value
  trade_value-named unit amount owner at v e =
      let (id, ei, e1) = >>=-eq-ok (value_id_for c (unnamed_value unit amount owner at)) _ e in
      let same : v ≡ record (unnamed_value unit amount owner at) { id = id } =
        sym (ok-inj (record (unnamed_value unit amount owner at) { id = id }) v e1) in
      rw same (refl, value_id_for-body c (unnamed_value unit amount owner at) id ∙ ei)

  sole-valid :
      (v : Value) (owner : NodeId) (owned : Bool)
      → valid_amount v.amount ≡ true
      → (v.owner == owner) ≡ true
      → is_zero_node_id v.owner ≡ false
      → value_id_for c v ≡ ok v.id
      → validate_value_set c (v ∷ []) owner owned ≡ ok tt
  unfolding validate_value_set
  sole-valid v owner true p o z i = rw (p, o, i, ==_refl v.id) refl
  sole-valid v owner false p o z i = rw (p, z, i, ==_refl v.id) refl

  trade_tx_id-body :
      (tx : TradeTx) (id : TxId) → trade_tx_id c (record tx { id = id }) ≡ trade_tx_id c tx
  unfolding trade_tx_id trade_preimage
  trade_tx_id-body tx id = refl

  -- The trade that is built of a quote between two nodes, of two positive amounts, names itself, owns
  -- its inputs, passes `validateValueSet` on every side, and has the same exact sum of every unit on
  -- both sides.
  pub build_trade_tx-IsSettling :
      {Float : Type 0} (q : Quote Float) (tx : TradeTx)
      → is_zero_node_id q.seller ≡ false
      → is_zero_node_id q.buyer ≡ false
      → valid_amount q.sell_amount ≡ true
      → valid_amount q.buy_amount ≡ true
      → build_trade_tx c q ≡ ok tx
      → IsSettling tx
  unfolding build_trade_tx
  build_trade_tx-IsSettling q tx seller buyer sells buys e =
      let (a, ea, e1) =
        >>=-eq-ok (trade_value c q.sell_unit q.sell_amount q.seller q.timestamp) _ e in
      let (b, eb, e2) =
        >>=-eq-ok (trade_value c q.buy_unit q.buy_amount q.buyer (later q.timestamp (pos 1))) _
          e1 in
      let (x, ex, e3) =
        >>=-eq-ok (trade_value c q.buy_unit q.buy_amount q.seller (later q.timestamp (pos 2))) _
          e2 in
      let (y, ey, e4) =
        >>=-eq-ok (trade_value c q.sell_unit q.sell_amount q.buyer (later q.timestamp (pos 3))) _
          e3 in
      let draft : TradeTx = record {
        id = 0;
        inputs_a = a ∷ [];
        inputs_b = b ∷ [];
        outputs_a = x ∷ [];
        outputs_b = y ∷ [];
        party_a = q.seller;
        party_b = q.buyer;
        timestamp = q.timestamp;
      } in
      let (id, ei, e5) = >>=-eq-ok (trade_tx_id c draft) _ e4 in
      let same = ok-inj (record draft { id = id }) tx e5 in
      let (na, ia) = trade_value-named q.sell_unit q.sell_amount q.seller _ a ea in
      let (nb, ib) = trade_value-named q.buy_unit q.buy_amount q.buyer _ b eb in
      let (nx, ix) = trade_value-named q.buy_unit q.buy_amount q.seller _ x ex in
      let (ny, iy) = trade_value-named q.sell_unit q.sell_amount q.buyer _ y ey in
      subst IsSettling same (
        trade_tx_id-body draft id ∙ ei,
        sole-valid a q.seller true (ap (λ v. valid_amount v.amount) na ∙ sells)
            (ap (λ v. v.owner == q.seller) na ∙ ==_refl q.seller)
            (ap (λ v. is_zero_node_id v.owner) na ∙ seller) ia,
        sole-valid b q.buyer true (ap (λ v. valid_amount v.amount) nb ∙ buys)
            (ap (λ v. v.owner == q.buyer) nb ∙ ==_refl q.buyer)
            (ap (λ v. is_zero_node_id v.owner) nb ∙ buyer) ib,
        sole-valid x q.seller false (ap (λ v. valid_amount v.amount) nx ∙ buys)
            (ap (λ v. v.owner == q.seller) nx ∙ ==_refl q.seller)
            (ap (λ v. is_zero_node_id v.owner) nx ∙ seller) ix,
        sole-valid y q.buyer false (ap (λ v. valid_amount v.amount) ny ∙ sells)
            (ap (λ v. v.owner == q.buyer) ny ∙ ==_refl q.buyer)
            (ap (λ v. is_zero_node_id v.owner) ny ∙ buyer) iy,
        λ u.
            swapped u a b x y (ap (λ v. v.unit) na ∙ sym (ap (λ v. v.unit) ny))
              (ap (λ v. v.amount) na ∙ sym (ap (λ v. v.amount) ny))
              (ap (λ v. v.unit) nb ∙ sym (ap (λ v. v.unit) nx))
              (ap (λ v. v.amount) nb ∙ sym (ap (λ v. v.amount) nx)),
      )
