-- ===== src/Node/Trade/Moves.antt =====
-- What a prepared trade (core/node/trade.go) does to the inventories of the two nodes.
use web4_v.Base.{
  ℕ, ◌≡◌, refl, sym, ◌∙◌, ap, Bool, true, false, ◌&&◌, Result, ok, err, ◌==◌, nat_eq, ==_iff,
  if◌then◌else◌, ◌>>=◌, ok-inj, >>=-eq-ok, ◌||◌, not,
}
use mathlib.Core.Path.{subst}
use web4_v.Base.Int.{ℤ, pos, ◌+ℤ◌, ◌-ℤ◌, IsI64, int_laws, ltb_ℤ}
use web4_v.Base.Dict.{get}
use web4_v.Floats.{Floats}
use web4_v.Model.Types.{UnitId, NodeId, Value}
use web4_v.Model.Amount.{checked_add}
use web4_v.Model.Flow.{FlowRecord, add_trade_checked, add_payment_checked}
use web4_v.Model.Inventory.{InventoryState, get_amount, sub_amount, add_checked, copy}
use web4_v.Model.Inventory.Holdings.{IsValid}
use web4_v.Model.Inventory.Copy.{copy_lem}
use web4_v.Model.Trade.{advance}
use web4_v.Model.Trade.Charges.{add_step, sub_step}
use web4_v.Node.{Quote}
use web4_v.Node.Trade.Prepare.{record_successful_trade, prepared_trade_state}
use web4_v.Node.State.{
  Node, book, flow_of, record_trade_flow, record_payment_flow, record_observation,
  compute_price_locked,
}

-- One node gave `x` of the unit `out` and received `y` of the unit `inn`; nothing else changed.
pub record Swaps (n : NodeId) (out : UnitId) (x : ℤ) (inn : UnitId) (y : ℤ) (s t : InventoryState)
    : Type 0 where
  pub still_valid : IsValid t
  pub swapped :
      (m : NodeId) (u : UnitId)
      → get_amount t m u +ℤ (if n == m && out == u then x else pos 0)
        ≡ get_amount s m u +ℤ (if n == m && inn == u then y else pos 0)

moved :
    (n m out inn u : ℕ) (x y s_nout s_mu p_ninn p_mu t_mu : ℤ)
    → (n ≡ m → out ≡ u → s_nout ≡ s_mu)
    → (n ≡ m → inn ≡ u → p_ninn ≡ p_mu)
    → p_mu ≡ (if n == m && out == u then s_nout -ℤ x else s_mu)
    → t_mu ≡ (if n == m && inn == u then p_ninn +ℤ y else p_mu)
    → t_mu +ℤ (if n == m && out == u then x else pos 0)
      ≡ s_mu +ℤ (if n == m && inn == u then y else pos 0)
moved n m out inn u x y s_nout s_mu p_ninn p_mu t_mu k1 k2 h1 h2 =
    grind (int_laws, ==_iff n m, ==_iff out u, ==_iff inn u, k1, k2)

swap_effect :
    (n : NodeId) (out : UnitId) (x : ℤ) (inn : UnitId) (y : ℤ) (s p t : InventoryState)
    → IsI64 x
    → IsI64 y
    → IsValid s
    → advance (sub_amount s n out x) ≡ ok p
    → advance (add_checked p n inn y) ≡ ok t
    → Swaps n out x inn y s t
swap_effect n out x inn y s p t hx hy valid e1 e2 =
    let (valid1, sets1) = sub_step s n (given out x) p hx valid e1 in
    let (valid2, sets2) = add_step p (given inn y) t hy valid1 e2 in
    record {
      still_valid = valid2;
      swapped = λ m u.
          moved n m out inn u x y (get_amount s n out) (get_amount s m u) (get_amount p n inn)
            (get_amount p m u) (get_amount t m u) (λ a b. rw (a, b) refl) (λ a b. rw (a, b) refl)
            (sets1 m u) (sets2 m u);
    }
  where
    given : UnitId → ℤ → Value
    given unit amount = record {
      id = 0;
      unit = unit;
      amount = amount;
      owner = n;
      created_at = pos 0;
      issuer = 0;
      expiry_unix = pos 0;
      depth = 0;
    }

module _ {F : Type 0} where
  book-inventory :
      (n : Node F) (unit : UnitId) (r : Result (Unit {0}) × FlowRecord) (m : Node F)
      → book n unit r ≡ ok m
      → m.inventory ≡ n.inventory
  book-inventory n unit (ok _, next) m h = sym (ap (λ x. x.inventory) (ok-inj _ _ h))
  book-inventory n unit (err e, next) m h = absurd (cc)

  record_trade_flow-inventory :
      (n : Node F) (unit : UnitId) (a : ℤ) (m : Node F)
      → record_trade_flow n unit a ≡ ok m
      → m.inventory ≡ n.inventory
  unfolding record_trade_flow
  record_trade_flow-inventory n unit a m h =
      book-inventory n unit (add_trade_checked (flow_of n unit) a) m h

  record_payment_flow-inventory :
      (n : Node F) (unit : UnitId) (a : ℤ) (m : Node F)
      → record_payment_flow n unit a ≡ ok m
      → m.inventory ≡ n.inventory
  unfolding record_payment_flow
  record_payment_flow-inventory n unit a m h =
      book-inventory n unit (add_payment_checked (flow_of n unit) a) m h

  observed-inventory :
      (n m : Node F) (skip : Bool) (r : Result ℤ) (next : ℤ → Node F)
      → ((v : ℤ) → (next v).inventory ≡ n.inventory)
      → (if skip then ok n else (r >>= λ v. ok (next v))) ≡ ok m
      → m.inventory ≡ n.inventory
  observed-inventory n m true r next k h = sym (ap (λ x. x.inventory) (ok-inj n m h))
  observed-inventory n m false (err e) next k h = absurd (cc)
  observed-inventory n m false (ok v) next k h =
      sym (ap (λ x. x.inventory) (ok-inj (next v) m h)) ∙ k v

  record_observation-inventory :
      (fl : Floats F) (n : Node F) (unit : UnitId) (price : F) (volume now : ℤ) (m : Node F)
      → record_observation fl n unit price volume now ≡ ok m
      → m.inventory ≡ n.inventory
  unfolding record_observation compute_price_locked
  record_observation-inventory fl n unit price volume now m h =
      observed-inventory n m (fl.lt price (fl.of_int (pos 0)) || not (ltb_ℤ (pos 0) volume))
        (checked_add (get (pos 0) unit n.settled_volume) volume) _ (λ v. refl) h

  -- A computation on the two nodes that ends with the inventories `i` and `j`.
  record Ends (i j : InventoryState) (r : Result (Node F × Node F)) : Type 0 where
    ends : (m : Node F × Node F) → r ≡ ok m → (m.0.inventory ≡ i) × (m.1.inventory ≡ j)

  >>=-Ends :
      {i j : InventoryState} {x : Result (Node F)} {f : Node F → Result (Node F × Node F)}
      {k : InventoryState}
      → ((m : Node F) → x ≡ ok m → m.inventory ≡ k)
      → ((m : Node F) → m.inventory ≡ k → Ends i j (f m))
      → Ends i j (x >>= f)
  >>=-Ends {x = x} {f} h g = record {
    ends = λ m e. let (n, e1, e2) = >>=-eq-ok x f e in (g n (h n e1)).ends m e2;
  }

  ok-Ends : (s b : Node F) → Ends s.inventory b.inventory (ok (s, b))
  ok-Ends s b = record {
    ends = λ m e.
        let same = ok-inj (s, b) m e in
        (sym (ap (λ x. x.0.inventory) same), sym (ap (λ x. x.1.inventory) same));
  }

  module _ (fl : Floats F) where
    -- The flows and prices of a trade leave the inventories as they are.
    record_successful_trade-Ends :
        (seller buyer : Node F) (q : Quote F) (now : ℤ)
        → Ends seller.inventory buyer.inventory (record_successful_trade fl seller buyer q now)
    unfolding record_successful_trade
    record_successful_trade-Ends seller buyer q now =
        >>=-Ends (record_trade_flow-inventory seller q.sell_unit q.sell_amount) (λ s1 k1.
          >>=-Ends (record_trade_flow-inventory buyer q.sell_unit q.sell_amount) (λ b1 l1.
            >>=-Ends (record_trade_flow-inventory s1 q.buy_unit q.buy_amount) (λ s2 k2.
              >>=-Ends (record_trade_flow-inventory b1 q.buy_unit q.buy_amount) (λ b2 l2.
                >>=-Ends (record_payment_flow-inventory s2 q.buy_unit q.buy_amount) (λ s3 k3.
                  >>=-Ends (record_payment_flow-inventory b2 q.buy_unit q.buy_amount) (λ b3 l3.
                    >>=-Ends (record_observation-inventory fl s3 q.sell_unit _ q.sell_amount now)
                      (λ s4 k4.
                        >>=-Ends
                          (record_observation-inventory fl b3 q.sell_unit _ q.sell_amount now)
                          (λ b4 l4.
                            >>=-Ends
                              (record_observation-inventory fl s4 q.buy_unit _ q.buy_amount now)
                              (λ s5 k5.
                                >>=-Ends
                                  (record_observation-inventory fl b4 q.buy_unit _ q.buy_amount now)
                                  (λ b5 l5.
                                    subst (λ i. Ends i buyer.inventory (ok (s5, b5)))
                                      (k5 ∙ k4 ∙ k3 ∙ k2 ∙ k1)
                                      (subst (λ j. Ends s5.inventory j (ok (s5, b5)))
                                        (l5 ∙ l4 ∙ l3 ∙ l2 ∙ l1) (ok-Ends s5 b5))))))))))))

    pub prepared_trade_state-Swaps :
        (seller buyer : Node F) (q : Quote F) (now : ℤ) (r : Node F × Node F)
        → IsI64 q.sell_amount
        → IsI64 q.buy_amount
        → IsValid seller.inventory
        → IsValid buyer.inventory
        → prepared_trade_state fl seller buyer q now ≡ ok r
        → Swaps seller.id q.sell_unit q.sell_amount q.buy_unit q.buy_amount seller.inventory
            r.0.inventory
          × Swaps buyer.id q.buy_unit q.buy_amount q.sell_unit q.sell_amount buyer.inventory
              r.1.inventory
    unfolding prepared_trade_state
    prepared_trade_state-Swaps seller buyer q now r hx hy vs vb h =
        let cs = copy seller.inventory in
        let cb = copy buyer.inventory in
        let (p1, e1, h1) =
          >>=-eq-ok (advance (sub_amount cs seller.id q.sell_unit q.sell_amount)) _ h in
        let (t1, e2, h2) =
          >>=-eq-ok (advance (add_checked p1 seller.id q.buy_unit q.buy_amount)) _ h1 in
        let (p2, e3, h3) =
          >>=-eq-ok (advance (sub_amount cb buyer.id q.buy_unit q.buy_amount)) _ h2 in
        let (t2, e4, h4) =
          >>=-eq-ok (advance (add_checked p2 buyer.id q.sell_unit q.sell_amount)) _ h3 in
        let (same, same') = (record_successful_trade-Ends _ _ q now).ends r h4 in
        (
          subst
              (λ s.
                Swaps seller.id q.sell_unit q.sell_amount q.buy_unit q.buy_amount s r.0.inventory)
              (copy_lem seller.inventory vs)
              (rw same (
                swap_effect seller.id q.sell_unit q.sell_amount q.buy_unit q.buy_amount cs p1 t1 hx
                  hy (subst IsValid (sym (copy_lem seller.inventory vs)) vs) e1 e2)),
          subst
              (λ s.
                Swaps buyer.id q.buy_unit q.buy_amount q.sell_unit q.sell_amount s r.1.inventory)
              (copy_lem buyer.inventory vb)
              (rw same' (
                swap_effect buyer.id q.buy_unit q.buy_amount q.sell_unit q.sell_amount cb p2 t2 hy
                  hx (subst IsValid (sym (copy_lem buyer.inventory vb)) vb) e3 e4)),
        )
