-- ===== src/Node/State/Quiet.antt =====
-- What asking a node for its prices leaves as it was (core/node/price.go and quote.go).
use web4_v.Base.{
  ◌≡◌, refl, ◌∙◌, Bool, true, false, not, if◌then◌else◌, ◌==◌, nat_eq, Option-cases, inl, inr,
}
use web4_v.Base.Int.{ltb_ℤ}
use web4_v.Base.Dict.{Dict, IsMap, get, lookup}
use web4_v.Price.{PriceConfig, PriceResult}
use web4_v.Floats.{Floats}
use web4_v.Model.Types.{UnitId, TxId}
use web4_v.Node.{Quote}
use web4_v.Node.State.{
  Node, balance, default_price_config, init, compute_price_locked, effective_price, quoted_prices,
  accept_quote,
}

-- The node `m` has the books of `n`: only its prices may be others.
pub record SameBooks {F : Type 0} (n m : Node F) : Type 0 where
  pub id_kept : m.id ≡ n.id
  pub inventory_kept : m.inventory ≡ n.inventory
  pub flow_kept : m.flow ≡ n.flow
  pub history_kept : m.trade_history ≡ n.trade_history
  pub volume_kept : m.settled_volume ≡ n.settled_volume
  pub time_kept : m.last_trade_unix ≡ n.last_trade_unix
  pub store_kept : m.store ≡ n.store
  pub executed_kept : (t : TxId) → get false t m.executed_trades ≡ get false t n.executed_trades
  pub distinct_kept : IsMap n.executed_trades → IsMap m.executed_trades

module _ {F : Type 0} where
  pub SameBooks-refl : (n : Node F) → SameBooks n n
  SameBooks-refl n = record {
    id_kept = refl;
    inventory_kept = refl;
    flow_kept = refl;
    history_kept = refl;
    volume_kept = refl;
    time_kept = refl;
    store_kept = refl;
    executed_kept = λ t. refl;
    distinct_kept = λ h. h;
  }

  repriced :
      (n : Node F) (prices : Dict UnitId (PriceResult F)) (cfg : PriceConfig F)
      → SameBooks n (record n { price_state = prices; price_config = cfg })
  repriced n prices cfg = record {
    id_kept = refl;
    inventory_kept = refl;
    flow_kept = refl;
    history_kept = refl;
    volume_kept = refl;
    time_kept = refl;
    store_kept = refl;
    executed_kept = λ t. refl;
    distinct_kept = λ h. h;
  }

  pub SameBooks-trans : (n m k : Node F) → SameBooks n m → SameBooks m k → SameBooks n k
  SameBooks-trans n m k h g = record {
    id_kept = g.id_kept ∙ h.id_kept;
    inventory_kept = g.inventory_kept ∙ h.inventory_kept;
    flow_kept = g.flow_kept ∙ h.flow_kept;
    history_kept = g.history_kept ∙ h.history_kept;
    volume_kept = g.volume_kept ∙ h.volume_kept;
    time_kept = g.time_kept ∙ h.time_kept;
    store_kept = g.store_kept ∙ h.store_kept;
    executed_kept = λ t. g.executed_kept t ∙ h.executed_kept t;
    distinct_kept = λ d. g.distinct_kept (h.distinct_kept d);
  }

  -- A result with a node that has the books of `n`.
  abbrev pub Quiet {ℓ} : {A : Type ℓ} → Node F → A × Node F → Type 0
  Quiet n r = SameBooks n r.1

either_way {ℓ κ} :
    {A : Type ℓ} (P : A → Type κ) (b : Bool) (x y : A) → P x → P y → P (if b then x else y)
either_way P true x y h g = h
either_way P false x y h g = g

module _ {F : Type 0} (fl : Floats F) where
  pub init-SameBooks : (n : Node F) → SameBooks n (init fl n)
  unfolding init
  init-SameBooks n =
      either_way (SameBooks n) _ (record n { price_config = default_price_config fl }) n
        (repriced n n.price_state (default_price_config fl)) (SameBooks-refl n)

  pub effective_price-Quiet : (n : Node F) (unit : UnitId) → Quiet n (effective_price fl n unit)
  unfolding effective_price compute_price_locked
  effective_price-Quiet n unit = elim (Option-cases (lookup unit n.price_state)) [
    | inl missing ↦
        rw (effective_price, missing)
          (repriced n (compute_price_locked fl n unit).1.price_state n.price_config)
    | inr (result, found) ↦ rw (effective_price, found) (SameBooks-refl n)
  ]

  quoted_prices-SameBooks : (n : Node F) (q : Quote F) → SameBooks n (quoted_prices fl n q).2
  unfolding quoted_prices
  quoted_prices-SameBooks n q =
      let n1 = (effective_price fl n q.sell_unit).1 in
      SameBooks-trans n n1 (effective_price fl n1 q.buy_unit).1
        (effective_price-Quiet n q.sell_unit) (effective_price-Quiet n1 q.buy_unit)

  -- Asked whether it accepts a quote, a node changes its prices at most.
  pub accept_quote-Quiet : (n : Node F) (q : Quote F) → Quiet n (accept_quote fl n q)
  unfolding accept_quote
  accept_quote-Quiet n q =
      let start = init-SameBooks n in
      let ready = init fl n in
      let priced =
        SameBooks-trans n ready (quoted_prices fl ready q).2 start
          (quoted_prices-SameBooks ready q) in
      let P : Bool × Node F → Type 0 = Quiet n in
      either_way P (not q.executable) _ _ start (
        either_way P (ready.id == q.seller) _ _
          (either_way P (ltb_ℤ (balance ready q.sell_unit) q.sell_amount) _ _ start priced)
          (either_way P (ready.id == q.buyer) _ _
            (either_way P (ltb_ℤ (balance ready q.buy_unit) q.buy_amount) _ _ start priced) start))
