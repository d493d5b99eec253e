-- ===== src/Node/State.antt =====
-- The state of a node (core/node/node.go) with its prices, its books and its acceptance of quotes
-- (price.go, flow.go, quote.go, inventory.go). A nil map reads as an empty one; the locks are left out,
-- since an operation holds them from its beginning to its end; `NowUnix` is one reading of the clock.
pub mod Quiet
use web4_v.Base.{
  ℕ, Bool, true, false, not, ◌&&◌, ◌||◌, List, [], ◌∷◌, ◌++◌, Option, none, some, Result, ok, err,
  ◌>>=◌, ◌>>◌, fail_if, if◌then◌else◌, ◌==◌, nat_eq,
}
use web4_v.Base.Int.{ℤ, pos, ltb_ℤ, eqb_ℤ}
use web4_v.Base.Dict.{Dict, lookup, get, insert}
use web4_v.Floats.{Floats}
use web4_v.Crypto.{Primitives}
use web4_v.Price.{
  AssetFeatures, FeatureWeights, PriceConfig, PriceResult, TradeObservation, compute_price,
}
use web4_v.Model.Types.{Bytes, UnitId, TxId, NodeId}
use web4_v.Model.Ids.{node_id_from_public_key, public_key_from_private}
use web4_v.Model.Amount.{checked_add}
use web4_v.Model.Amount.Scaled.{to_float, amount_scale}
use web4_v.Model.Inventory.{InventoryState, new_inventory_state, get_amount}
use web4_v.Model.Flow.{FlowRecord, add_trade_checked, add_payment_checked}
use web4_v.Node.{Quote}

-- A store is known by a number, as a Go interface value by its pointer.
pub record Node (F : Type 0) : Type 0 where
  pub id : NodeId
  pub public_key : Bytes
  pub private_key : Bytes
  pub inventory : InventoryState
  pub preferences : Dict UnitId F
  pub price_state : Dict UnitId (PriceResult F)
  pub price_config : PriceConfig F
  pub features : Dict UnitId (AssetFeatures F)
  pub trade_history : Dict UnitId (List (TradeObservation F))
  pub settled_volume : Dict UnitId ℤ
  pub last_trade_unix : Dict UnitId ℤ
  pub flow : Dict UnitId FlowRecord
  pub store : Option ℕ
  pub executed_trades : Dict TxId Bool
  pub allow_ephemeral_replay_unsafe : Bool
  pub now_unix : ℤ

abbrev pub no_flow : FlowRecord
no_flow = record {
  unit = 0;
  trade_volume = pos 0;
  payment_volume = pos 0;
  consumption = pos 0;
  demand_fulfilled = pos 0;
}

module _ {F : Type 0} where
  abbrev pub balance : Node F → UnitId → ℤ
  balance n unit = get_amount n.inventory n.id unit

  -- A record whose flow is written when the method on it succeeded.
  abbrev pub book : Node F → UnitId → Result (Unit {0}) × FlowRecord → Result (Node F)
  book n unit (ok _, next) = ok (record n { flow = insert unit next n.flow })
  book n unit (err e, next) = err e

  -- `record := n.Flow[unit]; record.Unit = unit`
  abbrev pub flow_of : Node F → UnitId → FlowRecord
  flow_of n unit = record (get no_flow unit n.flow) { unit = unit }

  unfoldable pub record_trade_flow : Node F → UnitId → ℤ → Result (Node F)
  record_trade_flow n unit amount = book n unit (add_trade_checked (flow_of n unit) amount)

  unfoldable pub record_payment_flow : Node F → UnitId → ℤ → Result (Node F)
  record_payment_flow n unit amount = book n unit (add_payment_checked (flow_of n unit) amount)

module _ {F : Type 0} (fl : Floats F) where
  abbrev nought : F
  nought = fl.of_int (pos 0)

  abbrev unity : F
  unity = fl.of_int (pos 1)

  abbrev quarter : F
  quarter = fl.over unity (fl.of_int (pos 4))

  -- `model.FromFloat(10)` is ten times the scale.
  abbrev pub default_price_config : PriceConfig F
  default_price_config = record {
    base_price = unity;
    weights = record { cost = unity; age = quarter; stability = quarter };
    volume_threshold = pos 10000000;
    decay_k = nought;
  }

  -- `New`, with the reading of the clock.
  abbrev pub new_blank_node : NodeId → ℤ → Node F
  new_blank_node id now = record {
    id = id;
    public_key = [];
    private_key = [];
    inventory = new_inventory_state;
    preferences = [];
    price_state = [];
    price_config = default_price_config;
    features = [];
    trade_history = [];
    settled_volume = [];
    last_trade_unix = [];
    flow = [];
    store = none;
    executed_trades = [];
    allow_ephemeral_replay_unsafe = false;
    now_unix = now;
  }

  -- `cfg == price.PriceConfig{}`
  abbrev pub is_blank_config : PriceConfig F → Bool
  is_blank_config cfg =
      fl.eq cfg.base_price nought
      && fl.eq cfg.weights.cost nought
      && fl.eq cfg.weights.age nought
      && fl.eq cfg.weights.stability nought
      && eqb_ℤ cfg.volume_threshold (pos 0)
      && fl.eq cfg.decay_k nought

  unfoldable pub new_node : Primitives → Bytes → PriceConfig F → ℤ → Result (Node F)
  new_node c priv cfg now = do
    key ← public_key_from_private c priv
    id ← node_id_from_public_key key
    let blank : Node F = record (new_blank_node id now) { public_key = key; private_key = priv }
    ok (if is_blank_config cfg then blank else record blank { price_config = cfg })

  -- `init`
  unfoldable pub init : Node F → Node F
  init n =
      if fl.eq n.price_config.base_price nought
        && eqb_ℤ n.price_config.volume_threshold (pos 0)
        && fl.eq n.price_config.decay_k nought
      then record n { price_config = default_price_config }
      else n

  abbrev no_features : AssetFeatures F
  no_features = record { cost = nought; age = nought; stability = nought }

  abbrev pub computed_price : Node F → UnitId → PriceResult F
  computed_price n unit =
      compute_price fl (get no_features unit n.features) (get [] unit n.trade_history)
        (get (pos 0) unit n.settled_volume) (get (pos 0) unit n.last_trade_unix) n.now_unix
        n.price_config

  -- `computePriceLocked`, with the node after it.
  unfoldable pub compute_price_locked : Node F → UnitId → PriceResult F × Node F
  compute_price_locked n unit =
      let result = computed_price n unit in
      (result, record n { price_state = insert unit result n.price_state })

  -- `finalPrice * utility`
  abbrev weighed : Node F → UnitId → F → F
  weighed n unit price =
      let utility = get unity unit n.preferences in
      if fl.le utility nought then nought else fl.times price utility

  -- `effectivePriceLocked`, with the node after it.
  unfoldable pub effective_price : Node F → UnitId → F × Node F
  effective_price n unit = elim (lookup unit n.price_state) [
    | some result ↦ (weighed n unit result.final_price, n)
    | none ↦
        let (result, next) = compute_price_locked n unit in
        (weighed next unit result.final_price, next)
  ]

  abbrev pub rounding_slack : F
  rounding_slack = fl.over unity (fl.of_int amount_scale)

  -- The end of a party's case in `acceptQuoteLocked`: both prices have to be usable.
  abbrev usable : F → F → Bool → Bool
  usable sell_price buy_price fair = not (fl.le sell_price nought || fl.le buy_price nought) && fair

  abbrev fair_to_seller : Quote F → F → F → Bool
  fair_to_seller q sell_price buy_price =
      fl.le (fl.times (to_float fl q.sell_amount) (fl.over sell_price buy_price))
        (fl.plus (to_float fl q.buy_amount) rounding_slack)

  abbrev fair_to_buyer : Quote F → F → F → Bool
  fair_to_buyer q sell_price buy_price =
      fl.le (to_float fl q.buy_amount) (
        fl.plus (fl.times (to_float fl q.sell_amount) (fl.over sell_price buy_price))
          rounding_slack)

  -- The prices of the two units, and the node after them.
  unfoldable pub quoted_prices : Node F → Quote F → F × F × Node F
  quoted_prices n q =
      let (sell_price, n1) = effective_price n q.sell_unit in
      let (buy_price, n2) = effective_price n1 q.buy_unit in (sell_price, buy_price, n2)

  -- `acceptQuoteLocked`, with the node after it.
  unfoldable pub accept_quote : Node F → Quote F → Bool × Node F
  accept_quote n0 q =
      let n = init n0 in
      let (sell_price, buy_price, priced) = quoted_prices n q in
      if not q.executable
      then (false, n)
      else if n.id == q.seller
      then if ltb_ℤ (balance n q.sell_unit) q.sell_amount
        then (false, n)
        else (usable sell_price buy_price (fair_to_seller q sell_price buy_price), priced)
      else if n.id == q.buyer
      then if ltb_ℤ (balance n q.buy_unit) q.buy_amount
        then (false, n)
        else (usable sell_price buy_price (fair_to_buyer q sell_price buy_price), priced)
      else (false, n)

  abbrev observation_weight : Node F → UnitId → F
  observation_weight n unit = elim (lookup unit n.price_state) [
    | none ↦ unity
    | some result ↦ if fl.lt nought result.feature_score then result.feature_score else unity
  ]

  -- `recordObservation`. Its callers drop the node when it fails.
  unfoldable pub record_observation : Node F → UnitId → F → ℤ → ℤ → Result (Node F)
  record_observation n unit price volume now =
      let seen : TradeObservation F = record {
        price = price;
        volume = volume;
        weight = observation_weight n unit;
        time_unix = now;
      } in
      if fl.lt price nought || not (ltb_ℤ (pos 0) volume)
      then ok n
      else (checked_add (get (pos 0) unit n.settled_volume) volume >>= λ next.
          ok
            (compute_price_locked
              (record n {
                trade_history =
                    insert unit (get [] unit n.trade_history ++ seen ∷ []) n.trade_history;
                settled_volume = insert unit next n.settled_volume;
                last_trade_unix = insert unit now n.last_trade_unix;
              })
              unit).1)
