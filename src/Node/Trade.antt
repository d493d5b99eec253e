-- ===== src/Node/Trade.antt =====
-- The execution of a trade between two nodes (core/node/trade.go), with the guard against replays. The
-- seller and the buyer are two nodes: one node in both places fails, since the parties of a trade must
-- differ. The copies of the maps in `cloneRuntimeState` read as the maps. A panic is the error
-- `panicked`.
pub mod Step
pub mod Prepare
pub mod Execute
pub mod Clean
pub mod Atomic
pub mod Success
pub mod Replay
pub mod Moves
pub mod Effects
pub mod SoldOut
use web4_v.Base.{
  ℕ, Bool, true, false, not, ◌&&◌, ◌||◌, List, [], ◌∷◌, ◌++◌, Option, none, some, Result, ok, err,
  ◌>>=◌, ◌>>◌, fail_if, if◌then◌else◌, ◌==◌, nat_eq, length, same_bytes, intent_timestamp_required,
  quote_not_executable, quote_parties_mismatch, invalid_seller_authorization,
  invalid_buyer_authorization, authorization_party_mismatch, authorization_key_mismatch,
  node_key_mismatch, intent_quote_mismatch, authorization_terms_mismatch,
  authorization_timestamp_mismatch, authorization_in_future, authorization_expired, one_sided_store,
  store_required, seller_rejected, buyer_rejected, split_stores, trade_replay, panicked,
}
use web4_v.Base.Int.{ℤ, pos, ◌+ℤ◌, ◌-ℤ◌, ltb_ℤ, eqb_ℤ, wrap64}
use web4_v.Base.Dict.{Dict, get, insert, erase}
use web4_v.Floats.{Floats}
use web4_v.Crypto.{Primitives}
use web4_v.Price.{PriceResult}
use web4_v.Model.Types.{Bytes, UnitId, TxId, NodeId, Value, TradeTx}
use web4_v.Model.Ids.{value_id_for, trade_tx_id}
use web4_v.Model.Amount.Scaled.{to_float}
use web4_v.Model.Inventory.{
  InventoryState, Units, units_of, new_inventory_state, sub_amount, add_checked, copy,
}
use web4_v.Model.Flow.{FlowRecord}
use web4_v.Model.Trade.{advance, validate_trade_tx}
use web4_v.Node.{Quote, TradeIntent, SignedTradeIntent, AuthorizedTradeTx}
use web4_v.Node.Intents.{
  signs_quote, economic_terms_match, public_key_matches_node, verify_trade_intent,
  authorized_trade_id,
}
use web4_v.Node.State.{
  Node, init, accept_quote, record_trade_flow, record_payment_flow, record_observation,
}

-- `MaxSignedIntentAge`, a day
abbrev pub max_signed_intent_age : ℤ
max_signed_intent_age = pos 86400

abbrev pub max_i64_of : ℤ → ℤ → ℤ
max_i64_of a b = if ltb_ℤ b a then a else b

pub record PersistedNodeState (F : Type 0) : Type 0 where
  pub id : NodeId
  pub inventory : InventoryState
  pub flow : Dict UnitId FlowRecord
  pub price_state : Dict UnitId (PriceResult F)

-- What an execution calls of a `Store` (store.go), with the state of the store.
pub record StoreOps (F S : Type 0) : Type 0 where
  pub has_executed_trade : S → TxId → Bool
  pub persist_executed_trade :
      S → TxId → AuthorizedTradeTx → List (PersistedNodeState F) → Result (Unit {0}) × S

-- The two nodes of a trade, and every store by its number.
pub record World (F S : Type 0) : Type 0 where
  pub seller : Node F
  pub buyer : Node F
  pub stores : ℕ → S

module _ (c : Primitives) where
  -- `tradeValue`
  unfoldable pub traded_value : UnitId → ℤ → NodeId → ℤ → Result Value
  traded_value unit amount owner created_at = do
    let value : Value = record {
      id = 0;
      unit = unit;
      amount = amount;
      owner = owner;
      created_at = created_at;
      issuer = 0;
      expiry_unix = pos 0;
      depth = 0;
    }
    id ← value_id_for c value
    ok (record value { id = id })

  -- `buildTradeTx`
  unfoldable pub settlement_tx : {F : Type 0} → NodeId → NodeId → Quote F → ℤ → Result TradeTx
  settlement_tx seller buyer q now = do
    input_seller ← traded_value q.sell_unit q.sell_amount seller now
    input_buyer ← traded_value q.buy_unit q.buy_amount buyer (wrap64 (now +ℤ pos 1))
    output_seller ← traded_value q.buy_unit q.buy_amount seller (wrap64 (now +ℤ pos 2))
    output_buyer ← traded_value q.sell_unit q.sell_amount buyer (wrap64 (now +ℤ pos 3))
    let tx : TradeTx = record {
      id = 0;
      inputs_a = input_seller ∷ [];
      inputs_b = input_buyer ∷ [];
      outputs_a = output_seller ∷ [];
      outputs_b = output_buyer ∷ [];
      party_a = seller;
      party_b = buyer;
      timestamp = now;
    }
    id ← trade_tx_id c tx
    ok (record tx { id = id })

-- `out.AddChecked(id, unit, amount)`, panicking on its error.
abbrev pub or_panicked : Result InventoryState → Result InventoryState
or_panicked (ok s) = ok s
or_panicked (err _) = err panicked

-- A loop of `combinedInventory`.
unfoldable pub gather : NodeId → Units → InventoryState → Result InventoryState
gather id [] out = ok out
gather id ((unit, amount) ∷ units) out = do
  next ← or_panicked (advance (add_checked out id unit amount))
  gather id units next

unfoldable pub combined_inventory : {F : Type 0} → Node F → Node F → Result InventoryState
combined_inventory a b = do
  first ← gather a.id (units_of a.inventory a.id) new_inventory_state
  gather b.id (units_of b.inventory b.id) first

-- `cloneRuntimeState`
abbrev pub clone_runtime_state : {F : Type 0} → Node F → Node F
clone_runtime_state n = record n { inventory = copy n.inventory }

abbrev pub persisted_node_state : {F : Type 0} → NodeId → Node F → PersistedNodeState F
persisted_node_state id next = record {
  id = id;
  inventory = next.inventory;
  flow = next.flow;
  price_state = next.price_state;
}

unfoldable pub commit_prepared_state : {F : Type 0} → Node F → Node F → Node F
commit_prepared_state dst prepared = record dst {
  inventory = prepared.inventory;
  price_state = prepared.price_state;
  flow = prepared.flow;
  trade_history = prepared.trade_history;
  settled_volume = prepared.settled_volume;
  last_trade_unix = prepared.last_trade_unix;
}

abbrev pub has_executed : {F : Type 0} → Node F → TxId → Bool
has_executed n id = get false id n.executed_trades

unfoldable pub reject_in_memory_replay : {F : Type 0} → Node F → Node F → TxId → Result (Unit {0})
reject_in_memory_replay seller buyer id = do
  fail_if (has_executed seller id) trade_replay
  fail_if (has_executed buyer id) trade_replay

abbrev pub reserve : {F : Type 0} → TxId → Node F → Node F
reserve id n = record n { executed_trades = insert id true n.executed_trades }

-- `rollbackInMemoryReplay`
abbrev pub release : {F : Type 0} → TxId → Node F → Node F
release id n = record n { executed_trades = erase id n.executed_trades }

-- `requireDurableReplayGuard`, on the stores of the nodes and on whether both are marked as unsafe.
unfoldable pub durable_replay_guard : Option ℕ → Option ℕ → Bool → Bool → Result (Unit {0})
durable_replay_guard (some _) (some _) unsafe allow_peer_shadow = ok tt
durable_replay_guard none none unsafe allow_peer_shadow = fail_if (not unsafe) store_required
durable_replay_guard _ _ unsafe allow_peer_shadow = fail_if (not allow_peer_shadow) one_sided_store

abbrev pub are_split : Option ℕ → Option ℕ → Bool
are_split (some a) (some b) = not (a == b)
are_split _ _ = false
