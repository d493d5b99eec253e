-- ===== src/Node/Trade/Prepare.antt =====
-- What an execution of core/node/trade.go checks and computes before it changes a node.
use web4_v.Base.{
  ℕ, Bool, not, ◌&&◌, ◌||◌, Option, none, some, Result, ok, ◌>>=◌, ◌>>◌, fail_if, if◌then◌else◌,
  ◌==◌, length, same_bytes, intent_timestamp_required, quote_not_executable, quote_parties_mismatch,
  invalid_seller_authorization, invalid_buyer_authorization, authorization_party_mismatch,
  authorization_key_mismatch, node_key_mismatch, intent_quote_mismatch,
  authorization_terms_mismatch, authorization_timestamp_mismatch, authorization_in_future,
  authorization_expired, split_stores, trade_replay,
}
use web4_v.Base.Int.{ℤ, pos, ◌-ℤ◌, ltb_ℤ, eqb_ℤ, wrap64}
use web4_v.Floats.{Floats}
use web4_v.Crypto.{Primitives}
use web4_v.Model.Types.{Bytes, TxId, TradeTx}
use web4_v.Model.Amount.Scaled.{to_float}
use web4_v.Model.Inventory.{sub_amount, add_checked}
use web4_v.Model.Trade.{advance, validate_trade_tx}
use web4_v.Node.{Quote, SignedTradeIntent, AuthorizedTradeTx}
use web4_v.Node.Intents.{
  signs_quote, economic_terms_match, public_key_matches_node, verify_trade_intent,
  authorized_trade_id,
}
use web4_v.Node.State.{Node, record_trade_flow, record_payment_flow, record_observation}
use web4_v.Node.Trade.{
  max_signed_intent_age, max_i64_of, StoreOps, settlement_tx, combined_inventory,
  clone_runtime_state, reject_in_memory_replay, durable_replay_guard, are_split,
}

-- `len(n.PublicKey) > 0 && !samePublicKey(n.PublicKey, key)`
abbrev pub key_differs : Bytes → Bytes → Bool
key_differs own key = not (length own == 0) && not (same_bytes own key)

-- `validateSignedIntentFreshness`
unfoldable pub validate_signed_intent_freshness : ℤ → ℤ → ℤ → ℤ → Result (Unit {0})
validate_signed_intent_freshness seller_now buyer_now seller_time buyer_time = do
  fail_if (not (eqb_ℤ seller_time buyer_time)) authorization_timestamp_mismatch
  let now = max_i64_of seller_now buyer_now
  fail_if (ltb_ℤ now seller_time) authorization_in_future
  fail_if (ltb_ℤ max_signed_intent_age (wrap64 (now -ℤ seller_time))) authorization_expired

module _ {F : Type 0} (fl : Floats F) where
  -- `recordSuccessfulTrade`, on the clones of the nodes.
  unfoldable pub record_successful_trade : Node F → Node F → Quote F → ℤ → Result (Node F × Node F)
  record_successful_trade seller buyer q now = do
    s1 ← record_trade_flow seller q.sell_unit q.sell_amount
    b1 ← record_trade_flow buyer q.sell_unit q.sell_amount
    s2 ← record_trade_flow s1 q.buy_unit q.buy_amount
    b2 ← record_trade_flow b1 q.buy_unit q.buy_amount
    s3 ← record_payment_flow s2 q.buy_unit q.buy_amount
    b3 ← record_payment_flow b2 q.buy_unit q.buy_amount
    let sell_unit_price = fl.over (to_float fl q.buy_amount) (to_float fl q.sell_amount)
    let buy_unit_price = fl.over (to_float fl q.sell_amount) (to_float fl q.buy_amount)
    s4 ← record_observation fl s3 q.sell_unit sell_unit_price q.sell_amount now
    b4 ← record_observation fl b3 q.sell_unit sell_unit_price q.sell_amount now
    s5 ← record_observation fl s4 q.buy_unit buy_unit_price q.buy_amount now
    b5 ← record_observation fl b4 q.buy_unit buy_unit_price q.buy_amount now
    ok (s5, b5)

  -- `preparedTradeState`
  unfoldable pub prepared_trade_state : Node F → Node F → Quote F → ℤ → Result (Node F × Node F)
  prepared_trade_state seller buyer q now = do
    let next_seller = clone_runtime_state seller
    let next_buyer = clone_runtime_state buyer
    paid ← advance (sub_amount next_seller.inventory seller.id q.sell_unit q.sell_amount)
    received ← advance (add_checked paid seller.id q.buy_unit q.buy_amount)
    paid' ← advance (sub_amount next_buyer.inventory buyer.id q.buy_unit q.buy_amount)
    received' ← advance (add_checked paid' buyer.id q.sell_unit q.sell_amount)
    record_successful_trade (record next_seller { inventory = received })
        (record next_buyer { inventory = received' }) q now

-- What is known of a trade before it is committed.
pub record Prepared (F : Type 0) : Type 0 where
  pub tx : TradeTx
  pub auth : AuthorizedTradeTx
  pub auth_id : TxId
  pub next_seller : Node F
  pub next_buyer : Node F

-- The checks of `ExecuteTrade` that come before the nodes are asked to accept the quote.
unfoldable pub check_parties : {F : Type 0} → Node F → Node F → Quote F → Result (Unit {0})
check_parties seller buyer q = do
  fail_if (not q.executable) quote_not_executable
  fail_if (not (seller.id == q.seller) || not (buyer.id == q.buyer)) quote_parties_mismatch

module _ (c : Primitives) where
  -- The checks of `executeSignedTrade` that come before the nodes are asked to accept the quote.
  unfoldable pub authorize :
      {F : Type 0}
      → Node F
      → Node F
      → Quote F
      → SignedTradeIntent
      → SignedTradeIntent
      → Bool
      → Result (Unit {0})
  authorize seller buyer q seller_sig buyer_sig allow_peer_shadow = do
    fail_if (not q.executable) quote_not_executable
    fail_if (not (seller.id == q.seller) || not (buyer.id == q.buyer)) quote_parties_mismatch
    fail_if (not (verify_trade_intent c seller_sig)) invalid_seller_authorization
    fail_if (not (verify_trade_intent c buyer_sig)) invalid_buyer_authorization
    fail_if
        (not (ltb_ℤ (pos 0) seller_sig.intent.timestamp)
          || not (ltb_ℤ (pos 0) buyer_sig.intent.timestamp))
        intent_timestamp_required
    fail_if (not (seller_sig.intent.party == seller.id) || not (buyer_sig.intent.party == buyer.id))
        authorization_party_mismatch
    fail_if
        (not (public_key_matches_node seller_sig.public_key seller.id)
          || not (public_key_matches_node buyer_sig.public_key buyer.id))
        authorization_key_mismatch
    fail_if (key_differs seller.public_key seller_sig.public_key) node_key_mismatch
    fail_if (key_differs buyer.public_key buyer_sig.public_key) node_key_mismatch
    fail_if (not (signs_quote seller_sig.intent q seller.id)) intent_quote_mismatch
    fail_if (not (signs_quote buyer_sig.intent q buyer.id)) intent_quote_mismatch
    fail_if (not (economic_terms_match seller_sig.intent buyer_sig.intent))
        authorization_terms_mismatch
    validate_signed_intent_freshness seller.now_unix buyer.now_unix seller_sig.intent.timestamp
        buyer_sig.intent.timestamp
    durable_replay_guard seller.store buyer.store
        (seller.allow_ephemeral_replay_unsafe && buyer.allow_ephemeral_replay_unsafe)
        allow_peer_shadow

  module _ {F S : Type 0} (fl : Floats F) (ops : StoreOps F S) where
    unfoldable pub reject_replay_check : (ℕ → S) → Option ℕ → TxId → Result (Unit {0})
    reject_replay_check stores none id = ok tt
    reject_replay_check stores (some at) id =
        fail_if (ops.has_executed_trade (stores at) id) trade_replay

    -- `buyer.Store`, unless it is that of the seller.
    abbrev pub other_store : Option ℕ → Option ℕ → Option ℕ
    other_store (some a) (some b) = if a == b then none else some b
    other_store _ store = store

    -- From the transaction to the prepared states of the nodes.
    unfoldable pub prepare :
        (ℕ → S)
        → Node F
        → Node F
        → Quote F
        → SignedTradeIntent
        → SignedTradeIntent
        → Result (Prepared F)
    prepare stores seller buyer q seller_sig buyer_sig = do
      let now = seller_sig.intent.timestamp
      tx ← settlement_tx c seller.id buyer.id q now
      let auth : AuthorizedTradeTx = record {
        tx = tx;
        seller_auth = seller_sig;
        buyer_auth = buyer_sig;
      }
      auth_id ← authorized_trade_id c auth
      fail_if (are_split seller.store buyer.store) split_stores
      reject_in_memory_replay seller buyer auth_id
      reject_replay_check stores seller.store auth_id
      reject_replay_check stores (other_store seller.store buyer.store) auth_id
      combined ← combined_inventory seller buyer
      validate_trade_tx c tx combined
      next ← prepared_trade_state fl seller buyer q now
      ok (record {
        tx = tx;
        auth = auth;
        auth_id = auth_id;
        next_seller = next.0;
        next_buyer = next.1;
      })

  -- From the clocks of the nodes to their prepared states.
  unfoldable pub prepare_unsigned :
      {F : Type 0} → Floats F → Node F → Node F → Quote F → Result (TradeTx × Node F × Node F)
  prepare_unsigned fl seller buyer q = do
    let now = max_i64_of seller.now_unix buyer.now_unix
    tx ← settlement_tx c seller.id buyer.id q now
    combined ← combined_inventory seller buyer
    validate_trade_tx c tx combined
    next ← prepared_trade_state fl seller buyer q now
    ok (tx, next.0, next.1)
