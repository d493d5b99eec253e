-- ===== src/Examples/Executions.antt =====
-- The theorems on the execution of trades (core/node) at two nodes that share a store.
use web4_v.Base.{
  ℕ, ◌≡◌, refl, ◌⊎◌, Bool, true, false, List, [], ◌∷◌, ◌||◌, some, Result, ok, err, ◌==◌, nat_eq,
  arith, ◌≢◌, trade_replay, panicked,
}
use web4_v.Base.Int.{pos, ◌+ℤ◌, ◌≤ℤ◌, ltb_ℤ}
use web4_v.Model.Types.{Bytes, NodeId, TradeTx}
use web4_v.Model.Inventory.{get_amount, sub_amount}
use web4_v.Price.{AssetFeatures, PriceResult}
use web4_v.Node.{Quote, SignedTradeIntent}
use web4_v.Node.Intents.{intent_from_quote, sign_trade_intent}
use web4_v.Node.State.{Node, balance, new_blank_node, default_price_config, new_node}
use web4_v.Node.Trade.{StoreOps, World}
use web4_v.Node.Trade.Replay.{Order, execute, run, execute-no_replay}
use web4_v.Node.Trade.Moves.{Swaps}
use web4_v.Node.Trade.Effects.{execute_signed_trade-Swaps, execute_signed_trade-supply}
use web4_v.Node.Trade.Clean.{AreMaps, BothSame}
use web4_v.Node.Trade.Atomic.{execute_signed_trade-Unchanged}
use web4_v.Node.Trade.SoldOut.{sold_out-panics}
use web4_v.Model.Inventory.Holdings.{IsValid}
use web4_v.Crypto.{IsKey, sign, verify}
use web4_v.Model.Ids.{public_key_from_private, node_id_from_public_key}
use web4_v.Model.Ids.Arrays.{of_bytes}
use web4_v.Model.Amount.Scaled.{to_float}
use web4_v.Model.Flow.{add_trade_checked, add_payment_checked}
use web4_v.Price.{
  compute_price, feature_score_of, normalize, clamp01, non_negative, seed_price_of, blend_price,
  apply_decay, weighted_vwap, weigh, volume_lambda,
}
use web4_v.Node.Intents.{
  signs_quote, verify_trade_intent, trade_intent_preimage, public_key_matches_node,
  authorized_trade_id, trade_intent_id,
}
use web4_v.Node.State.{
  init, accept_quote, quoted_prices, effective_price, compute_price_locked, record_trade_flow,
  record_payment_flow, record_observation,
}
use web4_v.Node.Trade.{
  durable_replay_guard, settlement_tx, traded_value, reject_in_memory_replay, combined_inventory,
  gather, commit_prepared_state,
}
use web4_v.Node.Trade.Prepare.{
  authorize, validate_signed_intent_freshness, prepare, reject_replay_check, prepared_trade_state,
  record_successful_trade,
}
use web4_v.Node.Trade.Execute.{
  execute_signed_trade, init_nodes, ask_seller, ask_buyer, finish_signed_trade, reserve_trade,
  persist_trade, persist_signed_trade, persist_in, commit_trade,
}
use web4_v.Node.Signing.{sign_quote, signable}
use web4_v.Node.Signing.Authorized.{sign_quote_authorizes}
use web4_v.Examples.Keys.{toy, toy-IsSound, toy-IsKey}
use web4_v.Examples.Decimals.{decimals}
use web4_v.Examples.Trades.{evaluated, swap}
use web4_v.Examples.Transfers.{replicate}

-- A store that remembers the ids of the trades that it has seen.
abbrev mentions : List ℕ → ℕ → Bool
mentions [] id = false
mentions (j ∷ js) id = j == id || mentions js id

abbrev pub ledger : StoreOps ℕ (List ℕ)
ledger = record {
  has_executed_trade = mentions;
  persist_executed_trade = λ seen id auth states. (ok tt, id ∷ seen);
}

-- The unit of price for both units.
abbrev even_price : PriceResult ℕ
even_price = record {
  feature_score = 1000000;
  seed_price = 1000000;
  market_price = 1000000;
  has_market_price = false;
  lambda = 0;
  final_price = 1000000;
}

abbrev plain : AssetFeatures ℕ
plain = record { cost = 1000000; age = 1000000; stability = 1000000 }

abbrev pub seller_key : Bytes
seller_key = replicate 64 3

abbrev pub buyer_key : Bytes
buyer_key = replicate 64 4

abbrev trader : Bytes → ℕ → ℕ → Node ℕ
trader key unit amount =
    elim (new_node decimals toy key (default_price_config decimals) (pos 1000)) [
      | err _ ↦ new_blank_node decimals 0 (pos 0)
      | ok n ↦ record n {
        inventory = record { holdings = (n.id, (unit, pos amount) ∷ []) ∷ [] };
        price_state = (10, even_price) ∷ (20, even_price) ∷ [];
        features = (10, plain) ∷ (20, plain) ∷ [];
        store = some 0;
      }
    ]

abbrev pub seller : Node ℕ
seller = trader seller_key 10 50

abbrev pub buyer : Node ℕ
buyer = trader buyer_key 20 30

abbrev before : World ℕ (List ℕ)
before = record { seller = seller; buyer = buyer; stores = λ i. [] }

abbrev pub quote : Quote ℕ
quote = record {
  seller = seller.id;
  buyer = buyer.id;
  sell_unit = 10;
  buy_unit = 20;
  sell_amount = pos 5;
  buy_amount = pos 5;
  seller_ask = 5;
  buyer_bid = 5;
  executable = true;
  reason = [];
  timestamp = pos 1000;
}

abbrev unsigned : SignedTradeIntent
unsigned = record { intent = intent_from_quote quote 0 (pos 0); public_key = []; signature = [] }

abbrev signed_by : Bytes → NodeId → SignedTradeIntent
signed_by key party = elim (sign_trade_intent toy key (intent_from_quote quote party (pos 1000))) [
  | ok s ↦ s
  | err _ ↦ unsigned
]

abbrev pub order : Order ℕ
order = record {
  quote = quote;
  seller_sig = signed_by seller_key seller.id;
  buyer_sig = signed_by buyer_key buyer.id;
  allow_peer_shadow = false;
}

abbrev after : Result TradeTx × World ℕ (List ℕ)
after = execute toy decimals ledger order before

abbrev settled : TradeTx
settled = elim after.0 [ ok tx ↦ tx | err _ ↦ swap ]

-- What an execution unfolds, beside what a trade does.
unfoldable pub executed : ℕ
unfolding evaluated execute_signed_trade init_nodes authorize init new_node public_key_from_private
    node_id_from_public_key of_bytes verify_trade_intent sign_trade_intent trade_intent_preimage
    sign verify validate_signed_intent_freshness durable_replay_guard ask_seller ask_buyer
    accept_quote quoted_prices effective_price compute_price_locked to_float public_key_matches_node
    prepare settlement_tx traded_value authorized_trade_id reject_in_memory_replay
    reject_replay_check combined_inventory gather prepared_trade_state record_successful_trade
    record_trade_flow record_payment_flow record_observation add_trade_checked add_payment_checked
    compute_price feature_score_of normalize clamp01 non_negative seed_price_of blend_price
    apply_decay weighted_vwap weigh volume_lambda finish_signed_trade reserve_trade persist_trade
    persist_signed_trade persist_in commit_trade commit_prepared_state trade_intent_id
executed = 0

sold : after.0 ≡ ok settled
unfolding executed
sold = refl

sold_to : after ≡ (ok settled, after.1)
unfolding executed
sold_to = refl

unmarked : AreMaps before
unfolding executed
unmarked = (tt, tt)

execute-no_replay_example :
    (execute toy decimals ledger order (run toy decimals ledger (order ∷ order ∷ []) after.1)).0
    ≢ ok settled
execute-no_replay_example =
    execute-no_replay toy decimals ledger order false (order ∷ order ∷ []) before settled settled
      unmarked sold

pub stocked : IsValid seller.inventory × IsValid buyer.inventory
unfolding executed
stocked = (
  record { nodes = ground arith; amounts = ground arith },
  record { nodes = ground arith; amounts = ground arith },
)

execute_signed_trade-Swaps_example :
    Swaps seller.id 10 (pos 5) 20 (pos 5) seller.inventory after.1.seller.inventory
    × Swaps buyer.id 20 (pos 5) 10 (pos 5) buyer.inventory after.1.buyer.inventory
execute_signed_trade-Swaps_example =
    execute_signed_trade-Swaps toy decimals ledger quote order.seller_sig order.buyer_sig false
      before settled after.1 (ground arith) (ground arith) stocked.0 stocked.1 sold_to

execute_signed_trade-supply_example :
    get_amount after.1.seller.inventory seller.id 10
      +ℤ get_amount after.1.buyer.inventory buyer.id 10
    ≡ get_amount seller.inventory seller.id 10 +ℤ get_amount buyer.inventory buyer.id 10
execute_signed_trade-supply_example =
    execute_signed_trade-supply toy decimals ledger quote order.seller_sig order.buyer_sig false
      before settled after.1 10 (ground arith) (ground arith) stocked.0 stocked.1 sold_to

replayed : (execute toy decimals ledger order after.1).0 ≡ err trade_replay
unfolding executed
replayed = refl

marked_once : AreMaps after.1
unfolding executed
marked_once = ((refl, tt), (refl, tt))

execute_signed_trade-Unchanged_example :
    BothSame after.1 (execute toy decimals ledger order after.1).1
execute_signed_trade-Unchanged_example =
    execute_signed_trade-Unchanged toy decimals ledger quote order.seller_sig order.buyer_sig false
      after.1 trade_replay marked_once replayed

holds_fifty : pos 1 ≤ℤ balance seller 10
unfolding executed
holds_fifty = ground arith

sold_out-panics_example :
    ((sub_amount seller.inventory seller.id 10 (balance seller 10)).0 ≡ ok tt)
    × (combined_inventory
          (record seller {
            inventory = (sub_amount seller.inventory seller.id 10 (balance seller 10)).1;
          })
          buyer
        ≡ err panicked)
    × (combined_inventory buyer (record seller {
      inventory = (sub_amount seller.inventory seller.id 10 (balance seller 10)).1;
    })
        ≡ err panicked)
sold_out-panics_example = sold_out-panics seller buyer 10 stocked.0 holds_fifty

signed : sign_trade_intent toy seller_key order.seller_sig.intent ≡ ok order.seller_sig
unfolding executed
signed = refl

abbrev noted : Result SignedTradeIntent × Node ℕ
noted = sign_quote decimals toy seller quote

abbrev note : SignedTradeIntent
note = elim noted.0 [ ok s ↦ s | err _ ↦ unsigned ]

noted_by_seller : noted.0 ≡ ok note
unfolding executed sign_quote signable
noted_by_seller = refl

seller-IsKey : IsKey toy seller.private_key
unfolding executed
seller-IsKey = toy-IsKey (replicate 32 3) refl

sign_quote_authorizes_example :
    (verify_trade_intent toy note ≡ true)
    × (signs_quote note.intent quote seller.id ≡ true)
    × (ltb_ℤ (pos 0) note.intent.timestamp ≡ true)
    × (quote.executable ≡ true)
    × ((seller.id ≡ quote.seller) ⊎ (seller.id ≡ quote.buyer))
sign_quote_authorizes_example =
    sign_quote_authorizes decimals toy toy-IsSound seller quote note seller-IsKey noted_by_seller
