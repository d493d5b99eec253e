-- ===== src/Handler/Quotes.antt =====
-- The rest of core/handler/state.go: quotes as they are sent, their checks against a request, and the
-- intents that are kept of a quote. An intent in a list has a signature: a session keeps none without.
pub mod Checked
use web4_v.Base.{
  ℕ, Bool, true, false, not, ◌&&◌, ◌||◌, List, [], ◌∷◌, Option, none, some, Result, ok, err, ◌>>=◌,
  ◌>>◌, fail_if, if◌then◌else◌, ◌==◌, same_bytes, quote_request_expired, quote_removes_expiry,
  quote_extends_expiry, quote_expired, quote_differs_from_request, spread_limit_invalid,
  quote_prices_not_positive, bid_below_ask, spread_limit_exceeded,
}
use web4_v.Base.Int.{ℤ, pos, ltb_ℤ, eqb_ℤ}
use web4_v.Canonical.{int, bytes, str, Field, ascii, encode_fields}
use web4_v.Crypto.{Primitives, hash_bytes}
use web4_v.Floats.{Floats}
use web4_v.Model.Types.{Bytes, TxId, NodeId}
use web4_v.Model.Ids.{text_field}
use web4_v.Model.Ids.Arrays.{array32}
use web4_v.Model.Amount.Scaled.{to_float}
use web4_v.Node.{Quote, TradeIntent, SignedTradeIntent, AuthorizedTradeTx}
use web4_v.Node.Intents.{authorized_trade_id}
use web4_v.Node.State.{rounding_slack}
use web4_v.Handler.{build_trade_tx}
use web4_v.Handler.Session.{QuoteRequest, QuoteResponse, is_expired}

abbrev pub quote_from_response : {F : Type 0} → QuoteResponse F → Quote F
quote_from_response p = record {
  seller = p.seller;
  buyer = p.buyer;
  sell_unit = p.sell_unit;
  buy_unit = p.buy_unit;
  sell_amount = p.sell_amount;
  buy_amount = p.buy_amount;
  seller_ask = p.seller_ask;
  buyer_bid = p.buyer_bid;
  executable = p.executable;
  reason = p.reason;
  timestamp = p.expiry_unix;
}

abbrev pub bool_string : Bool → Bytes
bool_string true = ascii "true"
bool_string false = ascii "false"

abbrev pub same_intent : TradeIntent → TradeIntent → Bool
same_intent a b =
    a.party == b.party
    && a.seller == b.seller
    && a.buyer == b.buyer
    && a.sell_unit == b.sell_unit
    && a.buy_unit == b.buy_unit
    && eqb_ℤ a.sell_amount b.sell_amount
    && eqb_ℤ a.buy_amount b.buy_amount
    && eqb_ℤ a.timestamp b.timestamp

abbrev pub signed_intent_equal : SignedTradeIntent → SignedTradeIntent → Bool
signed_intent_equal a b =
    same_intent a.intent b.intent
    && same_bytes a.public_key b.public_key
    && same_bytes a.signature b.signature

unfoldable pub has_party_intent : List SignedTradeIntent → NodeId → Bool
has_party_intent [] party = false
has_party_intent (i ∷ is) party = i.intent.party == party || has_party_intent is party

unfoldable pub has_signed_intent : List SignedTradeIntent → SignedTradeIntent → Bool
has_signed_intent [] target = false
has_signed_intent (i ∷ is) target = signed_intent_equal i target || has_signed_intent is target

-- The loop of `selectIntents`, with `sellerSig` and `buyerSig` where they are set.
select_from :
    Option SignedTradeIntent
    → Option SignedTradeIntent
    → List SignedTradeIntent
    → NodeId
    → NodeId
    → Option SignedTradeIntent × Option SignedTradeIntent
select_from seller_sig buyer_sig [] seller buyer = (seller_sig, buyer_sig)
select_from seller_sig buyer_sig (i ∷ is) seller buyer =
    let as_seller = select_from (some i) buyer_sig is seller buyer in
    let as_buyer = select_from seller_sig (some i) is seller buyer in
    let as_neither = select_from seller_sig buyer_sig is seller buyer in
    if i.intent.party == seller
    then as_seller
    else if i.intent.party == buyer
    then as_buyer
    else as_neither

-- Both intents, or `none` for `false`.
abbrev pub both_set :
    Option SignedTradeIntent × Option SignedTradeIntent
    → Option (SignedTradeIntent × SignedTradeIntent)
both_set (some a, some b) = some (a, b)
both_set _ = none

unfoldable pub select_intents :
    List SignedTradeIntent → NodeId → NodeId → Option (SignedTradeIntent × SignedTradeIntent)
unfolding select_from
select_intents intents seller buyer = both_set (select_from none none intents seller buyer)

module _ {F : Type 0} where
  unfoldable pub validate_response_freshness : QuoteResponse F → ℤ → Result (Unit {0})
  validate_response_freshness q now = fail_if (is_expired q.expiry_unix now) quote_expired

  -- `validateQuoteFreshness`, of a request or of nil.
  unfoldable pub validate_quote_freshness :
      Option (QuoteRequest F) → QuoteResponse F → ℤ → Result (Unit {0})
  validate_quote_freshness none q now = validate_response_freshness q now
  validate_quote_freshness (some req) q now = do
    fail_if (is_expired req.expiry_unix now) quote_request_expired
    fail_if (ltb_ℤ (pos 0) req.expiry_unix && eqb_ℤ q.expiry_unix (pos 0)) quote_removes_expiry
    fail_if (ltb_ℤ (pos 0) req.expiry_unix && ltb_ℤ req.expiry_unix q.expiry_unix)
        quote_extends_expiry
    validate_response_freshness q now

  abbrev pub answers : QuoteResponse F → QuoteRequest F → Bool
  answers q req =
      q.request_id == req.request_id
      && q.seller == req.seller
      && q.buyer == req.buyer
      && q.sell_unit == req.sell_unit
      && q.buy_unit == req.buy_unit
      && eqb_ℤ q.sell_amount req.sell_amount

module _ {F : Type 0} (fl : Floats F) where
  abbrev nought : F
  nought = fl.of_int (pos 0)

  -- The checks of an executable quote.
  unfoldable pub validate_prices : QuoteResponse F → QuoteRequest F → Result (Unit {0})
  validate_prices q req = do
    fail_if (fl.le q.seller_ask nought || fl.le q.buyer_bid nought) quote_prices_not_positive
    fail_if (fl.lt q.buyer_bid q.seller_ask) bid_below_ask
    let spread = fl.over (fl.minus q.buyer_bid q.seller_ask) q.seller_ask
    fail_if (fl.lt (fl.plus req.spread_limit (rounding_slack fl)) spread) spread_limit_exceeded

  unfoldable pub validate_quote_matches_request :
      QuoteResponse F → QuoteRequest F → ℤ → Result (Unit {0})
  validate_quote_matches_request q req now = do
    fail_if (not (answers q req)) quote_differs_from_request
    validate_quote_freshness (some req) q now
    fail_if (fl.lt req.spread_limit nought) spread_limit_invalid
    if q.executable then validate_prices q req else ok tt

  abbrev pub quote_from_intent : TradeIntent → Quote F
  quote_from_intent intent = record {
    seller = intent.seller;
    buyer = intent.buyer;
    sell_unit = intent.sell_unit;
    buy_unit = intent.buy_unit;
    sell_amount = intent.sell_amount;
    buy_amount = intent.buy_amount;
    seller_ask = to_float fl intent.buy_amount;
    buyer_bid = to_float fl intent.buy_amount;
    executable = true;
    reason = ascii "authorized";
    timestamp = intent.timestamp;
  }

  abbrev pub quote_fields : QuoteResponse F → List Field
  quote_fields p =
      text_field "kind" "quote_response"
      ∷ (ascii "request_id", bytes (array32 p.request_id))
      ∷ (ascii "seller", bytes (array32 p.seller))
      ∷ (ascii "buyer", bytes (array32 p.buyer))
      ∷ (ascii "sell_unit", bytes (array32 p.sell_unit))
      ∷ (ascii "buy_unit", bytes (array32 p.buy_unit))
      ∷ (ascii "sell_amount", int p.sell_amount)
      ∷ (ascii "buy_amount", int p.buy_amount)
      ∷ (ascii "seller_ask", str (fl.format p.seller_ask))
      ∷ (ascii "buyer_bid", str (fl.format p.buyer_bid))
      ∷ (ascii "executable", str (bool_string p.executable))
      ∷ (ascii "reason", str p.reason)
      ∷ (ascii "expiry_unix", int p.expiry_unix)
      ∷ []

  module _ (c : Primitives) where
    unfoldable pub quote_id : QuoteResponse F → Result TxId
    quote_id p = encode_fields (quote_fields p) >>= λ preimage. ok (hash_bytes c preimage)

    unfoldable pub quote_response_from_quote : TxId → Quote F → Result (QuoteResponse F)
    quote_response_from_quote request_id q = do
      let p : QuoteResponse F = record {
        request_id = request_id;
        quote_id = 0;
        seller = q.seller;
        buyer = q.buyer;
        sell_unit = q.sell_unit;
        buy_unit = q.buy_unit;
        sell_amount = q.sell_amount;
        buy_amount = q.buy_amount;
        seller_ask = q.seller_ask;
        buyer_bid = q.buyer_bid;
        executable = q.executable;
        reason = q.reason;
        expiry_unix = q.timestamp;
      }
      id ← quote_id p
      ok (record p { quote_id = id })

    unfoldable pub build_authorized_trade :
        Quote F → SignedTradeIntent → SignedTradeIntent → Result (AuthorizedTradeTx × TxId)
    build_authorized_trade q seller_sig buyer_sig = do
      tx ← build_trade_tx c q
      let auth : AuthorizedTradeTx = record {
        tx = tx;
        seller_auth = seller_sig;
        buyer_auth = buyer_sig;
      }
      id ← authorized_trade_id c auth
      ok (auth, id)

-- `authorizedTradeEqual`, on the ids or errors of the two trades.
abbrev pub same_ids : Result TxId → Result TxId → Bool
same_ids (ok a) (ok b) = a == b
same_ids _ _ = false

unfoldable pub authorized_trade_equal : Primitives → AuthorizedTradeTx → AuthorizedTradeTx → Bool
authorized_trade_equal c a b = same_ids (authorized_trade_id c a) (authorized_trade_id c b)
