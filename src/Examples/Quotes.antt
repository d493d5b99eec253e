-- ===== src/Examples/Quotes.antt =====
-- The theorems on quotes and intents at concrete ones.
use web4_v.Base.{
  ℕ, ◌≡◌, ◌≢◌, refl, true, false, [], Result, ok, err, some, none, if◌then◌else◌, arith, nat_eq,
  ltb,
}
use web4_v.Base.Int.{pos, ◌≤ℤ◌}
use web4_v.Model.Types.{Bytes}
use web4_v.Node.{Quote, TradeIntent}
use web4_v.Node.Intents.{trade_intent_preimage}
use web4_v.Node.Intents.Preimage.{IsTypedIntent, trade_intent_preimage-inj}
use web4_v.Node.State.{init, computed_price, balance}
use web4_v.Node.Prices.{knows, refresh_prices, refresh_prices_lem}
use web4_v.Base.Dict.{lookup}
use web4_v.Node.Quoting.{quote_sell, weigh_quote}
use web4_v.Node.Quoting.Promises.{IsBacked, quote_sell-IsBacked}
use web4_v.Handler.Session.{QuoteRequest, QuoteResponse}
use web4_v.Handler.Quotes.{
  answers, validate_quote_matches_request, validate_prices, validate_quote_freshness,
  validate_response_freshness,
}
use web4_v.Canonical.{ascii}
use web4_v.Message.{is_valid_message_type}
use web4_v.Message.Payloads.{
  quote_request, quote_response, validate_payload_semantics, normalize_payload, validate_content,
  validate_request, validate_response,
}
use web4_v.Message.Payloads.Validated.{validated-binds}
use web4_v.Examples.Keys.{toy}
use web4_v.Model.Amount.Scaled.{from_float, from_float_checked}
use web4_v.Examples.Decimals.{decimals}
use web4_v.Examples.Executions.{seller, buyer, executed}

abbrev offered : Result (Quote ℕ)
offered = (quote_sell decimals seller (some buyer) 10 20 (pos 5) 0).0

abbrev offer : Quote ℕ
offer = record {
  seller = seller.id;
  buyer = buyer.id;
  sell_unit = 10;
  buy_unit = 20;
  sell_amount = pos 5;
  buy_amount = pos 5;
  seller_ask = 5;
  buyer_bid = 5;
  executable = true;
  reason = [];
  timestamp = pos 1000;
}

abbrev found_quote : Quote ℕ
found_quote = elim offered [ ok q ↦ q | err _ ↦ offer ]

was_offered : offered ≡ ok found_quote
unfolding executed quote_sell weigh_quote from_float from_float_checked
was_offered = refl

was_executable : found_quote.executable ≡ true
unfolding executed quote_sell weigh_quote from_float from_float_checked
was_executable = refl

quote_sell-IsBacked_example :
    (found_quote.seller ≡ seller.id)
    × (found_quote.buyer ≡ buyer.id)
    × (found_quote.seller ≢ found_quote.buyer)
    × IsBacked decimals found_quote (balance seller 10) (balance buyer 20)
    × (ltb found_quote.buyer_bid found_quote.seller_ask ≡ false)
quote_sell-IsBacked_example =
    quote_sell-IsBacked decimals seller buyer 10 20 (pos 5) 0 found_quote was_offered was_executable

abbrev request : QuoteRequest ℕ
request = record {
  request_id = 30;
  seller = 1;
  buyer = 2;
  sell_unit = 10;
  buy_unit = 20;
  sell_amount = pos 5;
  spread_limit = 100000;
  expiry_unix = pos 900;
}

abbrev response : QuoteResponse ℕ
response = record {
  request_id = 30;
  quote_id = 31;
  seller = 1;
  buyer = 2;
  sell_unit = 10;
  buy_unit = 20;
  sell_amount = pos 5;
  buy_amount = pos 5;
  seller_ask = 100;
  buyer_bid = 105;
  executable = true;
  reason = [];
  expiry_unix = pos 800;
}

response_matches : validate_quote_matches_request decimals response request (pos 700) ≡ ok tt
unfolding validate_quote_matches_request validate_prices validate_quote_freshness
    validate_response_freshness
response_matches = refl

request_valid :
    validate_payload_semantics decimals toy (ascii "QUOTE_REQUEST") (quote_request request) ≡ ok tt
unfolding validate_payload_semantics normalize_payload is_valid_message_type validate_content
    validate_request
request_valid = refl

response_valid :
    validate_payload_semantics decimals toy (ascii "QUOTE_RESPONSE") (quote_response response)
    ≡ ok tt
unfolding validate_payload_semantics normalize_payload is_valid_message_type validate_content
    validate_response
response_valid = refl

validated-binds_example :
    (response.seller ≢ response.buyer)
    × (pos 1 ≤ℤ response.sell_amount)
    × (pos 1 ≤ℤ response.buy_amount)
    × (answers response request ≡ true)
    × (pos 700 ≤ℤ response.expiry_unix)
    × (response.expiry_unix ≤ℤ request.expiry_unix)
    × (ltb response.buyer_bid response.seller_ask ≡ false)
validated-binds_example =
    validated-binds decimals toy (ascii "QUOTE_REQUEST") (ascii "QUOTE_RESPONSE") request response
      (pos 700) refl (ground arith) request_valid response_valid response_matches

abbrev intent : TradeIntent
intent = record {
  party = 1;
  seller = 1;
  buyer = 2;
  sell_unit = 10;
  buy_unit = 20;
  sell_amount = pos 5;
  buy_amount = pos 5;
  timestamp = pos 1000;
}

abbrev signed_bytes : Bytes
signed_bytes = elim (trade_intent_preimage intent) [ ok b ↦ b | err _ ↦ [] ]

encoded : trade_intent_preimage intent ≡ ok signed_bytes
unfolding executed
encoded = refl

trade_intent_preimage-inj_example : intent ≡ intent
trade_intent_preimage-inj_example =
    trade_intent_preimage-inj intent intent signed_bytes typed typed encoded encoded
  where
    typed : IsTypedIntent intent
    typed = ground arith

refresh_prices_lem_example : lookup 10 (refresh_prices decimals seller).price_state ≡ (
    if knows (init decimals seller) 10
    then some (computed_price decimals (init decimals seller) 10)
    else none)
refresh_prices_lem_example = refresh_prices_lem decimals seller 10
