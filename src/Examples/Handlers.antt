-- ===== src/Examples/Handlers.antt =====
-- The theorems on the handlers of core/handler at two nodes that have negotiated a trade, and at a ping.
use web4_v.Base.{
  ◌==◌, ◌++◌, ℕ, ◌≡◌, refl, true, ◌&&◌, ◌⊎◌, List, [], ◌∷◌, Result, ok, err, Error, if◌then◌else◌,
  nat_eq, arith, same_bytes, unsupported_type, duplicate_message,
}
use web4_v.Base.Int.{pos}
use web4_v.Base.Dict.{IsMap, AllValues}
use web4_v.Canonical.{ascii}
use web4_v.Model.Types.{Bytes}
use web4_v.Model.Inventory.{add}
use web4_v.Node.{AuthorizedTradeTx}
use web4_v.Node.Prices.{node_compute_price}
use web4_v.Node.Signing.{add_inventory}
use web4_v.Message.{
  MessageType, Envelope, sign_envelope, verify_envelope, is_valid_message_type, new_message_id,
  seal, envelope_preimage,
}
use web4_v.Message.Payloads.{
  Payload, trade_result, ping, pong, validate_payload_semantics, normalize_payload,
  validate_content,
}
use web4_v.Handler.{build_trade_tx, trade_value}
use web4_v.Handler.Session.{QuoteResponse, new_session, mark_seen, clear_negotiation}
use web4_v.Handler.Quotes.{
  quote_from_response, build_authorized_trade, has_signed_intent, validate_quote_freshness,
  validate_response_freshness,
}
use web4_v.Handler.Tasks.{Services, Handler, SignedMessage, Reply, answer, codec_of, signed_message}
use web4_v.Handler.Tasks.Steps.{
  ◌>>=◌, ◌>>◌, lift, current, update_session, on_result, on_option, sign_response, respond,
}
use web4_v.Handler.Shadows.{
  configure_unit, peer_shadow, execution_shadow, try_execute, execute_with_shadow,
}
use web4_v.Handler.Negotiation.{pending_quote_freshness}
use web4_v.Handler.Settlement.{
  require_session_counterparty, bind_authorized_intents, negotiated_quote, settle_negotiation,
  authorized_negotiation, report, handle_authorized_trade,
}
use web4_v.Handler.Settlement.Negotiated.{IsNegotiated}
use web4_v.Handler.Settlement.Settled.{IsSettled, handle_authorized_trade-IsSettled}
use web4_v.Handler.Settlement.Moves.{HasAmounts, Settles, handle_authorized_trade-Settles}
use web4_v.Handler.Messages.{
  mark_message, admit, handle_ping, dispatch, process, handle_message, Delivery, at_arrival,
  deliver, deliver_all,
}
use web4_v.Message.Payloads.{sorted_strings}
use web4_v.Message.Encode.{Json, encode_payload, decode_payload}
use web4_v.Handler.Messages.Once.{LetIn, handle_message-LetIn, deliver-once}
use web4_v.Examples.Keys.{toy}
use web4_v.Examples.Decimals.{decimals}
use web4_v.Examples.Trades.{swap}
use web4_v.Examples.Messages.{blank_envelope}
use web4_v.Examples.Transfers.{replicate}
use web4_v.Examples.Executions.{seller, buyer, buyer_key, ledger, quote, order, stocked, executed}

-- The JSON of the payloads that the examples send.
abbrev accepted : Bytes
accepted = ascii "ACCEPTED"

abbrev done : Bytes
done = ascii "executed"

abbrev plain_encode : MessageType → Payload ℕ → Result Bytes
plain_encode t (ping (pos n)) = ok (n ∷ [])
plain_encode t (pong (pos n) (pos k)) = ok (n ∷ k ∷ [])
plain_encode t (trade_result id status reason) =
    if same_bytes status accepted && same_bytes reason done
    then ok (id ∷ 0 ∷ 0 ∷ [])
    else err unsupported_type
plain_encode t _ = err unsupported_type

abbrev plain_decode : MessageType → Bytes → Result (Payload ℕ)
plain_decode t (n ∷ []) = ok (ping (pos n))
plain_decode t (n ∷ k ∷ []) = ok (pong (pos n) (pos k))
plain_decode t (id ∷ _ ∷ _ ∷ []) = ok (trade_result id accepted done)
plain_decode t _ = err unsupported_type

-- The type, a zero and the payload.
unfoldable split_frame : Bytes → Bytes × Bytes
split_frame [] = ([], [])
split_frame (b ∷ bs) =
    let rest = split_frame bs in if b == 0 then ([], bs) else (b ∷ rest.0, rest.1)

abbrev plain_json : Json ℕ
plain_json = record {
  marshal_payload = plain_encode [];
  marshal_frame = λ t body. ok (t ++ 0 ∷ body);
  read_frame = λ bytes. ok (split_frame bytes);
  read_payload = plain_decode;
}

abbrev services : Services ℕ (List ℕ)
services = record {
  crypto = toy;
  floats = decimals;
  store_ops = ledger;
  json = plain_json;
  error_text = λ why. [];
}

-- The offer that the seller and the buyer have agreed on, with the intents of both.
abbrev offer : QuoteResponse ℕ
offer = record {
  request_id = 30;
  quote_id = 50;
  seller = quote.seller;
  buyer = quote.buyer;
  sell_unit = quote.sell_unit;
  buy_unit = quote.buy_unit;
  sell_amount = quote.sell_amount;
  buy_amount = quote.buy_amount;
  seller_ask = quote.seller_ask;
  buyer_bid = quote.buyer_bid;
  executable = true;
  reason = [];
  expiry_unix = quote.timestamp;
}

abbrev unbuilt : AuthorizedTradeTx
unbuilt = record { tx = swap; seller_auth = order.seller_sig; buyer_auth = order.buyer_sig }

abbrev pub built : AuthorizedTradeTx × ℕ
built =
    elim (build_authorized_trade decimals toy (quote_from_response offer) order.seller_sig
      order.buyer_sig) [ ok b ↦ b | err _ ↦ (unbuilt, 0) ]

-- The seller's handler, before the authorized trade arrives.
abbrev waiting : Handler ℕ (List ℕ)
waiting = record {
  node = seller;
  session = record (new_session seller.id buyer.id) {
    pending_quotes = (50, offer) ∷ [];
    pending_intents = (50, order.seller_sig ∷ order.buyer_sig ∷ []) ∷ [];
  };
  stores = λ i. [];
  random = ok (replicate 24 9);
}

abbrev settled : Result Reply × Handler ℕ (List ℕ)
settled = handle_authorized_trade services built.0 built.1 waiting

abbrev no_message : SignedMessage
no_message = record { envelope = blank_envelope; payload_bytes = [] }

abbrev message_of : Result Reply → SignedMessage
message_of (ok (answer m)) = m
message_of _ = no_message

-- What a run of a handler unfolds.
unfoldable handled : ℕ
unfolding encode_payload decode_payload sorted_strings split_frame executed ◌>>=◌ ◌>>◌ lift current
    update_session on_result on_option sign_response respond signed_message sign_envelope
    verify_envelope is_valid_message_type new_message_id seal envelope_preimage
    build_authorized_trade build_trade_tx trade_value configure_unit peer_shadow execution_shadow
    try_execute execute_with_shadow pending_quote_freshness require_session_counterparty
    bind_authorized_intents negotiated_quote settle_negotiation authorized_negotiation report
    handle_authorized_trade has_signed_intent validate_quote_freshness validate_response_freshness
    mark_message admit handle_ping dispatch process handle_message mark_seen clear_negotiation
    validate_payload_semantics normalize_payload validate_content add node_compute_price
    add_inventory
handled = 0

settled_well : settled ≡ (ok (answer (message_of settled.0)), settled.1)
unfolding handled
settled_well = refl

waiting_for_one : IsMap waiting.session.pending_quotes
waiting_for_one = (refl, tt)

five_of_each : AllValues HasAmounts waiting.session.pending_quotes
five_of_each = ((ground arith, ground arith), tt)

handle_authorized_trade-IsSettled_example :
    IsSettled services waiting built.0 built.1 (message_of settled.0) settled.1
handle_authorized_trade-IsSettled_example =
    handle_authorized_trade-IsSettled services built.0 built.1 waiting (message_of settled.0)
      settled.1 waiting_for_one settled_well

handle_authorized_trade-Settles_example :
    (id : ℕ) × (q : QuoteResponse ℕ) × IsNegotiated services waiting built.0 built.1 id q
    × Settles q seller settled.1.node
handle_authorized_trade-Settles_example =
    handle_authorized_trade-Settles services built.0 built.1 waiting (message_of settled.0)
      settled.1 waiting_for_one five_of_each stocked.0 settled_well

-- A ping of the buyer.
abbrev sent : Result (Envelope × Bytes)
sent =
    sign_envelope toy (codec_of services) buyer_key (ascii "PING") (ping (pos 900)) (pos 1000)
      (replicate 24 5)

abbrev ping_message : SignedMessage
ping_message = elim sent [
  | ok p ↦ record { envelope = p.0; payload_bytes = p.1 }
  | err _ ↦ no_message
]

abbrev arriving : Delivery
arriving = record {
  message = ping_message;
  peer_pub = buyer.public_key;
  now = pos 1001;
  random = ok (replicate 24 6);
}

abbrev pinged : Result Reply × Handler ℕ (List ℕ)
pinged = deliver services arriving waiting

pinged_well : pinged.0 ≡ ok (answer (message_of pinged.0))
unfolding handled
pinged_well = refl

deliver-once_example :
    let after = deliver_all services (arriving ∷ []) pinged.1 in
    (why : Error) × (deliver services arriving after ≡ (err why, at_arrival arriving after))
deliver-once_example =
    deliver-once services arriving waiting (answer (message_of pinged.0)) (arriving ∷ []) arriving
      pinged_well refl

pinged_again : (deliver services arriving pinged.1).0 ≡ err duplicate_message
unfolding handled
pinged_again = refl

handle_message-LetIn_example :
    ((why : Error) × (handle_message services ping_message buyer.public_key waiting
        ≡ (err why, waiting)))
    ⊎ LetIn services ping_message buyer.public_key waiting
        (handle_message services ping_message buyer.public_key waiting).1
handle_message-LetIn_example = handle_message-LetIn services ping_message buyer.public_key waiting
