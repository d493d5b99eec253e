-- ===== src/Handler/Negotiation.antt =====
-- The handlers of core/handler/handler.go that negotiate a trade: `handleQuoteRequest`,
-- `handleQuoteResponse` and `handleSignedIntent`. What the session stores is stored as the source does
-- it, before the step that may still fail.
use web4_v.Base.{
  Bool, not, ◌&&◌, ◌||◌, List, [], ◌∷◌, ◌++◌, some, Result, ok, err, Error, ◌==◌, nat_eq,
  local_node_not_quote_party,
}
use web4_v.Base.Dict.{get, lookup, insert}
use web4_v.Canonical.{ascii}
use web4_v.Model.Types.{TxId, NodeId}
use web4_v.Node.{SignedTradeIntent, AuthorizedTradeTx}
use web4_v.Message.Payloads.{
  validate_payload_semantics, quote_response, signed_intent, authorized_trade,
}
use web4_v.Handler.Session.{
  Session, QuoteRequest, QuoteResponse, is_expired, clear_request, clear_negotiation,
  intent_matches_quote,
}
use web4_v.Handler.Quotes.{
  quote_from_response, validate_quote_freshness, validate_quote_matches_request, quote_id,
  quote_response_from_quote, build_authorized_trade, has_party_intent, select_intents,
}
use web4_v.Handler.Tasks.{Services, Handler, Reply, silence}
use web4_v.Handler.Tasks.Steps.{
  Task, ◌>>=◌, ◌>>◌, lift, current, update_session, on_result, on_option, guard_that, respond,
  reject,
}
use web4_v.Handler.Shadows.{shadow_of, quote_peer, try_sign}

module _ {F : Type 0} where
  -- `sessionOwnsParties`
  abbrev pub owns_parties : Session F → NodeId → NodeId → Bool
  owns_parties s seller buyer =
      (seller == s.local_id && buyer == s.peer_id) || (seller == s.peer_id && buyer == s.local_id)

  abbrev pub store_request : QuoteRequest F → Session F → Session F
  store_request p s = record s { pending_requests = insert p.request_id p s.pending_requests }

  abbrev pub store_quote : QuoteResponse F → Session F → Session F
  store_quote p s = record s { pending_quotes = insert p.quote_id p s.pending_quotes }

  abbrev pub intents_of : Session F → TxId → List SignedTradeIntent
  intents_of s id = get [] id s.pending_intents

  -- `h.Session.PendingIntents[id] = append(h.Session.PendingIntents[id], intent)`
  abbrev pub add_intent : TxId → SignedTradeIntent → Session F → Session F
  add_intent id intent s = record s {
    pending_intents = insert id (intents_of s id ++ intent ∷ []) s.pending_intents;
  }

  abbrev pub store_trade : TxId → AuthorizedTradeTx → Session F → Session F
  store_trade id auth s = record s { pending_trades = insert id auth s.pending_trades }

  -- `validatePendingQuoteFreshness`
  unfoldable pub pending_quote_freshness :
      {S : Type 0} → Handler F S → QuoteResponse F → Result (Unit {0})
  pending_quote_freshness h q =
      validate_quote_freshness (lookup q.request_id h.session.pending_requests) q h.node.now_unix

module _ {F S : Type 0} (x : Services F S) where
  -- Of a request that has been stored.
  unfoldable pub quote_for : QuoteRequest F → Task F S Reply
  quote_for p = do
    peer ← shadow_of x p.buyer p.buy_unit p.sell_unit p.sell_amount
    quote ← quote_peer x peer p
    response ← lift (quote_response_from_quote x.floats x.crypto p.request_id quote)
    lift (
        validate_payload_semantics x.floats x.crypto (ascii "QUOTE_RESPONSE")
          (quote_response response))
    update_session (store_quote response)
    respond x (ascii "QUOTE_RESPONSE") (quote_response response)

  unfoldable pub handle_quote_request : TxId → QuoteRequest F → Task F S Reply
  handle_quote_request ref p = do
    h ← current
    guard_that (not (p.seller == h.node.id) || not (p.buyer == h.session.peer_id))
        (reject x ref (ascii "INVALID_ROLE") (ascii "quote request roles do not match session"))
        (guard_that (is_expired p.expiry_unix h.node.now_unix)
          (update_session (λ s. clear_request s p.request_id)
            >> reject x ref (ascii "QUOTE_EXPIRED") (ascii "quote request is expired"))
          (update_session (store_request p) >> quote_for p))

  -- The refusal of a quote that is not what the request asks for: the request goes with it if either
  -- of them is out of date.
  unfoldable pub refuse_quote : TxId → QuoteResponse F → QuoteRequest F → Error → Task F S Reply
  refuse_quote ref p request why = do
    h ← current
    on_result (validate_quote_freshness (some request) p h.node.now_unix)
        (λ stale. update_session (λ s. clear_request s p.request_id)) (λ _. lift (ok tt))
    reject x ref (ascii "QUOTE_MISMATCH") (x.error_text why)

  -- Of an executable quote that has been stored.
  unfoldable pub authorize_quote : TxId → QuoteResponse F → Task F S Reply
  authorize_quote ref p = do
    signed ← try_sign x (quote_from_response p)
    on_result signed (λ why. reject x ref (ascii "SIGN_INTENT_FAILED") (x.error_text why))
        (λ intent.
          update_session (add_intent p.quote_id intent)
          >> respond x (ascii "SIGNED_INTENT") (signed_intent p.quote_id intent))

  -- Of a quote that answers the request.
  unfoldable pub take_quote : TxId → QuoteResponse F → Task F S Reply
  take_quote ref p = do
    expected ← lift (quote_id x.floats x.crypto p)
    h ← current
    guard_that (not (expected == p.quote_id))
        (reject x ref (ascii "QUOTE_ID_MISMATCH") (ascii "quote id does not match quote response"))
        (update_session (store_quote p)
          >> guard_that (not p.executable) (lift (ok silence)) (
              guard_that (not (h.node.id == p.seller) && not (h.node.id == p.buyer))
                (lift (err local_node_not_quote_party)) (authorize_quote ref p)))

  unfoldable pub handle_quote_response : TxId → QuoteResponse F → Task F S Reply
  handle_quote_response ref p = do
    h ← current
    guard_that (not (owns_parties h.session p.seller p.buyer))
        (reject x ref (ascii "INVALID_ROLE") (ascii "quote response roles do not match session"))
        (on_option (lookup p.request_id h.session.pending_requests)
          (reject x ref (ascii "UNEXPECTED_QUOTE_RESPONSE")
            (ascii "quote response does not match a pending request"))
          (λ request.
            on_result (validate_quote_matches_request x.floats p request h.node.now_unix)
              (refuse_quote ref p request) (λ _. take_quote ref p)))

  -- The end of `handleSignedIntent`, with the intents of the quote.
  unfoldable pub authorize_trade : TxId → QuoteResponse F → Task F S Reply
  authorize_trade id q = do
    h ← current
    on_option (select_intents (intents_of h.session id) q.seller q.buyer) (lift (ok silence))
        (λ signed. do
          auth ←
              lift
                (build_authorized_trade x.floats x.crypto (quote_from_response q) signed.0 signed.1)
          update_session (store_trade auth.1 auth.0)
          respond x (ascii "AUTHORIZED_TRADE") (authorized_trade auth.0 auth.1))

  -- From the stored intent of the peer on: the local node signs too, if it has not.
  unfoldable pub countersign : TxId → TxId → QuoteResponse F → Task F S Reply
  countersign ref id q = do
    h ← current
    guard_that
        (not (has_party_intent (intents_of h.session id) h.node.id)
          && (h.node.id == q.seller || h.node.id == q.buyer))
        (try_sign x (quote_from_response q) >>= λ signed.
          on_result signed (λ why. reject x ref (ascii "SIGN_INTENT_FAILED") (x.error_text why))
            (λ intent. update_session (add_intent id intent) >> authorize_trade id q))
        (authorize_trade id q)

  -- Of an intent for a pending quote that is not out of date.
  unfoldable pub take_intent : TxId → TxId → SignedTradeIntent → QuoteResponse F → Task F S Reply
  take_intent ref id signed q = do
    h ← current
    guard_that (not (owns_parties h.session q.seller q.buyer))
        (reject x ref (ascii "INVALID_ROLE") (ascii "quote roles do not match session"))
        (guard_that (not (signed.intent.party == h.session.peer_id))
          (reject x ref (ascii "INVALID_ROLE") (ascii "signed intent is not from session peer"))
          (guard_that (not (intent_matches_quote signed.intent q))
            (reject x ref (ascii "INTENT_MISMATCH") (ascii "signed intent does not match quote"))
            (guard_that (has_party_intent (intents_of h.session id) signed.intent.party)
              (reject x ref (ascii "DUPLICATE_INTENT")
                (ascii "duplicate signed intent for quote party"))
              (update_session (add_intent id signed) >> countersign ref id q))))

  unfoldable pub handle_signed_intent : TxId → TxId → SignedTradeIntent → Task F S Reply
  handle_signed_intent ref id signed = do
    h ← current
    on_option (lookup id h.session.pending_quotes)
        (reject x ref (ascii "UNEXPECTED_SIGNED_INTENT")
          (ascii "signed intent does not match a pending quote"))
        (λ q.
          on_result (pending_quote_freshness h q)
            (λ why.
              update_session (λ s. clear_negotiation s id q 0)
              >> reject x ref (ascii "QUOTE_EXPIRED") (x.error_text why))
            (λ _. take_intent ref id signed q))
