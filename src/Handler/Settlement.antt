-- ===== src/Handler/Settlement.antt =====
-- The handler of an authorized trade in core/handler/handler.go: what it must agree with in the
-- session, and its execution.
pub mod Negotiated
pub mod Executed
pub mod Settled
pub mod Moves
use web4_v.Base.{
  ℕ, Bool, true, false, not, ◌&&◌, ◌||◌, List, [], ◌∷◌, Option, none, some, Result, ok, err, Error,
  fail_if, if◌then◌else◌, ◌==◌, nat_eq, local_node_not_trade_party, session_peer_not_buyer,
  session_peer_not_seller, invalid_trade_intent, intent_party_mismatch,
  authorized_id_not_negotiated, pending_trade_mismatch, no_negotiation, missing_local_authorization,
  missing_peer_authorization, local_authorization_not_negotiated, peer_authorization_differs,
  peer_authorization_not_negotiated, unexpected_message, trade_execution_failed,
}
use web4_v.Base.Dict.{Dict, lookup}
use web4_v.Canonical.{ascii}
use web4_v.Crypto.{Primitives}
use web4_v.Model.Types.{Bytes, TxId, NodeId, TradeTx}
use web4_v.Node.{SignedTradeIntent, AuthorizedTradeTx}
use web4_v.Node.Intents.{verify_trade_intent}
use web4_v.Message.Payloads.{trade_result}
use web4_v.Handler.Session.{Session, QuoteResponse, clear_negotiation, trade_matches_quote}
use web4_v.Handler.Quotes.{
  quote_from_response, build_authorized_trade, has_party_intent, has_signed_intent,
  authorized_trade_equal,
}
use web4_v.Handler.Tasks.{Services, Handler, Reply, answer, answer_failed}
use web4_v.Handler.Tasks.Steps.{
  Task, ◌>>=◌, ◌>>◌, lift, current, update_session, on_result, on_option, sign_response,
}
use web4_v.Handler.Shadows.{execute_with_shadow}
use web4_v.Handler.Negotiation.{owns_parties, intents_of, store_trade, pending_quote_freshness}

-- `requireSessionCounterparty`, of the local node and the session's peer.
unfoldable pub require_session_counterparty : NodeId → NodeId → NodeId → NodeId → Result (Unit {0})
require_session_counterparty local peer seller buyer =
    if local == seller
    then fail_if (not (peer == buyer)) session_peer_not_buyer
    else if local == buyer
    then fail_if (not (peer == seller)) session_peer_not_seller
    else err local_node_not_trade_party

-- The authorization of the local node, and that of its peer.
abbrev pub local_auth : NodeId → AuthorizedTradeTx → SignedTradeIntent
local_auth local auth =
    if local == auth.buyer_auth.intent.party then auth.buyer_auth else auth.seller_auth

abbrev pub peer_auth : NodeId → AuthorizedTradeTx → SignedTradeIntent
peer_auth local auth =
    if local == auth.buyer_auth.intent.party then auth.seller_auth else auth.buyer_auth

unfoldable pub bind_authorized_intents :
    NodeId → NodeId → List SignedTradeIntent → AuthorizedTradeTx → Result (Unit {0})
bind_authorized_intents local peer intents auth =
    if not ((local_auth local auth).intent.party == local)
    then err missing_local_authorization
    else if not ((peer_auth local auth).intent.party == peer)
    then err missing_peer_authorization
    else if not (has_signed_intent intents (local_auth local auth))
    then err local_authorization_not_negotiated
    else if has_signed_intent intents (peer_auth local auth)
    then ok tt
    else if has_party_intent intents (peer_auth local auth).intent.party
    then err peer_authorization_differs
    else err peer_authorization_not_negotiated

-- The loop of `authorizedNegotiation`, up to the quote whose round returns: the others are passed
-- over. The order is that of the map.
unfoldable pub negotiated_quote :
    {F : Type 0}
    → Session F
    → AuthorizedTradeTx
    → Dict TxId (QuoteResponse F)
    → Option (TxId × QuoteResponse F)
negotiated_quote s auth [] = none
negotiated_quote s auth ((id, q) ∷ qs) =
    let rest = negotiated_quote s auth qs in
    if owns_parties s q.seller q.buyer && trade_matches_quote auth q then some (id, q) else rest

-- A pending trade with the ID has to be the rebuilt one.
abbrev pub agrees_with_pending : Primitives → AuthorizedTradeTx → Option AuthorizedTradeTx → Bool
agrees_with_pending c rebuilt none = true
agrees_with_pending c rebuilt (some pending) = authorized_trade_equal c pending rebuilt

module _ {F S : Type 0} (x : Services F S) where
  -- The round of the quote that is found.
  unfoldable pub settle_negotiation :
      AuthorizedTradeTx → TxId → TxId → QuoteResponse F → Task F S (TxId × QuoteResponse F)
  settle_negotiation auth auth_id id q = do
    h ← current
    on_result (pending_quote_freshness h q)
        (λ why.
          update_session (λ s. clear_negotiation s id q auth_id)
          >> lift {A = Unit} (err (unexpected_message why)))
        (λ _. lift (ok tt))
    lift (
        fail_if
          (not (auth.seller_auth.intent.party == q.seller)
            || not (auth.buyer_auth.intent.party == q.buyer))
          intent_party_mismatch)
    lift (bind_authorized_intents h.node.id h.session.peer_id (intents_of h.session id) auth)
    rebuilt ← lift (
        build_authorized_trade x.floats x.crypto (quote_from_response q) auth.seller_auth
          auth.buyer_auth)
    lift (fail_if (not (rebuilt.1 == auth_id)) authorized_id_not_negotiated)
    lift (
        fail_if
          (not (agrees_with_pending x.crypto rebuilt.0 (lookup auth_id h.session.pending_trades)))
          pending_trade_mismatch)
    update_session (store_trade auth_id rebuilt.0)
    lift (ok (id, q))

  unfoldable pub authorized_negotiation :
      AuthorizedTradeTx → TxId → Task F S (TxId × QuoteResponse F)
  authorized_negotiation auth auth_id = do
    h ← current
    on_option (negotiated_quote h.session auth h.session.pending_quotes) (lift (err no_negotiation))
        (λ found. settle_negotiation auth auth_id found.0 found.1)

  -- The status of a result and its reason.
  abbrev pub status_of : Result TradeTx → Bytes
  status_of (ok _) = ascii "ACCEPTED"
  status_of (err _) = ascii "FAILED"

  abbrev pub reason_of : Result TradeTx → Bytes
  reason_of (ok _) = ascii "executed"
  reason_of (err why) = x.error_text why

  -- From the execution on, of which the result is given.
  unfoldable pub report :
      AuthorizedTradeTx → TxId → TxId → QuoteResponse F → Result TradeTx → Task F S Reply
  report auth auth_id id q result = do
    update_session (store_trade auth_id auth)
    m ←
        sign_response x (ascii "TRADE_RESULT")
          (trade_result auth_id (status_of result) (reason_of result))
    on_result result (λ why. lift (ok (answer_failed m (trade_execution_failed why))))
        (λ _. update_session (λ s. clear_negotiation s id q auth_id) >> lift (ok (answer m)))

  unfoldable pub handle_authorized_trade : AuthorizedTradeTx → TxId → Task F S Reply
  handle_authorized_trade auth auth_id = do
    h ← current
    lift (
        fail_if
          (not (verify_trade_intent x.crypto auth.seller_auth)
            || not (verify_trade_intent x.crypto auth.buyer_auth))
          invalid_trade_intent)
    lift (
        fail_if
          (not (h.node.id == auth.seller_auth.intent.seller)
            && not (h.node.id == auth.seller_auth.intent.buyer))
          local_node_not_trade_party)
    lift (
        require_session_counterparty h.node.id h.session.peer_id auth.seller_auth.intent.seller
          auth.seller_auth.intent.buyer)
    found ← authorized_negotiation auth auth_id
    result ← execute_with_shadow x (quote_from_response found.1) auth
    report auth auth_id found.0 found.1 result
