-- ===== src/Handler/Messages/Inbox.antt =====
-- The handlers of core/handler/handler.go leave the peer of the session and its seen messages as they are.
use web4_v.Base.{◌≡◌, refl, ◌∙◌, [], ◌∷◌, ◌==◌, nat_eq, Bool-cases, inl, inr}
use web4_v.Base.Dict.{Dict}
use web4_v.Model.Types.{TxId}
use web4_v.Handler.Session.{
  Session, QuoteRequest, QuoteResponse, clear_request, clear_quotes_of, clear_negotiation,
}
use web4_v.Node.{SignedTradeIntent, AuthorizedTradeTx}
use web4_v.Node.State.{Node}
use web4_v.Base.Int.{ℤ}
use web4_v.Message.Payloads.{
  hello, quote_request, quote_response, signed_intent, authorized_trade, trade_result, rejection,
  ping, pong,
}
use web4_v.Handler.Tasks.{Services, Handler}
use web4_v.Handler.Tasks.Steps.{update_session}
use web4_v.Handler.Tasks.Rules.{Keeps, Keeps-update, keeps_rules}
use web4_v.Handler.Shadows.{shadow_of, quote_peer, try_sign, try_execute, execute_with_shadow}
use web4_v.Handler.Negotiation.{
  store_request, store_quote, add_intent, store_trade, quote_for, handle_quote_request,
  refuse_quote, authorize_quote, take_quote, handle_quote_response, authorize_trade, countersign,
  take_intent, handle_signed_intent,
}
use web4_v.Handler.Settlement.{
  settle_negotiation, authorized_negotiation, report, handle_authorized_trade,
}
use web4_v.Handler.Messages.{
  record_seen, handle_hello, handle_trade_result, handle_reject, handle_pong, handle_ping, dispatch,
  process,
}

-- The handler has the peer and the seen messages of the session `s`.
pub record HasInbox {F S : Type 0} (s : Session F) (h : Handler F S) : Type 0 where
  pub same_peer : h.session.peer_id ≡ s.peer_id
  pub same_seen : h.session.seen_messages ≡ s.seen_messages

-- A session change that leaves the inbox as it is.
pub record KeepsInbox {F : Type 0} (f : Session F → Session F) : Type 0 where
  pub peer_kept : (s : Session F) → (f s).peer_id ≡ s.peer_id
  pub seen_kept : (s : Session F) → (f s).seen_messages ≡ s.seen_messages

module _ {F S : Type 0} {s : Session F} where
  update-HasInbox :
      (f : Session F → Session F) → KeepsInbox f → Keeps {S = S} (HasInbox s) (update_session f)
  update-HasInbox f k = Keeps-update f (λ h p. record {
    same_peer = k.peer_kept h.session ∙ p.same_peer;
    same_seen = k.seen_kept h.session ∙ p.same_seen;
  })

module _ {F : Type 0} where
  clear_negotiation-KeepsInbox :
      (id : TxId) (q : QuoteResponse F) (auth : TxId)
      → KeepsInbox (λ s. clear_negotiation s id q auth)
  unfolding clear_negotiation
  clear_negotiation-KeepsInbox id q auth = record { peer_kept = λ s. refl; seen_kept = λ s. refl }

  clear_quotes_of-KeepsInbox :
      (r : TxId) (qs : Dict TxId (QuoteResponse F)) → KeepsInbox (clear_quotes_of r qs)
  unfolding clear_quotes_of clear_negotiation
  clear_quotes_of-KeepsInbox r [] = record { peer_kept = λ s. refl; seen_kept = λ s. refl }
  clear_quotes_of-KeepsInbox r ((id, q) ∷ qs) =
      let rest = clear_quotes_of-KeepsInbox r qs in
      elim (Bool-cases (q.request_id == r)) [
        | inl same ↦ record {
          peer_kept = λ s. rw (clear_quotes_of, same) (rest.peer_kept (clear_negotiation s id q 0));
          seen_kept = λ s. rw (clear_quotes_of, same) (rest.seen_kept (clear_negotiation s id q 0));
        }
        | inr other ↦ record {
          peer_kept = λ s. rw (clear_quotes_of, other) (rest.peer_kept s);
          seen_kept = λ s. rw (clear_quotes_of, other) (rest.seen_kept s);
        }
      ]

  clear_request-KeepsInbox : (r : TxId) → KeepsInbox {F = F} (λ s. clear_request s r)
  unfolding clear_request
  clear_request-KeepsInbox r = record {
    peer_kept = λ s. (clear_quotes_of-KeepsInbox r s.pending_quotes).peer_kept s;
    seen_kept = λ s. (clear_quotes_of-KeepsInbox r s.pending_quotes).seen_kept s;
  }

module _ {F S : Type 0} (x : Services F S) {s : Session F} where
  shadow_of-HasInbox : (id u v : _) (a : _) → Keeps (HasInbox s) (shadow_of x id u v a)
  unfolding shadow_of
  shadow_of-HasInbox id u v a = search keeps_rules depth 20

  quote_peer-HasInbox :
      (peer : Node F) (p : QuoteRequest F) → Keeps (HasInbox s) (quote_peer x peer p)
  unfolding quote_peer
  quote_peer-HasInbox peer p = record {
    at = λ h k. record { same_peer = k.same_peer; same_seen = k.same_seen };
  }

  try_sign-HasInbox : (q : _) → Keeps (HasInbox s) (try_sign x q)
  unfolding try_sign
  try_sign-HasInbox q = record {
    at = λ h k. record { same_peer = k.same_peer; same_seen = k.same_seen };
  }

  try_execute-HasInbox : (q auth peer : _) → Keeps (HasInbox s) (try_execute x q auth peer)
  unfolding try_execute
  try_execute-HasInbox q auth peer = record {
    at = λ h k. record { same_peer = k.same_peer; same_seen = k.same_seen };
  }

  execute_with_shadow-HasInbox : (q auth : _) → Keeps (HasInbox s) (execute_with_shadow x q auth)
  unfolding execute_with_shadow
  execute_with_shadow-HasInbox q auth = search (keeps_rules, try_execute-HasInbox) depth 20

  update_plain :
      (f : Session F → Session F)
      → ((t : Session F) → (f t).peer_id ≡ t.peer_id)
      → ((t : Session F) → (f t).seen_messages ≡ t.seen_messages)
      → Keeps {S = S} (HasInbox s) (update_session f)
  update_plain f p q = update-HasInbox f (record { peer_kept = p; seen_kept = q })

  clear_request-HasInbox :
      (r : TxId) → Keeps {S = S} (HasInbox s) (update_session (λ t. clear_request t r))
  clear_request-HasInbox r = update-HasInbox _ (clear_request-KeepsInbox r)

  clear_negotiation-HasInbox :
      (id : TxId) (q : QuoteResponse F) (auth : TxId)
      → Keeps {S = S} (HasInbox s) (update_session (λ t. clear_negotiation t id q auth))
  clear_negotiation-HasInbox id q auth = update-HasInbox _ (clear_negotiation-KeepsInbox id q auth)

  store_request-HasInbox :
      (p : QuoteRequest F) → Keeps {S = S} (HasInbox s) (update_session (store_request p))
  store_request-HasInbox p = update_plain (store_request p) (λ t. refl) (λ t. refl)

  store_quote-HasInbox :
      (p : QuoteResponse F) → Keeps {S = S} (HasInbox s) (update_session (store_quote p))
  store_quote-HasInbox p = update_plain (store_quote p) (λ t. refl) (λ t. refl)

  add_intent-HasInbox :
      (id : TxId) (a : SignedTradeIntent)
      → Keeps {S = S} (HasInbox s) (update_session (add_intent id a))
  add_intent-HasInbox id a = update_plain (add_intent id a) (λ t. refl) (λ t. refl)

  store_trade-HasInbox :
      (id : TxId) (a : AuthorizedTradeTx)
      → Keeps {S = S} (HasInbox s) (update_session (store_trade id a))
  store_trade-HasInbox id a = update_plain (store_trade id a) (λ t. refl) (λ t. refl)

  record_seen-HasInbox : (time : ℤ) → Keeps {S = S} (HasInbox s) (update_session (record_seen time))
  record_seen-HasInbox time = update_plain (record_seen time) (λ t. refl) (λ t. refl)

  ruleset inbox_rules = (
    keeps_rules, shadow_of-HasInbox, quote_peer-HasInbox, try_sign-HasInbox, try_execute-HasInbox,
    execute_with_shadow-HasInbox, clear_request-HasInbox, clear_negotiation-HasInbox,
    store_request-HasInbox, store_quote-HasInbox, add_intent-HasInbox, store_trade-HasInbox,
    record_seen-HasInbox,
  )

  handle_quote_request-HasInbox : (ref p : _) → Keeps (HasInbox s) (handle_quote_request x ref p)
  unfolding handle_quote_request quote_for
  handle_quote_request-HasInbox ref p = search inbox_rules depth 20

  take_quote-HasInbox : (ref p : _) → Keeps (HasInbox s) (take_quote x ref p)
  unfolding take_quote authorize_quote
  take_quote-HasInbox ref p = search inbox_rules depth 20

  refuse_quote-HasInbox : (ref p r e : _) → Keeps (HasInbox s) (refuse_quote x ref p r e)
  unfolding refuse_quote
  refuse_quote-HasInbox ref p r e = search inbox_rules depth 20

  handle_quote_response-HasInbox : (ref p : _) → Keeps (HasInbox s) (handle_quote_response x ref p)
  unfolding handle_quote_response
  handle_quote_response-HasInbox ref p =
      search (inbox_rules, take_quote-HasInbox, refuse_quote-HasInbox) depth 20

  authorize_trade-HasInbox : (id q : _) → Keeps (HasInbox s) (authorize_trade x id q)
  unfolding authorize_trade
  authorize_trade-HasInbox id q = search inbox_rules depth 20

  countersign-HasInbox : (ref id q : _) → Keeps (HasInbox s) (countersign x ref id q)
  unfolding countersign
  countersign-HasInbox ref id q = search (inbox_rules, authorize_trade-HasInbox) depth 20

  handle_signed_intent-HasInbox :
      (ref id signed : _) → Keeps (HasInbox s) (handle_signed_intent x ref id signed)
  unfolding handle_signed_intent take_intent
  handle_signed_intent-HasInbox ref id signed = search (inbox_rules, countersign-HasInbox) depth 20

  authorized_negotiation-HasInbox :
      (auth id : _) → Keeps (HasInbox s) (authorized_negotiation x auth id)
  unfolding authorized_negotiation settle_negotiation
  authorized_negotiation-HasInbox auth id = search inbox_rules depth 20

  handle_authorized_trade-HasInbox :
      (auth id : _) → Keeps (HasInbox s) (handle_authorized_trade x auth id)
  unfolding handle_authorized_trade report
  handle_authorized_trade-HasInbox auth id =
      search (inbox_rules, authorized_negotiation-HasInbox) depth 20

  dispatch-HasInbox : (ref key p : _) → Keeps (HasInbox s) (dispatch x ref key p)
  unfolding dispatch handle_hello handle_trade_result handle_reject handle_ping handle_pong
  dispatch-HasInbox ref key (hello _) = search inbox_rules depth 20
  dispatch-HasInbox ref key (quote_request p) = handle_quote_request-HasInbox ref p
  dispatch-HasInbox ref key (quote_response p) = handle_quote_response-HasInbox ref p
  dispatch-HasInbox ref key (signed_intent id signed) = handle_signed_intent-HasInbox ref id signed
  dispatch-HasInbox ref key (authorized_trade auth id) = handle_authorized_trade-HasInbox auth id
  dispatch-HasInbox ref key (trade_result _ _ _) = search inbox_rules depth 20
  dispatch-HasInbox ref key (rejection _ _ _) = search inbox_rules depth 20
  dispatch-HasInbox ref key (ping _) = search inbox_rules depth 20
  dispatch-HasInbox ref key (pong _ _) = search inbox_rules depth 20

  pub process-HasInbox : (m key : _) → Keeps (HasInbox s) (process x m key)
  unfolding process
  process-HasInbox m key = search (inbox_rules, dispatch-HasInbox) depth 20
