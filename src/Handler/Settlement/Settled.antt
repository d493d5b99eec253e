-- ===== src/Handler/Settlement/Settled.antt =====
-- What an authorized trade that is answered without an error (core/handler/handler.go) has done to the
-- local node.
use web4_v.Base.{
  ◌≡◌, refl, sym, ◌∙◌, ap, true, Result, ok, err, Error, fail_if-false, nat_eq,
  invalid_trade_intent, no_negotiation, ok-inj,
}
use mathlib.Core.Path.{subst}
use web4_v.Base.Dict.{IsMap, erase}
use web4_v.Canonical.{ascii}
use web4_v.Model.Types.{Bytes, TxId, TradeTx}
use web4_v.Node.{AuthorizedTradeTx}
use web4_v.Node.State.{Node}
use web4_v.Node.Intents.{verify_trade_intent}
use web4_v.Message.Payloads.{trade_result}
use web4_v.Handler.Session.{QuoteResponse, clear_negotiation}
use web4_v.Handler.Quotes.{quote_from_response}
use web4_v.Handler.Tasks.{Services, Handler, SignedMessage, answer, answer_failed, signed_message}
use web4_v.Handler.Tasks.Steps.{on_result, sign_response, lift, ◌>>◌, ◌>>=◌, update_session}
use web4_v.Handler.Tasks.Ends.{bind-done, current-done, lift_then-done, on_option-done}
use web4_v.Handler.Shadows.{execute_with_shadow}
use web4_v.Handler.Negotiation.{store_trade}
use web4_v.Handler.Settlement.{authorized_negotiation, report, handle_authorized_trade}
use web4_v.Handler.Settlement.Executed.{IsExecuted, execute_with_shadow-done, same_execution}
use web4_v.Handler.Settlement.Negotiated.{
  IsNegotiated, negotiated_quote-found, settle_negotiation-done, neither_true,
}

-- The answer to an authorized trade that was executed.
abbrev pub acceptance :
    {F S : Type 0} → Services F S → Node F → Result Bytes → TxId → Result SignedMessage
acceptance x n random auth_id =
    signed_message x n random (ascii "TRADE_RESULT")
      (trade_result auth_id (ascii "ACCEPTED") (ascii "executed"))

-- The whole handler, from `h` to `g`, with the answer `m`.
pub record IsSettled {F S : Type 0} (x : Services F S) (h : Handler F S) (auth : AuthorizedTradeTx)
    (auth_id : TxId) (m : SignedMessage) (g : Handler F S) : Type 0 where
  pub id : TxId
  pub quote : QuoteResponse F
  pub seller_verified : verify_trade_intent x.crypto auth.seller_auth ≡ true
  pub buyer_verified : verify_trade_intent x.crypto auth.buyer_auth ≡ true
  pub negotiated : IsNegotiated x h auth auth_id id quote
  pub execution : IsExecuted x h auth quote g
  pub quote_gone : g.session.pending_quotes ≡ erase id h.session.pending_quotes
  pub answered : acceptance x g.node h.random auth_id ≡ ok m

module _ {F S : Type 0} (x : Services F S) where
  authorized_negotiation-done :
      (auth : AuthorizedTradeTx) (auth_id : TxId) (h : Handler F S) (r : TxId × QuoteResponse F)
      (g : Handler F S)
      → IsMap h.session.pending_quotes
      → authorized_negotiation x auth auth_id h ≡ (ok r, g)
      → IsNegotiated x h auth auth_id r.0 r.1
        × ((rebuilt : AuthorizedTradeTx) × (g
              ≡ record h { session = store_trade auth_id rebuilt h.session }))
  unfolding authorized_negotiation
  authorized_negotiation-done auth auth_id h r g m e =
      let e0 = current-done _ h (ok r, g) e in
      let (found, is, e1) = on_option-done _ no_negotiation _ h r g e0 in
      let (there, holds) =
        negotiated_quote-found h.session auth h.session.pending_quotes found.0 found.1 m is in
      let (negotiated, same, left) =
        settle_negotiation-done x auth auth_id found.0 found.1 h r g there holds e1 in
      (subst (λ p. IsNegotiated x h auth auth_id p.0 p.1) (sym same) negotiated, left)

  -- A report that comes without an error is of an execution that succeeded.
  report-done :
      (auth : AuthorizedTradeTx) (auth_id id : TxId) (q : QuoteResponse F) (result : Result TradeTx)
      (h : Handler F S) (m : SignedMessage) (g : Handler F S)
      → report x auth auth_id id q result h ≡ (ok (answer m), g)
      → ((tx : TradeTx) × (result ≡ ok tx))
        × (acceptance x h.node h.random auth_id ≡ ok m)
        × (g ≡ record h {
          session = clear_negotiation (store_trade auth_id auth h.session) id q auth_id;
        })
  unfolding report sign_response on_result lift ◌>>◌ update_session
  report-done auth auth_id id q (ok tx) h m g e =
      let stored : Handler F S = record h { session = store_trade auth_id auth h.session } in
      let (n, signed, e1) = bind-done _ _ stored (answer m) g e in
      let same = ok-inj (answer n) (answer m) (ap (λ z. z.0) e1) in
      ((tx, refl), signed ∙ ap ok (answer-inj n m same), sym (ap (λ z. z.1) e1))
    where
      answer-inj : (a b : SignedMessage) → answer a ≡ answer b → a ≡ b
      answer-inj a b s = cc
  report-done auth auth_id id q (err why) h m g e =
      let stored : Handler F S = record h { session = store_trade auth_id auth h.session } in
      let (n, signed, e1) = bind-done _ _ stored (answer m) g e in
      absurd (never n _ (ok-inj (answer_failed n _) (answer m) (ap (λ z. z.0) e1)))
    where
      never : (n : SignedMessage) (w : Error) → answer_failed n w ≡ answer m → ⊥
      never n w s = cc

  settled :
      (auth : AuthorizedTradeTx) (auth_id : TxId) (h h1 : Handler F S)
      (found : TxId × QuoteResponse F) (m : SignedMessage) (g : Handler F S)
      → verify_trade_intent x.crypto auth.seller_auth ≡ true
      → verify_trade_intent x.crypto auth.buyer_auth ≡ true
      → IsNegotiated x h auth auth_id found.0 found.1
      → (rebuilt : AuthorizedTradeTx) × (h1
          ≡ record h { session = store_trade auth_id rebuilt h.session })
      → (execute_with_shadow x (quote_from_response found.1) auth
            >>= report x auth auth_id found.0 found.1)
          h1
        ≡ (ok (answer m), g)
      → IsSettled x h auth auth_id m g
  unfolding clear_negotiation
  settled auth auth_id h h1 (id, q) m g by_seller by_buyer negotiated (rebuilt, is) e =
      let (result, ran, e1) = bind-done _ _ h1 (answer m) g e in
      let task = execute_with_shadow x (quote_from_response q) auth h1 in
      let ((tx, good), signed, left) = report-done auth auth_id id q result task.1 m g e1 in
      let (run, same_session, same_random) =
        execute_with_shadow-done x auth q h1 result task.1 tx (ap (λ z. (z, task.1)) ran) good in
      record {
        id = id;
        quote = q;
        seller_verified = by_seller;
        buyer_verified = by_buyer;
        negotiated = negotiated;
        execution =
            same_execution x auth auth_id rebuilt q h h1 task.1 g is run (ap (λ z. z.node) left)
              (ap (λ z. z.stores) left);
        quote_gone =
            ap (λ z. z.session.pending_quotes) left
            ∙ ap (λ z. erase id z.pending_quotes) same_session
            ∙ ap (λ z. erase id z.session.pending_quotes) is;
        answered =
            subst (λ n. acceptance x n h.random auth_id ≡ ok m) (sym (ap (λ z. z.node) left))
              (subst (λ w. acceptance x task.1.node w auth_id ≡ ok m)
                (same_random ∙ ap (λ z. z.random) is) signed);
      }

  -- An authorized trade that a handler answers without an error: both intents verify, the session,
  -- which holds a Go map of quotes, had negotiated it as `IsNegotiated` says, it is executed between
  -- the local node and the shadow of its peer as `IsExecuted` says, the quote is pending no more, and
  -- the answer is a signed result that says so.
  pub handle_authorized_trade-IsSettled :
      (auth : AuthorizedTradeTx) (auth_id : TxId) (h : Handler F S) (m : SignedMessage)
      (g : Handler F S)
      → IsMap h.session.pending_quotes
      → handle_authorized_trade x auth auth_id h ≡ (ok (answer m), g)
      → IsSettled x h auth auth_id m g
  unfolding handle_authorized_trade
  handle_authorized_trade-IsSettled auth auth_id h m g maps e =
      let e0 = current-done _ h (ok (answer m), g) e in
      let (verified, e1) = lift_then-done _ _ h (answer m) g e0 in
      let (party, e2) = lift_then-done _ _ h (answer m) g e1 in
      let (counterparty, e3) = lift_then-done _ _ h (answer m) g e2 in
      let (found, negotiation, e4) =
        bind-done (authorized_negotiation x auth auth_id) _ h (answer m) g e3 in
      let next = (authorized_negotiation x auth auth_id h).1 in
      let (negotiated, left) =
        authorized_negotiation-done auth auth_id h found next maps
          (ap (λ z. (z, next)) negotiation) in
      let (by_seller, by_buyer) =
        neither_true (verify_trade_intent x.crypto auth.seller_auth)
          (verify_trade_intent x.crypto auth.buyer_auth)
          (fail_if-false _ invalid_trade_intent verified) in
      settled auth auth_id h next found m g by_seller by_buyer negotiated left e4
