-- ===== src/Handler/Settlement/Negotiated.antt =====
-- What an authorized trade that is executed (core/handler/handler.go) has been negotiated as.
use web4_v.Base.{
  ◌≡◌, refl, sym, ◌∙◌, ap, Bool, true, false, not, ◌&&◌, ◌||◌, [], ◌∷◌, List, Option, some, Result,
  ok, err, Error, fail_if-false, fail_if-not-true, if◌then◌else◌, ◌==◌, ==_iff, nat_eq, ◌⊎◌, inl,
  inr, arith, intent_party_mismatch, authorized_id_not_negotiated, unexpected_message, ok-inj,
}
use mathlib.Core.Path.{subst}
use web4_v.Base.Dict.{Dict, IsMap, lookup}
use web4_v.Model.Types.{TxId, NodeId}
use web4_v.Node.{SignedTradeIntent, AuthorizedTradeTx}
use web4_v.Handler.Session.{Session, QuoteResponse, trade_matches_quote, clear_negotiation}
use web4_v.Handler.Quotes.{
  quote_from_response, build_authorized_trade, has_party_intent, has_signed_intent,
}
use web4_v.Handler.Tasks.{Services, Handler}
use web4_v.Handler.Tasks.Steps.{update_session}
use web4_v.Handler.Tasks.Ends.{
  current-done, lift_then-done, lift_bind-done, check-done, update-done, lift-done,
}
use web4_v.Handler.Negotiation.{owns_parties, intents_of, store_trade, pending_quote_freshness}
use web4_v.Handler.Settlement.{
  local_auth, peer_auth, bind_authorized_intents, negotiated_quote, settle_negotiation,
}

-- The quote was pending in the session between its parties and is not out of date; both intents match
-- it, are of its parties and were kept in the session for it; and the ID is that of the trade that the
-- quote and the intents make.
pub record IsNegotiated {F S : Type 0} (x : Services F S) (h : Handler F S)
    (auth : AuthorizedTradeTx) (auth_id id : TxId) (q : QuoteResponse F) : Type 0 where
  pub pending : lookup id h.session.pending_quotes ≡ some q
  pub owned : owns_parties h.session q.seller q.buyer ≡ true
  pub matching : trade_matches_quote auth q ≡ true
  pub fresh : pending_quote_freshness h q ≡ ok tt
  pub by_seller : auth.seller_auth.intent.party ≡ q.seller
  pub by_buyer : auth.buyer_auth.intent.party ≡ q.buyer
  pub seller_kept : has_signed_intent (intents_of h.session id) auth.seller_auth ≡ true
  pub buyer_kept : has_signed_intent (intents_of h.session id) auth.buyer_auth ≡ true
  pub rebuilt : AuthorizedTradeTx
  pub same_id :
      build_authorized_trade x.floats x.crypto
        (quote_from_response q)
        auth.seller_auth
        auth.buyer_auth
      ≡ ok (rebuilt, auth_id)

module _ {F : Type 0} where
  found-pending :
      (b : Bool) (id j : TxId) (q r : QuoteResponse F) (rest : Option (TxId × QuoteResponse F))
      → (if b then some (id, q) else rest) ≡ some (j, r)
      → ((b ≡ true) × (id ≡ j) × (q ≡ r)) ⊎ (rest ≡ some (j, r))
  found-pending true id j q r rest e = inl (refl, cc, cc)
  found-pending false id j q r rest e = inr e

  pub negotiated_quote-found :
      (s : Session F) (auth : AuthorizedTradeTx) (qs : Dict TxId (QuoteResponse F)) (j : TxId)
      (r : QuoteResponse F)
      → IsMap qs
      → negotiated_quote s auth qs ≡ some (j, r)
      → (lookup j qs ≡ some r)
        × ((owns_parties s r.seller r.buyer && trade_matches_quote auth r) ≡ true)
  unfolding negotiated_quote
  negotiated_quote-found s auth [] j r m e = absurd (cc)
  negotiated_quote-found s auth ((id, q) ∷ qs) j r m e =
      elim (found-pending (owns_parties s q.seller q.buyer && trade_matches_quote auth q) id j q r
        (negotiated_quote s auth qs) e) [
          | inl (holds, same, is) ↦ (
            ground (arith, ==_iff id j),
            subst (λ y. (owns_parties s y.seller y.buyer && trade_matches_quote auth y) ≡ true) is
                holds,
          )
          | inr later ↦
              let (there, holds) = negotiated_quote-found s auth qs j r m.1 later in
              (ground (arith, ==_iff id j), holds)
        ]

both_true : (a b : Bool) → (a && b) ≡ true → (a ≡ true) × (b ≡ true)
both_true true b h = (refl, h)
both_true false b h = absurd (cc)

pub neither_true : (a b : Bool) → (not a || not b) ≡ false → (a ≡ true) × (b ≡ true)
neither_true true true h = (refl, refl)
neither_true true false h = absurd (cc)
neither_true false b h = absurd (cc)

-- The two intents of a trade are that of the local node and that of its peer.
either_way :
    (P : SignedTradeIntent → Type 0) (b : Bool) (s t : SignedTradeIntent)
    → P (if b then t else s)
    → P (if b then s else t)
    → P s × P t
either_way P true s t h k = (k, h)
either_way P false s t h k = (h, k)

kept_chain :
    (a b c d e : Bool) (w1 w2 w3 w4 w5 : Error)
    → ◌≡◌ {A = Result (Unit {0})}
        (if not a
          then err w1
          else if not b
          then err w2
          else if not c
          then err w3
          else if d
          then ok tt
          else if e
          then err w4
          else err w5)
        (ok tt)
    → (c ≡ true) × (d ≡ true)
kept_chain true true true true e w1 w2 w3 w4 w5 h = (refl, refl)
kept_chain true true true false true w1 w2 w3 w4 w5 h = absurd (cc)
kept_chain true true true false false w1 w2 w3 w4 w5 h = absurd (cc)
kept_chain true true false d e w1 w2 w3 w4 w5 h = absurd (cc)
kept_chain true false c d e w1 w2 w3 w4 w5 h = absurd (cc)
kept_chain false b c d e w1 w2 w3 w4 w5 h = absurd (cc)

bind_authorized_intents-kept :
    (local peer : NodeId) (intents : List SignedTradeIntent) (auth : AuthorizedTradeTx)
    → bind_authorized_intents local peer intents auth ≡ ok tt
    → (has_signed_intent intents auth.seller_auth ≡ true)
      × (has_signed_intent intents auth.buyer_auth ≡ true)
unfolding bind_authorized_intents
bind_authorized_intents-kept local peer intents auth h =
    let (mine, theirs) =
      kept_chain ((local_auth local auth).intent.party == local)
        ((peer_auth local auth).intent.party == peer)
        (has_signed_intent intents (local_auth local auth))
        (has_signed_intent intents (peer_auth local auth))
        (has_party_intent intents (peer_auth local auth).intent.party) _ _ _ _ _ h in
    either_way (λ s. has_signed_intent intents s ≡ true) (local == auth.buyer_auth.intent.party)
      auth.seller_auth auth.buyer_auth mine theirs

module _ {F S : Type 0} (x : Services F S) where
  pub settle_negotiation-done :
      (auth : AuthorizedTradeTx) (auth_id id : TxId) (q : QuoteResponse F) (h : Handler F S)
      (r : TxId × QuoteResponse F) (g : Handler F S)
      → lookup id h.session.pending_quotes ≡ some q
      → (owns_parties h.session q.seller q.buyer && trade_matches_quote auth q) ≡ true
      → settle_negotiation x auth auth_id id q h ≡ (ok r, g)
      → IsNegotiated x h auth auth_id id q
        × (r ≡ (id, q))
        × ((rebuilt : AuthorizedTradeTx) × (g
              ≡ record h { session = store_trade auth_id rebuilt h.session }))
  unfolding settle_negotiation
  settle_negotiation-done auth auth_id id q h r g there holds e =
      let (owned, matching) = both_true _ _ holds in
      let e0 = current-done _ h (ok r, g) e in
      let ((u, fresh), e1) =
        check-done (pending_quote_freshness h q)
          (λ why. update_session (λ s. clear_negotiation s id q auth_id)) unexpected_message _ h r g
          e0 in
      let (parties, e2) = lift_then-done _ _ h r g e1 in
      let (bound, e3) = lift_then-done _ _ h r g e2 in
      let (rebuilt, built, e4) = lift_bind-done _ _ h r g e3 in
      let (same, e5) = lift_then-done _ _ h r g e4 in
      let (agrees, e6) = lift_then-done _ _ h r g e5 in
      let e7 = update-done (store_trade auth_id rebuilt.0) _ h (ok r, g) e6 in
      let (gave, left) = lift-done _ _ r g e7 in
      let (by_seller, by_buyer) =
        neither_true (auth.seller_auth.intent.party == q.seller)
          (auth.buyer_auth.intent.party == q.buyer)
          (fail_if-false _ intent_party_mismatch parties) in
      let (seller_kept, buyer_kept) =
        bind_authorized_intents-kept h.node.id h.session.peer_id (intents_of h.session id) auth
          bound in
      (
        record {
          pending = there;
          owned = owned;
          matching = matching;
          fresh = fresh;
          by_seller = (==_iff _ _).0 by_seller;
          by_buyer = (==_iff _ _).0 by_buyer;
          seller_kept = seller_kept;
          buyer_kept = buyer_kept;
          rebuilt = rebuilt.0;
          same_id =
              built
              ∙ ap (λ i. ok (rebuilt.0, i))
                  ((==_iff rebuilt.1 auth_id).0
                    (fail_if-not-true _ authorized_id_not_negotiated same));
        },
        sym (ok-inj (id, q) r gave),
        (rebuilt.0, left),
      )
