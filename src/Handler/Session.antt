-- ===== src/Handler/Session.antt =====
-- core/handler/session.go: what a session remembers of a peer's messages, with the quotes of
-- core/message/payload.go that it keeps. A nil session is not
-- modelled, and a nil map reads as an empty one.
pub mod Seen
pub mod Fresh
use web4_v.Base.{
  ℕ, Bool, true, false, not, ◌&&◌, List, [], ◌∷◌, Result, ok, err, if◌then◌else◌, ◌==◌, nat_eq,
  duplicate_message,
}
use web4_v.Base.Int.{ℤ, pos, ltb_ℤ, eqb_ℤ}
use web4_v.Base.Dict.{Dict, get, insert, erase}
use web4_v.Node.{TradeIntent, SignedTradeIntent, AuthorizedTradeTx}
use web4_v.Model.Types.{Bytes, UnitId, TxId, NodeId, TradeTx}

pub record QuoteRequest (Float : Type 0) : Type 0 where
  pub request_id : TxId
  pub seller : NodeId
  pub buyer : NodeId
  pub sell_unit : UnitId
  pub buy_unit : UnitId
  pub sell_amount : ℤ
  pub spread_limit : Float
  pub expiry_unix : ℤ

pub record QuoteResponse (Float : Type 0) : Type 0 where
  pub request_id : TxId
  pub quote_id : TxId
  pub seller : NodeId
  pub buyer : NodeId
  pub sell_unit : UnitId
  pub buy_unit : UnitId
  pub sell_amount : ℤ
  pub buy_amount : ℤ
  pub seller_ask : Float
  pub buyer_bid : Float
  pub executable : Bool
  pub reason : Bytes
  pub expiry_unix : ℤ

pub record Session (Float : Type 0) : Type 0 where
  pub local_id : NodeId
  pub peer_id : NodeId
  pub pending_requests : Dict TxId (QuoteRequest Float)
  pub pending_quotes : Dict TxId (QuoteResponse Float)
  pub pending_intents : Dict TxId (List SignedTradeIntent)
  pub pending_trades : Dict TxId AuthorizedTradeTx
  pub seen_messages : Dict TxId Bool
  pub last_seen_unix : ℤ

abbrev pub is_expired : ℤ → ℤ → Bool
is_expired expiry_unix now_unix = ltb_ℤ (pos 0) expiry_unix && ltb_ℤ expiry_unix now_unix

module _ {Float : Type 0} where
  abbrev pub new_session : NodeId → NodeId → Session Float
  new_session local_id peer_id = record {
    local_id = local_id;
    peer_id = peer_id;
    pending_requests = [];
    pending_quotes = [];
    pending_intents = [];
    pending_trades = [];
    seen_messages = [];
    last_seen_unix = pos 0;
  }

  abbrev pub has_seen : Session Float → TxId → Bool
  has_seen s id = get false id s.seen_messages

  -- `MarkSeen`, with the session after it.
  unfoldable pub mark_seen : Session Float → TxId → Result (Unit {0}) × Session Float
  mark_seen s id =
      if has_seen s id
      then (err duplicate_message, s)
      else (ok tt, record s { seen_messages = insert id true s.seen_messages })

  abbrev pub intent_matches_quote : TradeIntent → QuoteResponse Float → Bool
  intent_matches_quote i q =
      i.seller == q.seller
      && i.buyer == q.buyer
      && i.sell_unit == q.sell_unit
      && i.buy_unit == q.buy_unit
      && eqb_ℤ i.sell_amount q.sell_amount
      && eqb_ℤ i.buy_amount q.buy_amount
      && eqb_ℤ i.timestamp q.expiry_unix

  abbrev pub trade_matches_quote : AuthorizedTradeTx → QuoteResponse Float → Bool
  trade_matches_quote t q =
      intent_matches_quote t.seller_auth.intent q && intent_matches_quote t.buyer_auth.intent q

  -- The loop of `ClearNegotiation` over the pending trades.
  abbrev pub drop_trades :
      QuoteResponse Float → Dict TxId AuthorizedTradeTx → Dict TxId AuthorizedTradeTx
  drop_trades q [] = []
  drop_trades q ((id, t) ∷ ts) =
      let rest = drop_trades q ts in if trade_matches_quote t q then rest else (id, t) ∷ rest

  unfoldable pub clear_negotiation :
      Session Float → TxId → QuoteResponse Float → TxId → Session Float
  clear_negotiation s quote_id quote auth_id = record s {
    pending_quotes = erase quote_id s.pending_quotes;
    pending_intents = erase quote_id s.pending_intents;
    pending_requests = erase quote.request_id s.pending_requests;
    pending_trades =
        drop_trades quote
          (if auth_id == 0 then s.pending_trades else erase auth_id s.pending_trades);
  }

  -- The loop of `ClearRequest`, over the quotes that were pending before it: a round removes no other
  -- quote than its own.
  unfoldable pub clear_quotes_of :
      TxId → Dict TxId (QuoteResponse Float) → Session Float → Session Float
  clear_quotes_of request_id [] s = s
  clear_quotes_of request_id ((quote_id, quote) ∷ quotes) s =
      clear_quotes_of request_id quotes
        (if quote.request_id == request_id then clear_negotiation s quote_id quote 0 else s)

  unfoldable pub clear_request : Session Float → TxId → Session Float
  clear_request s request_id =
      let cleared = clear_quotes_of request_id s.pending_quotes s in
      record cleared { pending_requests = erase request_id cleared.pending_requests }

  -- The loops of `PruneExpired`, over what was pending before each: a round over the requests removes
  -- no other request than its own.
  unfoldable pub prune_requests : ℤ → Dict TxId (QuoteRequest Float) → Session Float → Session Float
  prune_requests now [] s = s
  prune_requests now ((request_id, request) ∷ requests) s =
      prune_requests now requests
        (if is_expired request.expiry_unix now then clear_request s request_id else s)

  unfoldable pub prune_quotes : ℤ → Dict TxId (QuoteResponse Float) → Session Float → Session Float
  prune_quotes now [] s = s
  prune_quotes now ((quote_id, quote) ∷ quotes) s =
      prune_quotes now quotes
        (if is_expired quote.expiry_unix now then clear_negotiation s quote_id quote 0 else s)

  unfoldable pub prune_expired : Session Float → ℤ → Session Float
  prune_expired s now =
      let pruned = prune_requests now s.pending_requests s in
      prune_quotes now pruned.pending_quotes pruned
