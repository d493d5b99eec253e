-- ===== src/Handler/Settlement/Moves.antt =====
-- What an authorized trade that is answered without an error (core/handler/handler.go) moves in the
-- inventory of the local node.
use web4_v.Base.{◌≡◌, sym, ◌∙◌, true, ok, ◌⊎◌, inl, inr, ◌==◌, ==_iff, nat_eq, Bool-cases}
use mathlib.Core.Path.{subst}
use web4_v.Base.Int.{IsI64}
use web4_v.Base.Dict.{IsMap, AllValues, AllValues-lookup}
use web4_v.Model.Types.{TxId, TradeTx}
use web4_v.Model.Inventory.Holdings.{IsValid}
use web4_v.Node.{Quote, SignedTradeIntent, AuthorizedTradeTx}
use web4_v.Node.State.{Node}
use web4_v.Node.Trade.{World}
use web4_v.Node.Trade.Execute.{execute_signed_trade}
use web4_v.Node.Trade.Success.{execute_signed_trade-Executed, asked-parties}
use web4_v.Node.Trade.Moves.{Swaps}
use web4_v.Node.Trade.Effects.{execute_signed_trade-Swaps}
use web4_v.Handler.Session.{QuoteResponse}
use web4_v.Handler.Quotes.{quote_from_response}
use web4_v.Handler.Tasks.{Services, Handler, SignedMessage, answer}
use web4_v.Handler.Shadows.Valid.{execution_shadow-IsValid}
use web4_v.Handler.Settlement.{handle_authorized_trade}
use web4_v.Handler.Settlement.Negotiated.{IsNegotiated}
use web4_v.Handler.Settlement.Executed.{IsExecuted}
use web4_v.Handler.Settlement.Settled.{handle_authorized_trade-IsSettled}

-- The amounts of a quote are int64s.
abbrev pub HasAmounts : {F : Type 0} → QuoteResponse F → Type 0
HasAmounts q = IsI64 q.sell_amount × IsI64 q.buy_amount

-- The local node has sold or bought what the quote says, as the party that it is.
abbrev pub Settles : {F : Type 0} → QuoteResponse F → Node F → Node F → Type 0
Settles q n m =
    ((n.id ≡ q.seller)
      × Swaps q.seller q.sell_unit q.sell_amount q.buy_unit q.buy_amount n.inventory m.inventory)
    ⊎ ((n.id ≡ q.buyer)
        × Swaps q.buyer q.buy_unit q.buy_amount q.sell_unit q.sell_amount n.inventory m.inventory)

module _ {F S : Type 0} (x : Services F S) where
  party_moves :
      (q : Quote F) (s b : SignedTradeIntent) (w : World F S) (tx : TradeTx) (v : World F S)
      → IsI64 q.sell_amount
      → IsI64 q.buy_amount
      → IsValid w.seller.inventory
      → IsValid w.buyer.inventory
      → execute_signed_trade x.crypto x.floats x.store_ops q s b true w ≡ (ok tx, v)
      → Swaps q.seller q.sell_unit q.sell_amount q.buy_unit q.buy_amount w.seller.inventory
          v.seller.inventory
        × Swaps q.buyer q.buy_unit q.buy_amount q.sell_unit q.sell_amount w.buyer.inventory
            v.buyer.inventory
        × (w.buyer.id ≡ q.buyer)
  party_moves q s b w tx v hs hb vs vb e =
      let (sells, buys) =
        execute_signed_trade-Swaps x.crypto x.floats x.store_ops q s b true w tx v hs hb vs vb e in
      let run = execute_signed_trade-Executed x.crypto x.floats x.store_ops q s b true w tx v e in
      let (_, is_buyer) = asked-parties x.crypto x.floats x.store_ops q s b w tx v run in
      (sells, buys, sym run.asked_same.buyer_same.id_kept ∙ is_buyer)

  executed-Settles :
      (h : Handler F S) (auth : AuthorizedTradeTx) (q : QuoteResponse F) (g : Handler F S)
      → HasAmounts q
      → IsValid h.node.inventory
      → IsExecuted x h auth q g
      → Settles q h.node g.node
  executed-Settles h auth q g (hs, hb) valid run =
      let shadow =
        execution_shadow-IsValid x.floats h.node (quote_from_response q) auth run.peer hs hb
          run.shadowed in
      elim (Bool-cases (h.node.id == q.seller)) [
        | inl seller ↦
            let (sells, _, _) =
              party_moves (quote_from_response q) auth.seller_auth auth.buyer_auth
                (record { seller = h.node; buyer = run.peer; stores = h.stores }) run.tx run.world
                hs hb valid shadow (rw seller at run.executed) in
            inl (
              (==_iff h.node.id q.seller).0 seller,
              subst
                  (λ n.
                    Swaps q.seller q.sell_unit q.sell_amount q.buy_unit q.buy_amount
                      h.node.inventory n.inventory)
                  (sym (rw seller at run.node_after)) sells,
            )
        | inr buyer ↦
            let (_, buys, is_buyer) =
              party_moves (quote_from_response q) auth.seller_auth auth.buyer_auth
                (record { seller = run.peer; buyer = h.node; stores = h.stores }) run.tx run.world
                hs hb shadow valid (rw buyer at run.executed) in
            inr (
              is_buyer,
              subst
                  (λ n.
                    Swaps q.buyer q.buy_unit q.buy_amount q.sell_unit q.sell_amount h.node.inventory
                      n.inventory)
                  (sym (rw buyer at run.node_after)) buys,
            )
      ]

  -- An authorized trade that a handler answers without an error, with a well-formed inventory and
  -- int64 amounts in its pending quotes: one of these quotes was negotiated for the trade, and the
  -- local node is its seller or its buyer and has given and received exactly its amounts, and nothing
  -- else.
  pub handle_authorized_trade-Settles :
      (auth : AuthorizedTradeTx) (auth_id : TxId) (h : Handler F S) (m : SignedMessage)
      (g : Handler F S)
      → IsMap h.session.pending_quotes
      → AllValues HasAmounts h.session.pending_quotes
      → IsValid h.node.inventory
      → handle_authorized_trade x auth auth_id h ≡ (ok (answer m), g)
      → (id : TxId) × (q : QuoteResponse F) × IsNegotiated x h auth auth_id id q
        × Settles q h.node g.node
  handle_authorized_trade-Settles auth auth_id h m g maps amounts valid e =
      let s = handle_authorized_trade-IsSettled x auth auth_id h m g maps e in
      let fits =
        AllValues-lookup HasAmounts s.id s.quote h.session.pending_quotes amounts
          s.negotiated.pending in
      (s.id, s.quote, s.negotiated, executed-Settles h auth s.quote g fits valid s.execution)
