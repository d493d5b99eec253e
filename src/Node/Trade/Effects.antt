-- ===== src/Node/Trade/Effects.antt =====
-- What an execution of core/node/trade.go that succeeds does to the inventories of the two nodes.
use web4_v.Base.{ℕ, ◌≡◌, sym, ap, Bool, ◌&&◌, ok, ◌==◌, nat_eq, ==_iff, if◌then◌else◌}
use mathlib.Core.Path.{subst}
use web4_v.Base.Int.{ℤ, pos, ◌+ℤ◌, IsI64, int_laws}
use web4_v.Floats.{Floats}
use web4_v.Crypto.{Primitives}
use web4_v.Model.Types.{UnitId, NodeId, TradeTx}
use web4_v.Model.Inventory.{InventoryState, get_amount}
use web4_v.Model.Inventory.Holdings.{IsValid}
use web4_v.Node.{Quote, SignedTradeIntent}
use web4_v.Node.Trade.{StoreOps, World, commit_prepared_state}
use web4_v.Node.Trade.Execute.{execute_signed_trade}
use web4_v.Node.Trade.Success.{execute_signed_trade-Executed, asked-parties, prepare-Behind}
use web4_v.Node.Trade.Moves.{Swaps, prepared_trade_state-Swaps}

inventory-Swaps :
    {n n' : NodeId} (out : UnitId) (x : ℤ) (inn : UnitId) (y : ℤ) {s s' t t' : InventoryState}
    → n' ≡ n
    → s' ≡ s
    → t ≡ t'
    → Swaps n' out x inn y s' t'
    → Swaps n out x inn y s t
inventory-Swaps out x inn y a b d h = subst3 h a b (sym d)
  where
    subst3 :
        {n n' : NodeId} {s s' t t' : InventoryState}
        → Swaps n' out x inn y s' t'
        → n' ≡ n
        → s' ≡ s
        → t' ≡ t
        → Swaps n out x inn y s t
    subst3 {n} {n'} {s} {s'} {t} {t'} h a b d =
        subst (λ m. Swaps m out x inn y s t) a
          (subst (λ i. Swaps n' out x inn y i t) b (subst (λ i. Swaps n' out x inn y s' i) d h))

balanced :
    (seller buyer out inn u : ℕ) (x y s' b' s b : ℤ)
    → s' +ℤ (if seller == seller && out == u then x else pos 0)
      ≡ s +ℤ (if seller == seller && inn == u then y else pos 0)
    → b' +ℤ (if buyer == buyer && inn == u then y else pos 0)
      ≡ b +ℤ (if buyer == buyer && out == u then x else pos 0)
    → s' +ℤ b' ≡ s +ℤ b
balanced seller buyer out inn u x y s' b' s b h g =
    grind (int_laws, ==_iff seller seller, ==_iff buyer buyer, ==_iff out u, ==_iff inn u)

-- The accounts of a trade that was executed.
module _ (c : Primitives) {F S : Type 0} (fl : Floats F) (ops : StoreOps F S) where
  -- An execution with signatures that succeeds, of a quote with int64 amounts between nodes with
  -- well-formed inventories, moves exactly the amounts of the quote: in the inventory of the seller the
  -- sold amount of the sold unit has gone and the bought amount of the bought unit has come, and the
  -- other way round for the buyer; no other holding of any node has changed, and both inventories are
  -- still well formed.
  pub execute_signed_trade-Swaps :
      (q : Quote F) (seller_sig buyer_sig : SignedTradeIntent) (allow : Bool) (w : World F S)
      (tx : TradeTx) (v : World F S)
      → IsI64 q.sell_amount
      → IsI64 q.buy_amount
      → IsValid w.seller.inventory
      → IsValid w.buyer.inventory
      → execute_signed_trade c fl ops q seller_sig buyer_sig allow w ≡ (ok tx, v)
      → Swaps q.seller q.sell_unit q.sell_amount q.buy_unit q.buy_amount w.seller.inventory
          v.seller.inventory
        × Swaps q.buyer q.buy_unit q.buy_amount q.sell_unit q.sell_amount w.buyer.inventory
            v.buyer.inventory
  unfolding commit_prepared_state
  execute_signed_trade-Swaps q seller_sig buyer_sig allow w tx v hx hy vs vb h =
      let x = execute_signed_trade-Executed c fl ops q seller_sig buyer_sig allow w tx v h in
      let (seller_id, buyer_id) = asked-parties c fl ops q seller_sig buyer_sig w tx v x in
      let behind =
        prepare-Behind c fl ops x.asked.stores x.asked.seller x.asked.buyer q seller_sig buyer_sig
          x.prepared x.is_prepared in
      let is = x.asked_same.seller_same.inventory_kept in
      let ib = x.asked_same.buyer_same.inventory_kept in
      let (for_seller, for_buyer) =
        prepared_trade_state-Swaps fl x.asked.seller x.asked.buyer q seller_sig.intent.timestamp _
          hx hy (subst IsValid (sym is) vs) (subst IsValid (sym ib) vb) behind.next_built in
      (
        inventory-Swaps q.sell_unit q.sell_amount q.buy_unit q.buy_amount seller_id is
            (ap (λ n. n.inventory) x.finished.seller_after) for_seller,
        inventory-Swaps q.buy_unit q.buy_amount q.sell_unit q.sell_amount buyer_id ib
            (ap (λ n. n.inventory) x.finished.buyer_after) for_buyer,
      )

  -- The same trade creates and destroys nothing: of every unit, the two parties together hold what
  -- they held before.
  pub execute_signed_trade-supply :
      (q : Quote F) (seller_sig buyer_sig : SignedTradeIntent) (allow : Bool) (w : World F S)
      (tx : TradeTx) (v : World F S) (u : UnitId)
      → IsI64 q.sell_amount
      → IsI64 q.buy_amount
      → IsValid w.seller.inventory
      → IsValid w.buyer.inventory
      → execute_signed_trade c fl ops q seller_sig buyer_sig allow w ≡ (ok tx, v)
      → get_amount v.seller.inventory q.seller u +ℤ get_amount v.buyer.inventory q.buyer u
        ≡ get_amount w.seller.inventory q.seller u +ℤ get_amount w.buyer.inventory q.buyer u
  execute_signed_trade-supply q seller_sig buyer_sig allow w tx v u hx hy vs vb h =
      let (s, b) = execute_signed_trade-Swaps q seller_sig buyer_sig allow w tx v hx hy vs vb h in
      balanced q.seller q.buyer q.sell_unit q.buy_unit u q.sell_amount q.buy_amount _ _ _ _
        (s.swapped q.seller u) (b.swapped q.buyer u)
