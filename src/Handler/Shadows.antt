-- ===== src/Handler/Shadows.antt =====
-- The peer as a node of its own (`peerShadow`, `configureUnit` and `executionParties` of
-- core/handler/handler.go), with which a handler quotes and executes a trade.
pub mod Valid
use web4_v.Base.{
  ℕ, ◌+◌, ◌*◌, Bool, true, false, not, Option, none, some, Result, ok, err, if◌then◌else◌, ◌==◌,
  nat_eq, panicked, Error,
}
use web4_v.Base.Int.{ℤ, pos, negsuc, ltb_ℤ, wrap64}
use web4_v.Base.Dict.{insert}
use web4_v.Floats.{Floats}
use web4_v.Price.{AssetFeatures}
use web4_v.Model.Types.{Bytes, UnitId, NodeId, TradeTx}
use web4_v.Node.{Quote, AuthorizedTradeTx}
use web4_v.Node.State.{Node, new_blank_node, default_price_config}
use web4_v.Node.Prices.{node_compute_price}
use web4_v.Node.Quoting.{quote_sell}
use web4_v.Node.Signing.{add_inventory, sign_quote}
use web4_v.Node.{SignedTradeIntent}
use web4_v.Node.Trade.{World}
use web4_v.Node.Trade.Execute.{execute_signed_trade}
use web4_v.Handler.Session.{QuoteRequest}
use web4_v.Handler.Tasks.{Services, Handler}
use web4_v.Handler.Tasks.Steps.{Task, ◌>>=◌, lift, current}

-- `math.MaxInt64 / 10`
abbrev pub tenth_of_max : ℤ
tenth_of_max = pos 922337203685477580

-- `amount * 10`
abbrev pub times_ten : ℤ → ℤ
times_ten (pos n) = wrap64 (pos (10 * n))
times_ten (negsuc n) = wrap64 (negsuc (10 * n + 9))

abbrev pub shadow_amount : ℤ → ℤ
shadow_amount amount = if ltb_ℤ tenth_of_max amount then amount else times_ten amount

module _ {F : Type 0} (fl : Floats F) where
  abbrev unit_cost : AssetFeatures F
  unit_cost = record {
    cost = fl.of_int (pos 1);
    age = fl.of_int (pos 0);
    stability = fl.of_int (pos 0);
  }

  unfoldable pub configure_unit : Node F → UnitId → Node F
  configure_unit n unit =
      let configured : Node F = record n {
        features = insert unit unit_cost n.features;
        price_config = default_price_config fl;
      } in
      (node_compute_price fl configured unit).1

  -- `peerShadow`, with the reading of the local clock: a panic of `AddInventory` is `none`.
  unfoldable pub peer_shadow : ℤ → NodeId → UnitId → UnitId → ℤ → Option (Node F)
  peer_shadow now id inventory_unit price_unit amount =
      let peer = configure_unit (new_blank_node fl id now) inventory_unit in
      add_inventory fl (configure_unit peer price_unit) inventory_unit (shadow_amount amount)

  -- The shadow of `executionParties`, of the party that is not the local node.
  unfoldable pub execution_shadow : Node F → Quote F → AuthorizedTradeTx → Option (Node F)
  execution_shadow n q auth =
      if n.id == q.seller
      then (elim (peer_shadow n.now_unix q.buyer q.buy_unit q.sell_unit q.buy_amount) [
        | none ↦ none
        | some peer ↦ some (record peer { public_key = auth.buyer_auth.public_key })
      ])
      else (elim (peer_shadow n.now_unix q.seller q.sell_unit q.buy_unit q.sell_amount) [
        | none ↦ none
        | some peer ↦ some (record peer { public_key = auth.seller_auth.public_key })
      ])

-- The rest of `executionParties`: the seller, the buyer and the stores.
abbrev pub parties : {F S : Type 0} → Handler F S → Quote F → Node F → World F S
parties h q peer =
    if h.node.id == q.seller
    then (record { seller = h.node; buyer = peer; stores = h.stores })
    else (record { seller = peer; buyer = h.node; stores = h.stores })

-- The handler with its node after an execution: the shadow is dropped.
abbrev pub after_execution : {F S : Type 0} → Handler F S → Quote F → World F S → Handler F S
after_execution h q w = record h {
  node = if h.node.id == q.seller then w.seller else w.buyer;
  stores = w.stores;
}

abbrev pub or_panic : {A : Type 0} → Option A → Result A
or_panic none = err panicked
or_panic (some a) = ok a

abbrev is_panic : Error → Bool
is_panic panicked = true
is_panic _ = false

-- An error that is returned is a value for the caller, and a panic unwinds the handler.
abbrev pub caught : {A : Type 0} → Result A → Result (Result A)
caught (ok a) = ok (ok a)
caught (err why) = if is_panic why then err panicked else ok (err why)

module _ {F S : Type 0} (x : Services F S) where
  -- `h.peerShadow(…)`
  unfoldable pub shadow_of : NodeId → UnitId → UnitId → ℤ → Task F S (Node F)
  shadow_of id inventory_unit price_unit amount = do
    h ← current
    lift (or_panic (peer_shadow x.floats h.node.now_unix id inventory_unit price_unit amount))

  -- `h.Node.QuoteSell(peer, …)`
  unfoldable pub quote_peer : Node F → QuoteRequest F → Task F S (Quote F)
  quote_peer peer p h =
      let (quote, n, _) =
        quote_sell x.floats h.node (some peer) p.sell_unit p.buy_unit p.sell_amount
          p.spread_limit in
      (quote, record h { node = n })

  -- `h.Node.SignQuote(quote)`, with its error as a value.
  unfoldable pub try_sign : Quote F → Task F S (Result SignedTradeIntent)
  try_sign q h =
      let (intent, n) = sign_quote x.floats x.crypto h.node q in (ok intent, record h { node = n })

  -- `ExecuteSignedTradeWithPeerShadow`, with its error as a value, but for a panic of
  -- `combinedInventory`.
  unfoldable pub try_execute : Quote F → AuthorizedTradeTx → Node F → Task F S (Result TradeTx)
  try_execute q auth peer h =
      let (tx, w) =
        execute_signed_trade x.crypto x.floats x.store_ops q auth.seller_auth auth.buyer_auth true
          (parties h q peer) in
      (caught tx, after_execution h q w)

  -- `executionParties` and the execution.
  unfoldable pub execute_with_shadow : Quote F → AuthorizedTradeTx → Task F S (Result TradeTx)
  execute_with_shadow q auth = do
    h ← current
    peer ← lift (or_panic (execution_shadow x.floats h.node q auth))
    try_execute q auth peer
