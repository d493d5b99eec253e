-- ===== src/Node/Trade/Execute.antt =====
-- `executeSignedTrade` and `ExecuteTrade` of core/node/trade.go, as steps on the two nodes and the stores.
use web4_v.Base.{
  ℕ, Bool, not, List, [], ◌∷◌, Option, none, some, Result, ok, err, fail_if, if◌then◌else◌, ◌==◌,
  seller_rejected, buyer_rejected,
}
use web4_v.Floats.{Floats}
use web4_v.Crypto.{Primitives}
use web4_v.Model.Types.{TxId, TradeTx}
use web4_v.Node.{Quote, SignedTradeIntent, AuthorizedTradeTx}
use web4_v.Node.State.{Node, init, accept_quote}
use web4_v.Node.Trade.{
  StoreOps, World, PersistedNodeState, persisted_node_state, commit_prepared_state,
  reject_in_memory_replay, reserve, release,
}
use web4_v.Node.Trade.Prepare.{Prepared, authorize, prepare, check_parties, prepare_unsigned}
use web4_v.Node.Trade.Step.{Step, ◌>>=◌, ◌>>◌, lift, current}

module _ {F S : Type 0} (ops : StoreOps F S) where
  -- A call of `PersistExecutedTrade`, with the stores after it.
  unfoldable pub persist_in :
      (ℕ → S)
      → ℕ
      → TxId
      → AuthorizedTradeTx
      → List (PersistedNodeState F)
      → Result (Unit {0}) × (ℕ → S)
  persist_in stores at id auth states =
      let (r, after) = ops.persist_executed_trade (stores at) id auth states in
      (r, λ i. if i == at then after else stores i)

  abbrev persist_next :
      Result (Unit {0}) × (ℕ → S)
      → ((ℕ → S) → Result (Unit {0}) × (ℕ → S))
      → Result (Unit {0}) × (ℕ → S)
  persist_next (ok _, stores) rest = rest stores
  persist_next (err e, stores) rest = (err e, stores)

  -- `persistSignedTrade`, on the stores of the two nodes.
  unfoldable pub persist_signed_trade :
      (ℕ → S)
      → Option ℕ
      → Option ℕ
      → TxId
      → AuthorizedTradeTx
      → PersistedNodeState F
      → PersistedNodeState F
      → Result (Unit {0}) × (ℕ → S)
  unfolding persist_in
  persist_signed_trade stores none none id auth seller buyer = (ok tt, stores)
  persist_signed_trade stores (some a) none id auth seller buyer =
      persist_in stores a id auth (seller ∷ [])
  persist_signed_trade stores none (some b) id auth seller buyer =
      persist_in stores b id auth (buyer ∷ [])
  persist_signed_trade stores (some a) (some b) id auth seller buyer =
      if a == b
      then persist_in stores a id auth (seller ∷ buyer ∷ [])
      else persist_next (persist_in stores a id auth (seller ∷ []))
          (λ after. persist_in after b id auth (buyer ∷ []))

  -- `reserveInMemoryReplay`
  unfoldable pub reserve_trade : TxId → Step F S (Unit {0})
  reserve_trade id w = elim (reject_in_memory_replay w.seller w.buyer id) [
    | err e ↦ (err e, w)
    | ok _ ↦ (ok tt, record w { seller = reserve id w.seller; buyer = reserve id w.buyer })
  ]

  -- What is left of a call of `persistSignedTrade`: if it failed, the reservations are taken back.
  abbrev pub persisted :
      World F S → TxId → Result (Unit {0}) × (ℕ → S) → Result (Unit {0}) × World F S
  persisted w id (ok _, stores) = (ok tt, record w { stores = stores })
  persisted w id (err e, stores) = (
    err e,
    record w { seller = release id w.seller; buyer = release id w.buyer; stores = stores },
  )

  unfoldable pub persist_trade : Prepared F → Step F S (Unit {0})
  unfolding persist_signed_trade
  persist_trade p w = persisted w p.auth_id (
      persist_signed_trade w.stores w.seller.store w.buyer.store p.auth_id p.auth
        (persisted_node_state w.seller.id p.next_seller)
        (persisted_node_state w.buyer.id p.next_buyer))

-- The two calls of `commitPreparedState`, and the transaction that is returned.
unfoldable pub commit_trade : {F S : Type 0} → Node F → Node F → TradeTx → Step F S TradeTx
commit_trade next_seller next_buyer tx w = (
  ok tx,
  record w {
    seller = commit_prepared_state w.seller next_seller;
    buyer = commit_prepared_state w.buyer next_buyer;
  },
)

module _ {F S : Type 0} (fl : Floats F) where
  -- `seller.init()` and `buyer.init()`
  unfoldable pub init_nodes : Step F S (Unit {0})
  init_nodes w = (ok tt, record w { seller = init fl w.seller; buyer = init fl w.buyer })

  unfoldable pub ask_seller : Quote F → Step F S (Unit {0})
  ask_seller q w =
      let (accepted, seller) = accept_quote fl w.seller q in
      (fail_if (not accepted) seller_rejected, record w { seller = seller })

  unfoldable pub ask_buyer : Quote F → Step F S (Unit {0})
  ask_buyer q w =
      let (accepted, buyer) = accept_quote fl w.buyer q in
      (fail_if (not accepted) buyer_rejected, record w { buyer = buyer })

module _ (c : Primitives) {F S : Type 0} (fl : Floats F) (ops : StoreOps F S) where
  -- From the prepared trade on.
  unfoldable pub finish_signed_trade : Prepared F → Step F S TradeTx
  finish_signed_trade p = do
    reserve_trade ops p.auth_id
    persist_trade ops p
    commit_trade p.next_seller p.next_buyer p.tx

  unfoldable pub execute_signed_trade :
      Quote F → SignedTradeIntent → SignedTradeIntent → Bool → Step F S TradeTx
  execute_signed_trade q seller_sig buyer_sig allow_peer_shadow = do
    init_nodes fl
    w ← current
    lift (authorize c w.seller w.buyer q seller_sig buyer_sig allow_peer_shadow)
    ask_seller fl q
    ask_buyer fl q
    asked ← current
    p ← lift (prepare c fl ops asked.stores asked.seller asked.buyer q seller_sig buyer_sig)
    finish_signed_trade p

  -- `ExecuteTrade`, which needs no signatures and guards against no replay.
  unfoldable pub execute_trade : Quote F → Step F S TradeTx
  execute_trade q = do
    init_nodes fl
    w ← current
    lift (check_parties w.seller w.buyer q)
    ask_seller fl q
    ask_buyer fl q
    asked ← current
    p ← lift (prepare_unsigned c fl asked.seller asked.buyer q)
    commit_trade p.1 p.2 p.0
