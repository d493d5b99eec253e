-- ===== src/Node/Trade/Replay.antt =====
-- No trade is executed twice with signatures (core/node/trade.go), whatever is executed in between.
use web4_v.Base.{
  ◌≡◌, ◌≢◌, sym, ◌∙◌, ap, Bool, true, false, List, [], ◌∷◌, Result, ok, ◌>>=◌, ◌==◌, nat_eq, inl,
  inr, Result-cases, ok-inj, if◌then◌else◌, arith,
}
use web4_v.Base.Dict.{Dict, IsMap, get, insert, lookup-insert, insert-IsMap}
use web4_v.Floats.{Floats}
use web4_v.Crypto.{Primitives}
use web4_v.Model.Types.{TxId, NodeId, TradeTx}
use web4_v.Node.{Quote, SignedTradeIntent}
use web4_v.Node.Intents.{authorized_trade_id}
use web4_v.Node.State.{Node}
use web4_v.Node.State.Quiet.{SameBooks}
use web4_v.Node.Trade.{StoreOps, World, settlement_tx, has_executed, reserve, commit_prepared_state}
use web4_v.Node.Trade.Execute.{execute_signed_trade}
use web4_v.Node.Trade.Clean.{AreMaps}
use web4_v.Node.Trade.Atomic.{execute_signed_trade-Unchanged}
use web4_v.Node.Trade.Success.{
  Executed, prepare-Behind, asked-parties, execute_signed_trade-Executed,
}

-- What a client asks for with a call of `ExecuteSignedTrade`.
pub record Order (F : Type 0) : Type 0 where
  pub quote : Quote F
  pub seller_sig : SignedTradeIntent
  pub buyer_sig : SignedTradeIntent
  pub allow_peer_shadow : Bool

-- The id under which a trade of two nodes is recorded.
abbrev trade_id_between :
    {F : Type 0}
    → Primitives
    → NodeId
    → NodeId
    → Quote F
    → SignedTradeIntent
    → SignedTradeIntent
    → Result TxId
trade_id_between c seller buyer q seller_sig buyer_sig = do
  tx ← settlement_tx c seller buyer q seller_sig.intent.timestamp
  authorized_trade_id c (record { tx = tx; seller_auth = seller_sig; buyer_auth = buyer_sig })

module _ (c : Primitives) {F S : Type 0} (fl : Floats F) (ops : StoreOps F S) where
  abbrev pub execute : Order F → World F S → Result TradeTx × World F S
  execute o w = execute_signed_trade c fl ops o.quote o.seller_sig o.buyer_sig o.allow_peer_shadow w

  -- One execution after the other, those that fail included.
  abbrev pub run : List (Order F) → World F S → World F S
  run [] w = w
  run (o ∷ os) w = run os (execute o w).1

  -- What is marked after a trade was.
  get-insert :
      (id t : TxId) (d : Dict TxId Bool)
      → get false t (insert id true d) ≡ (if id == t then true else get false t d)
  get-insert id t d = ground (arith, lookup-insert id t true d)

  -- The marks of a node after its trade was committed.
  committed-marks :
      (id t : TxId) (n asked next m : Node F)
      → SameBooks n asked
      → m ≡ commit_prepared_state (reserve id asked) next
      → has_executed m t ≡ (if id == t then true else has_executed n t)
  unfolding commit_prepared_state
  committed-marks id t n asked next m same after =
      let kept : m.executed_trades ≡ insert id true asked.executed_trades =
        ap (λ x. x.executed_trades) after in
      rw kept (
        get-insert id t asked.executed_trades
        ∙ ap (λ x. if id == t then true else x) (same.executed_kept t))

  committed-IsMap :
      (id : TxId) (n asked next m : Node F)
      → SameBooks n asked
      → m ≡ commit_prepared_state (reserve id asked) next
      → IsMap n.executed_trades
      → IsMap m.executed_trades
  unfolding commit_prepared_state
  committed-IsMap id n asked next m same after h =
      let kept : m.executed_trades ≡ insert id true asked.executed_trades =
        ap (λ x. x.executed_trades) after in
      rw kept (insert-IsMap id true asked.executed_trades (same.distinct_kept h))

  -- The trade that was executed, and the marks that it has left.
  record Marked (o : Order F) (w v : World F S) : Type 0 where
    id : TxId
    id_built :
        trade_id_between c o.quote.seller o.quote.buyer o.quote o.seller_sig o.buyer_sig ≡ ok id
    seller_fresh : has_executed w.seller id ≡ false
    seller_marks :
        (t : TxId) → has_executed v.seller t ≡ (if id == t then true else has_executed w.seller t)
    maps_kept : AreMaps w → AreMaps v

  Executed-Marked :
      (o : Order F) (w : World F S) (tx : TradeTx) (v : World F S)
      → Executed c fl ops o.quote o.seller_sig o.buyer_sig w tx v
      → Marked o w v
  unfolding settlement_tx
  Executed-Marked o w tx v x =
      let p = x.prepared in
      let f = x.finished in
      let s = x.asked_same.seller_same in
      let b = x.asked_same.buyer_same in
      let (seller_id, buyer_id) =
        asked-parties c fl ops o.quote o.seller_sig o.buyer_sig w tx v x in
      let behind =
        prepare-Behind c fl ops x.asked.stores x.asked.seller x.asked.buyer o.quote o.seller_sig
          o.buyer_sig p x.is_prepared in
      record {
        id = p.auth_id;
        id_built = rw (← seller_id, ← buyer_id, behind.tx_built) behind.id_built;
        seller_fresh = sym (s.executed_kept p.auth_id) ∙ f.seller_fresh;
        seller_marks = λ t.
            committed-marks p.auth_id t w.seller x.asked.seller p.next_seller v.seller s
              f.seller_after;
        maps_kept = λ maps. (
          committed-IsMap p.auth_id w.seller x.asked.seller p.next_seller v.seller s f.seller_after
              maps.0,
          committed-IsMap p.auth_id w.buyer x.asked.buyer p.next_buyer v.buyer b f.buyer_after
              maps.1,
        );
      }

  -- What later executions leave: a trade that counts as executed still does.
  abbrev Grows : World F S → World F S → Type 0
  Grows w v =
      AreMaps v × ((t : TxId) → has_executed w.seller t ≡ true → has_executed v.seller t ≡ true)

  execute-Grows : (o : Order F) (w : World F S) → AreMaps w → Grows w (execute o w).1
  execute-Grows o w maps = elim (Result-cases (execute o w).0) [
    | inl (tx, done) ↦
        let m = Executed-Marked o w tx _ (
          execute_signed_trade-Executed c fl ops o.quote o.seller_sig o.buyer_sig
            o.allow_peer_shadow w tx _ (ap (λ r. (r, (execute o w).1)) done)) in
        (m.maps_kept maps, λ t h. m.seller_marks t ∙ ground (arith))
    | inr (e, fails) ↦
        let same =
          execute_signed_trade-Unchanged c fl ops o.quote o.seller_sig o.buyer_sig
            o.allow_peer_shadow w e maps fails in
        (
          (same.seller_same.distinct_kept maps.0, same.buyer_same.distinct_kept maps.1),
          λ t h. same.seller_same.executed_kept t ∙ h,
        )
  ]

  run-Grows : (os : List (Order F)) (w : World F S) → AreMaps w → Grows w (run os w)
  run-Grows [] w maps = (maps, λ t h. h)
  run-Grows (o ∷ os) w maps =
      let (maps1, grows) = execute-Grows o w maps in
      let (maps2, grows') = run-Grows os (execute o w).1 maps1 in
      (maps2, λ t h. grows' t (grows t h))

  -- A trade that was executed with signatures is never executed again: after any sequence of
  -- executions, whether they fail or not, one with the same quote and the same signatures fails, if
  -- the maps of the nodes name no trade twice at first.
  pub execute-no_replay :
      (o : Order F) (allow : Bool) (later : List (Order F)) (w : World F S) (tx tx' : TradeTx)
      → AreMaps w
      → (execute o w).0 ≡ ok tx
      → (execute (record o { allow_peer_shadow = allow }) (run later (execute o w).1)).0 ≢ ok tx'
  execute-no_replay o allow later w tx tx' maps done again =
      let v = (execute o w).1 in
      let u = run later v in
      let o' = record o { allow_peer_shadow = allow } in
      let m = Executed-Marked o w tx _ (
        execute_signed_trade-Executed c fl ops o.quote o.seller_sig o.buyer_sig o.allow_peer_shadow
          w tx _ (ap (λ r. (r, v)) done)) in
      let m' = Executed-Marked o' u tx' _ (
        execute_signed_trade-Executed c fl ops o.quote o.seller_sig o.buyer_sig allow u tx' _
          (ap (λ r. (r, (execute o' u).1)) again)) in
      let same : m.id ≡ m'.id = ok-inj _ _ (sym m.id_built ∙ m'.id_built) in
      let kept =
        (run-Grows later v (m.maps_kept maps)).1 m.id (m.seller_marks m.id ∙ ground (arith)) in
      absurd (clash _ kept (ap (has_executed u.seller) same ∙ m'.seller_fresh))
    where
      clash : (b : Bool) → b ≡ true → b ≡ false → ⊥
      clash b h k = cc
