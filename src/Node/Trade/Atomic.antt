-- ===== src/Node/Trade/Atomic.antt =====
-- An execution of core/node/trade.go that fails leaves the books of both nodes as they were.
use web4_v.Base.{
  ℕ, ◌≡◌, refl, sym, Bool, true, false, Result, ok, err, Error, fail_if, fail_if-false, ==_iff,
  nat_eq, inl, inr, Result-cases, >>-eq-ok, trade_replay, arith,
}
use mathlib.Core.Path.{subst}
use web4_v.Base.Dict.{
  Dict, get, insert, erase, IsMap, lookup-erase, lookup-insert, insert-IsMap, erase-IsMap,
}
use web4_v.Floats.{Floats}
use web4_v.Crypto.{Primitives}
use web4_v.Model.Types.{TxId, TradeTx}
use web4_v.Node.{Quote, SignedTradeIntent}
use web4_v.Node.State.{Node}
use web4_v.Node.State.Quiet.{SameBooks, SameBooks-refl, init-SameBooks, accept_quote-Quiet}
use web4_v.Node.Trade.{StoreOps, World, reserve, release, has_executed, reject_in_memory_replay}
use web4_v.Node.Trade.Prepare.{Prepared}
use web4_v.Node.Trade.Step.{Step, follow, ◌>>◌}
use web4_v.Node.Trade.Execute.{
  persisted, reserve_trade, persist_trade, commit_trade, init_nodes, ask_seller, ask_buyer,
  finish_signed_trade, execute_signed_trade, execute_trade,
}
use web4_v.Node.Trade.Clean.{
  BothSame, BothSame-refl, Unchanged, reserved, AreMaps, Keeps, FailsClean, >>=-FailsClean,
  >>-FailsClean, lift-Keeps, current-Keeps,
}

-- A reservation that is taken back, of a trade that did not count as executed.
released :
    (id t : TxId) (d : Dict TxId Bool)
    → IsMap d
    → get false id d ≡ false
    → get false t (erase id (insert id true d)) ≡ get false t d
released id t d m fresh = ground (
  arith,
  lookup-erase id t (insert id true d) (insert-IsMap id true d m),
  lookup-insert id t true d,
  ==_iff id t,
)

release-reserve-SameBooks :
    {F : Type 0} (n : Node F) (id : TxId)
    → IsMap n.executed_trades
    → has_executed n id ≡ false
    → SameBooks n (release id (reserve id n))
release-reserve-SameBooks n id m fresh = record {
  id_kept = refl;
  inventory_kept = refl;
  flow_kept = refl;
  history_kept = refl;
  volume_kept = refl;
  time_kept = refl;
  store_kept = refl;
  executed_kept = λ t. released id t n.executed_trades m fresh;
  distinct_kept = λ d. erase-IsMap id _ (insert-IsMap id true n.executed_trades d);
}

pub reject_in_memory_replay-fresh :
    {F : Type 0} (seller buyer : Node F) (id : TxId)
    → reject_in_memory_replay seller buyer id ≡ ok tt
    → (has_executed seller id ≡ false) × (has_executed buyer id ≡ false)
unfolding reject_in_memory_replay
reject_in_memory_replay-fresh seller buyer id e =
    let (first, e1) = >>-eq-ok (fail_if (has_executed seller id) trade_replay) _ e in
    (
      fail_if-false (has_executed seller id) trade_replay first,
      fail_if-false (has_executed buyer id) trade_replay e1,
    )

module _ (c : Primitives) {F S : Type 0} (fl : Floats F) (ops : StoreOps F S) where
  pub init_nodes-Keeps : Keeps (init_nodes {S = S} fl)
  unfolding init_nodes
  init_nodes-Keeps = record {
    keeps = λ w. record {
      seller_same = init-SameBooks fl w.seller;
      buyer_same = init-SameBooks fl w.buyer;
    };
  }

  pub ask_seller-Keeps : (q : Quote F) → Keeps (ask_seller {S = S} fl q)
  unfolding ask_seller
  ask_seller-Keeps q = record {
    keeps = λ w. record {
      seller_same = accept_quote-Quiet fl w.seller q;
      buyer_same = SameBooks-refl w.buyer;
    };
  }

  pub ask_buyer-Keeps : (q : Quote F) → Keeps (ask_buyer {S = S} fl q)
  unfolding ask_buyer
  ask_buyer-Keeps q = record {
    keeps = λ w. record {
      seller_same = SameBooks-refl w.seller;
      buyer_same = accept_quote-Quiet fl w.buyer q;
    };
  }

  commit_trade-FailsClean : (p r : Node F) (tx : TradeTx) → FailsClean (commit_trade {S = S} p r tx)
  unfolding commit_trade
  commit_trade-FailsClean p r tx = record { clean = λ w maps. tt }

  pub reserve_trade-fresh :
      (id : TxId) (w : World F S)
      → reject_in_memory_replay w.seller w.buyer id ≡ ok tt
      → reserve_trade ops id w ≡ (ok tt, reserved id w)
  unfolding reserve_trade
  reserve_trade-fresh id w fresh = rw (fresh, reserve_trade) refl

  pub reserve_trade-replay :
      (id : TxId) (w : World F S) (e : Error)
      → reject_in_memory_replay w.seller w.buyer id ≡ err e
      → reserve_trade ops id w ≡ (err e, w)
  unfolding reserve_trade
  reserve_trade-replay id w e refused = rw (refused, reserve_trade) refl

  -- Whatever the stores answer.
  persisted-Unchanged :
      (p : Prepared F) (w : World F S) (r : Result (Unit {0}) × (ℕ → S))
      → AreMaps w
      → reject_in_memory_replay w.seller w.buyer p.auth_id ≡ ok tt
      → Unchanged w (
          follow
            (persisted ops (reserved p.auth_id w) p.auth_id r)
            (λ _. commit_trade p.next_seller p.next_buyer p.tx))
  unfolding commit_trade
  persisted-Unchanged p w (ok _, stores) maps fresh = tt
  persisted-Unchanged p w (err e, stores) maps fresh =
      let (s, b) = reject_in_memory_replay-fresh w.seller w.buyer p.auth_id fresh in
      record {
        seller_same = release-reserve-SameBooks w.seller p.auth_id maps.0 s;
        buyer_same = release-reserve-SameBooks w.buyer p.auth_id maps.1 b;
      }

  finish_signed_trade-FailsClean : (p : Prepared F) → FailsClean (finish_signed_trade c fl ops p)
  unfolding finish_signed_trade persist_trade
  finish_signed_trade-FailsClean p = record { clean = whatever }
    where
      rest : Step F S TradeTx
      rest = persist_trade ops p >> commit_trade p.next_seller p.next_buyer p.tx

      whatever :
          (w : World F S)
          → AreMaps w
          → Unchanged w (follow (reserve_trade ops p.auth_id w) (λ _. rest))
      whatever w maps = elim (Result-cases (reject_in_memory_replay w.seller w.buyer p.auth_id)) [
        | inr (e, refused) ↦
            subst (λ r. Unchanged w (follow r (λ _. rest)))
              (sym (reserve_trade-replay p.auth_id w e refused)) (BothSame-refl w)
        | inl (_, fresh) ↦
            subst (λ r. Unchanged w (follow r (λ _. rest)))
              (sym (reserve_trade-fresh p.auth_id w fresh)) (persisted-Unchanged p w _ maps fresh)
      ]

  execute_signed_trade-FailsClean :
      (q : Quote F) (seller_sig buyer_sig : SignedTradeIntent) (allow : Bool)
      → FailsClean (execute_signed_trade c fl ops q seller_sig buyer_sig allow)
  unfolding execute_signed_trade
  execute_signed_trade-FailsClean q seller_sig buyer_sig allow = >>-FailsClean init_nodes-Keeps (
      >>=-FailsClean current-Keeps (λ w. >>-FailsClean lift-Keeps (
        >>-FailsClean (ask_seller-Keeps q) (
          >>-FailsClean (ask_buyer-Keeps q) (
            >>=-FailsClean current-Keeps
              (λ asked. >>=-FailsClean lift-Keeps (λ p. finish_signed_trade-FailsClean p)))))))

  execute_trade-FailsClean : (q : Quote F) → FailsClean (execute_trade c fl ops q)
  unfolding execute_trade
  execute_trade-FailsClean q = >>-FailsClean init_nodes-Keeps (
      >>=-FailsClean current-Keeps (λ w. >>-FailsClean lift-Keeps (
        >>-FailsClean (ask_seller-Keeps q) (
          >>-FailsClean (ask_buyer-Keeps q) (
            >>=-FailsClean current-Keeps
              (λ asked. >>=-FailsClean lift-Keeps (λ p. commit_trade-FailsClean p.1 p.2 p.0)))))))

  -- Its error, and what it has left.
  Unchanged-err :
      {A : Type 0} (w : World F S) (r : Result A × World F S) (e : Error)
      → Unchanged w r
      → r.0 ≡ err e
      → BothSame w r.1
  Unchanged-err w (ok a, v) e h fails = absurd (cc)
  Unchanged-err w (err _, v) e h fails = h

  -- An execution with signatures that fails, at nodes whose maps name no trade twice, has changed
  -- nothing in the two nodes but their prices: the inventories, flows, histories, volumes and times are
  -- the same, and so are the trades that count as executed.
  pub execute_signed_trade-Unchanged :
      (q : Quote F) (seller_sig buyer_sig : SignedTradeIntent) (allow : Bool) (w : World F S)
      (e : Error)
      → AreMaps w
      → (execute_signed_trade c fl ops q seller_sig buyer_sig allow w).0 ≡ err e
      → BothSame w (execute_signed_trade c fl ops q seller_sig buyer_sig allow w).1
  execute_signed_trade-Unchanged q seller_sig buyer_sig allow w e maps fails =
      Unchanged-err w (execute_signed_trade c fl ops q seller_sig buyer_sig allow w) e
        ((execute_signed_trade-FailsClean q seller_sig buyer_sig allow).clean w maps) fails

  -- An execution without signatures that fails, at nodes whose maps name no trade twice, has changed
  -- nothing in the two nodes but their prices either.
  execute_trade-Unchanged :
      (q : Quote F) (w : World F S) (e : Error)
      → AreMaps w
      → (execute_trade c fl ops q w).0 ≡ err e
      → BothSame w (execute_trade c fl ops q w).1
  execute_trade-Unchanged q w e maps fails =
      Unchanged-err w (execute_trade c fl ops q w) e ((execute_trade-FailsClean q).clean w maps)
        fails
