-- ===== src/Node/Trade/Success.antt =====
-- What an execution of core/node/trade.go that succeeds has checked and done.
use web4_v.Base.{
  ℕ, ◌≡◌, refl, sym, ◌∙◌, ap, Bool, false, Result, ok, err, Error, inl, inr, Result-cases, ok-inj,
  >>-eq-ok, >>=-eq-ok, fail_if, split_stores, fail_if-false, ◌||◌, not, ◌==◌, ==_iff,
  quote_parties_mismatch, quote_not_executable, arith,
}
use mathlib.Core.Path.{subst}
use web4_v.Floats.{Floats}
use web4_v.Crypto.{Primitives}
use web4_v.Model.Types.{TradeTx}
use web4_v.Node.{Quote, SignedTradeIntent}
use web4_v.Node.State.{Node, init}
use web4_v.Node.State.Quiet.{init-SameBooks}
use web4_v.Model.Inventory.{InventoryState}
use web4_v.Model.Trade.{validate_trade_tx}
use web4_v.Node.Intents.{authorized_trade_id}
use web4_v.Node.Trade.{
  settlement_tx, combined_inventory, are_split, StoreOps, World, commit_prepared_state, reserve,
  has_executed, reject_in_memory_replay,
}
use web4_v.Node.Trade.Prepare.{
  Prepared, authorize, prepare, prepared_trade_state, reject_replay_check, other_store,
}
use web4_v.Node.Trade.Step.{Step, follow, ◌>>◌, lift}
use web4_v.Node.Trade.Execute.{
  persisted, persist_trade, commit_trade, init_nodes, ask_seller, ask_buyer, finish_signed_trade,
  execute_signed_trade,
}
use web4_v.Node.Trade.Clean.{BothSame, BothSame-trans, reserved}
use web4_v.Node.Trade.Atomic.{
  reject_in_memory_replay-fresh, init_nodes-Keeps, ask_seller-Keeps, ask_buyer-Keeps,
  reserve_trade-fresh, reserve_trade-replay,
}

-- How a chain of steps ended well.
follow-done :
    {F S A B : Type 0} (r : Result A × World F S) (next : A → Step F S B) (b : B) (v : World F S)
    → follow r next ≡ (ok b, v)
    → (a : A) × (r.0 ≡ ok a) × (next a r.1 ≡ (ok b, v))
follow-done (ok a, w) next b v h = (a, refl, h)
follow-done (err e, w) next b v h = absurd (cc)

-- The trade was prepared as `p` on the nodes of `asked`, and is executed in `v`.
pub record Finished {F S : Type 0} (asked : World F S) (p : Prepared F) (tx : TradeTx)
    (v : World F S) : Type 0 where
  pub seller_fresh : has_executed asked.seller p.auth_id ≡ false
  pub buyer_fresh : has_executed asked.buyer p.auth_id ≡ false
  pub seller_after : v.seller ≡ commit_prepared_state (reserve p.auth_id asked.seller) p.next_seller
  pub buyer_after : v.buyer ≡ commit_prepared_state (reserve p.auth_id asked.buyer) p.next_buyer
  pub tx_prepared : tx ≡ p.tx

module _ (c : Primitives) {F S : Type 0} (fl : Floats F) (ops : StoreOps F S) where
  persisted-done :
      (p : Prepared F) (w : World F S) (r : Result (Unit {0}) × (ℕ → S)) (tx : TradeTx)
      (v : World F S)
      → reject_in_memory_replay w.seller w.buyer p.auth_id ≡ ok tt
      → follow
          (persisted ops (reserved p.auth_id w) p.auth_id r)
          (λ _. commit_trade p.next_seller p.next_buyer p.tx)
        ≡ (ok tx, v)
      → Finished w p tx v
  unfolding commit_trade
  persisted-done p w (err e, stores) tx v fresh h = absurd (cc)
  persisted-done p w (ok _, stores) tx v fresh h =
      let (s, b) = reject_in_memory_replay-fresh w.seller w.buyer p.auth_id fresh in
      record {
        seller_fresh = s;
        buyer_fresh = b;
        seller_after = sym (ap (λ x. x.1.seller) h);
        buyer_after = sym (ap (λ x. x.1.buyer) h);
        tx_prepared = sym (ok-inj _ _ (ap (λ x. x.0) h));
      }

  finish_signed_trade-Finished :
      (p : Prepared F) (w : World F S) (tx : TradeTx) (v : World F S)
      → finish_signed_trade c fl ops p w ≡ (ok tx, v)
      → Finished w p tx v
  unfolding finish_signed_trade persist_trade
  finish_signed_trade-Finished p w tx v h =
      elim (Result-cases (reject_in_memory_replay w.seller w.buyer p.auth_id)) [
        | inr (e, refused) ↦ absurd (
            ends (
              subst (λ r. follow r (λ _. rest) ≡ (ok tx, v))
                (reserve_trade-replay c fl ops p.auth_id w e refused) h))
        | inl (_, fresh) ↦ persisted-done p w _ tx v fresh (
            subst (λ r. follow r (λ _. rest) ≡ (ok tx, v))
              (reserve_trade-fresh c fl ops p.auth_id w fresh) h)
      ]
    where
      rest : Step F S TradeTx
      rest = persist_trade ops p >> commit_trade p.next_seller p.next_buyer p.tx

      ends :
          {e : Error} {u : World F S}
          → ◌≡◌ {A = Result TradeTx × World F S} (err e, u) (ok tx, v)
          → ⊥
      ends k = cc

  -- What is behind a trade that was executed.
  pub record Executed (q : Quote F) (seller_sig buyer_sig : SignedTradeIntent) (w : World F S)
      (tx : TradeTx) (v : World F S) : Type 0 where
    pub asked : World F S
    pub prepared : Prepared F
    pub allow : Bool
    pub asked_same : BothSame w asked
    pub authorized :
        authorize c (init fl w.seller) (init fl w.buyer) q seller_sig buyer_sig allow ≡ ok tt
    pub is_prepared :
        prepare c fl ops asked.stores asked.seller asked.buyer q seller_sig buyer_sig ≡ ok prepared
    pub finished : Finished asked prepared tx v

  pub execute_signed_trade-Executed :
      (q : Quote F) (seller_sig buyer_sig : SignedTradeIntent) (allow : Bool) (w : World F S)
      (tx : TradeTx) (v : World F S)
      → execute_signed_trade c fl ops q seller_sig buyer_sig allow w ≡ (ok tx, v)
      → Executed q seller_sig buyer_sig w tx v
  unfolding execute_signed_trade init_nodes
  execute_signed_trade-Executed q seller_sig buyer_sig allow w tx v h =
      let w1 = (init_nodes {S = S} fl w).1 in
      let (_, authorized, h2) =
        follow-done (lift (authorize c w1.seller w1.buyer q seller_sig buyer_sig allow) w1) _ tx v
          h in
      let (_, _, h3) = follow-done (ask_seller fl q w1) _ tx v h2 in
      let w2 = (ask_seller {S = S} fl q w1).1 in
      let (_, _, h4) = follow-done (ask_buyer fl q w2) _ tx v h3 in
      let w3 = (ask_buyer {S = S} fl q w2).1 in
      let (p, is_prepared, h5) =
        follow-done (lift (prepare c fl ops w3.stores w3.seller w3.buyer q seller_sig buyer_sig) w3)
          _ tx v h4 in
      record {
        asked = w3;
        prepared = p;
        allow = allow;
        asked_same = BothSame-trans w w1 w3 ((init_nodes-Keeps c fl ops).keeps w) (
            BothSame-trans w1 w2 w3 ((ask_seller-Keeps c fl ops q).keeps w1)
              ((ask_buyer-Keeps c fl ops q).keeps w2));
        authorized = authorized;
        is_prepared = is_prepared;
        finished = finish_signed_trade-Finished p w3 tx v h5;
      }

  authorize-parties :
      (seller buyer : Node F) (q : Quote F) (s b : SignedTradeIntent) (allow : Bool)
      → authorize c seller buyer q s b allow ≡ ok tt
      → (seller.id ≡ q.seller) × (buyer.id ≡ q.buyer)
  unfolding authorize
  authorize-parties seller buyer q s b allow h =
      let (_, h1) = >>-eq-ok (fail_if (not q.executable) quote_not_executable) _ h in
      let (same, _) =
        >>-eq-ok
          (fail_if (not (seller.id == q.seller) || not (buyer.id == q.buyer))
            quote_parties_mismatch)
          _ h1 in
      let no =
        fail_if-false (not (seller.id == q.seller) || not (buyer.id == q.buyer))
          quote_parties_mismatch same in
      (grind (arith, ==_iff seller.id q.seller), grind (arith, ==_iff buyer.id q.buyer))

  -- The nodes of a trade that was executed are the parties of the quote.
  pub asked-parties :
      (q : Quote F) (s b : SignedTradeIntent) (w : World F S) (tx : TradeTx) (v : World F S)
      (x : Executed q s b w tx v)
      → (x.asked.seller.id ≡ q.seller) × (x.asked.buyer.id ≡ q.buyer)
  asked-parties q s b w tx v x =
      let (is_seller, is_buyer) = authorize-parties _ _ q s b x.allow x.authorized in
      (
        x.asked_same.seller_same.id_kept ∙ sym (init-SameBooks fl w.seller).id_kept ∙ is_seller,
        x.asked_same.buyer_same.id_kept ∙ sym (init-SameBooks fl w.buyer).id_kept ∙ is_buyer,
      )

  -- What was computed for a trade that was prepared.
  pub record Behind (seller buyer : Node F) (q : Quote F) (seller_sig buyer_sig : SignedTradeIntent)
      (p : Prepared F) : Type 0 where
    pub combined : InventoryState
    pub tx_built : settlement_tx c seller.id buyer.id q seller_sig.intent.timestamp ≡ ok p.tx
    pub id_built :
        authorized_trade_id c
          (record { tx = p.tx; seller_auth = seller_sig; buyer_auth = buyer_sig })
        ≡ ok p.auth_id
    pub combined_built : combined_inventory seller buyer ≡ ok combined
    pub tx_valid : validate_trade_tx c p.tx combined ≡ ok tt
    pub next_built :
        prepared_trade_state fl seller buyer q seller_sig.intent.timestamp
        ≡ ok (p.next_seller, p.next_buyer)

  pub prepare-Behind :
      (stores : ℕ → S) (seller buyer : Node F) (q : Quote F) (s b : SignedTradeIntent)
      (p : Prepared F)
      → prepare c fl ops stores seller buyer q s b ≡ ok p
      → Behind seller buyer q s b p
  unfolding prepare
  prepare-Behind stores seller buyer q s b p h =
      let now = s.intent.timestamp in
      let (tx, e0, h0) = >>=-eq-ok (settlement_tx c seller.id buyer.id q now) _ h in
      let (id, e1, h1) =
        >>=-eq-ok (authorized_trade_id c (record { tx = tx; seller_auth = s; buyer_auth = b })) _
          h0 in
      let (_, h2) = >>-eq-ok (fail_if (are_split seller.store buyer.store) split_stores) _ h1 in
      let (_, h3) = >>-eq-ok (reject_in_memory_replay seller buyer id) _ h2 in
      let (_, h4) = >>-eq-ok (reject_replay_check c fl ops stores seller.store id) _ h3 in
      let (_, h5) =
        >>-eq-ok
          (reject_replay_check c fl ops stores (other_store c fl ops seller.store buyer.store) id) _
          h4 in
      let (combined, e2, h6) = >>=-eq-ok (combined_inventory seller buyer) _ h5 in
      let (e3, h7) = >>-eq-ok (validate_trade_tx c tx combined) _ h6 in
      let (next, e4, h8) = >>=-eq-ok (prepared_trade_state fl seller buyer q now) _ h7 in
      subst (λ x. Behind seller buyer q s b x) (ok-inj _ p h8)
        (record {
          combined = combined;
          tx_built = e0;
          id_built = e1;
          combined_built = e2;
          tx_valid = e3;
          next_built = e4;
        })
