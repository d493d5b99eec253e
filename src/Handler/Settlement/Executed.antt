-- ===== src/Handler/Settlement/Executed.antt =====
-- The execution of an authorized trade in core/handler/handler.go, when it succeeds.
use web4_v.Base.{
  ◌≡◌, refl, ◌∙◌, ap, true, Option, none, some, Result, ok, err, Bool, false, panicked,
  if◌then◌else◌, ◌==◌, nat_eq, ok-inj,
}
use mathlib.Core.Path.{subst}
use web4_v.Model.Types.{TxId, TradeTx}
use web4_v.Node.{AuthorizedTradeTx}
use web4_v.Node.State.{Node}
use web4_v.Node.Trade.{World}
use web4_v.Node.Trade.Execute.{execute_signed_trade}
use web4_v.Handler.Session.{QuoteResponse}
use web4_v.Handler.Quotes.{quote_from_response}
use web4_v.Handler.Tasks.{Services, Handler}
use web4_v.Handler.Tasks.Ends.{current-done, lift_bind-done}
use web4_v.Handler.Shadows.{
  execution_shadow, parties, try_execute, execute_with_shadow, or_panic, caught,
}
use web4_v.Handler.Negotiation.{store_trade}

-- The execution between the local node and the shadow of its peer, from the handler `h` to `g`.
pub record IsExecuted {F S : Type 0} (x : Services F S) (h : Handler F S) (auth : AuthorizedTradeTx)
    (q : QuoteResponse F) (g : Handler F S) : Type 0 where
  pub peer : Node F
  pub shadowed : execution_shadow x.floats h.node (quote_from_response q) auth ≡ some peer
  pub tx : TradeTx
  pub world : World F S
  pub executed :
      execute_signed_trade x.crypto x.floats x.store_ops
        (quote_from_response q)
        auth.seller_auth
        auth.buyer_auth
        true
        (parties h (quote_from_response q) peer)
      ≡ (ok tx, world)
  pub node_after : g.node ≡ (if h.node.id == q.seller then world.seller else world.buyer)
  pub stores_after : g.stores ≡ world.stores

module _ {A : Type 0} where
  or_panic-some : (o : Option A) (a : A) → or_panic o ≡ ok a → o ≡ some a
  or_panic-some none a e = absurd (cc)
  or_panic-some (some b) a e = ap some (ok-inj b a e)

  caught-ok : (r r' : Result A) (a : A) → caught r ≡ ok r' → r' ≡ ok a → r ≡ ok a
  caught-ok (ok b) r' a e same = ok-inj (ok b) r' e ∙ same
  caught-ok (err why) r' a e same = go _ e
    where
      go : (b : Bool) → (if b then err panicked else ok (err why)) ≡ ok r' → err why ≡ ok a
      go true k = absurd (cc)
      go false k = ok-inj (err why) r' k ∙ same

module _ {F S : Type 0} (x : Services F S) where
  -- The handler is the same but for its node and its stores.
  abbrev pub Ran : AuthorizedTradeTx → QuoteResponse F → Handler F S → Handler F S → Type 0
  Ran auth q h g = IsExecuted x h auth q g × (g.session ≡ h.session) × (g.random ≡ h.random)

  try_execute-done :
      (auth : AuthorizedTradeTx) (q : QuoteResponse F) (peer : Node F) (h : Handler F S)
      (r : Result TradeTx) (g : Handler F S) (tx : TradeTx)
      → execution_shadow x.floats h.node (quote_from_response q) auth ≡ some peer
      → try_execute x (quote_from_response q) auth peer h ≡ (ok r, g)
      → r ≡ ok tx
      → Ran auth q h g
  unfolding try_execute
  try_execute-done auth q peer h r g tx shadowed e same =
      let run =
        execute_signed_trade x.crypto x.floats x.store_ops (quote_from_response q) auth.seller_auth
          auth.buyer_auth true (parties h (quote_from_response q) peer) in
      let gave : run.0 ≡ ok tx = caught-ok run.0 r tx (ap (λ z. z.0) e) same in
      subst (Ran auth q h) (ap (λ z. z.1) e) (
        record {
          peer = peer;
          shadowed = shadowed;
          tx = tx;
          world = run.1;
          executed = ap (λ z. (z, run.1)) gave;
          node_after = refl;
          stores_after = refl;
        },
        refl,
        refl,
      )

  pub execute_with_shadow-done :
      (auth : AuthorizedTradeTx) (q : QuoteResponse F) (h : Handler F S) (r : Result TradeTx)
      (g : Handler F S) (tx : TradeTx)
      → execute_with_shadow x (quote_from_response q) auth h ≡ (ok r, g)
      → r ≡ ok tx
      → Ran auth q h g
  unfolding execute_with_shadow
  execute_with_shadow-done auth q h r g tx e same =
      let e0 = current-done _ h (ok r, g) e in
      let (peer, shadowed, e1) = lift_bind-done _ _ h r g e0 in
      try_execute-done auth q peer h r g tx (or_panic-some _ peer shadowed) e1 same

  pub same_execution :
      (auth : AuthorizedTradeTx) (auth_id : TxId) (rebuilt : AuthorizedTradeTx)
      (q : QuoteResponse F) (h h1 h2 g : Handler F S)
      → h1 ≡ record h { session = store_trade auth_id rebuilt h.session }
      → IsExecuted x h1 auth q h2
      → g.node ≡ h2.node
      → g.stores ≡ h2.stores
      → IsExecuted x h auth q g
  same_execution auth auth_id rebuilt q h h1 h2 g is run node stores =
      let there = subst (λ k. IsExecuted x k auth q h2) is run in
      record {
        peer = there.peer;
        shadowed = there.shadowed;
        tx = there.tx;
        world = there.world;
        executed = there.executed;
        node_after = node ∙ there.node_after;
        stores_after = stores ∙ there.stores_after;
      }
