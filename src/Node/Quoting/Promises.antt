-- ===== src/Node/Quoting/Promises.antt =====
-- What a quote of core/node/quote.go that is executable promises.
use web4_v.Base.{
  ℕ, ◌≡◌, refl, ◌≢◌, sym, ◌∙◌, ap, Bool, true, false, not, ◌||◌, Option, none, some, Result, ok,
  if◌then◌else◌, ◌==◌, ==_iff, nat_eq, arith, ok-inj, >>=-eq-ok,
}
use mathlib.Core.Path.{subst}
use web4_v.Base.Int.{ℤ, pos, ltb_ℤ, ◌≤ℤ◌}
use web4_v.Floats.{Floats}
use web4_v.Model.Types.{Bytes, UnitId}
use web4_v.Model.Amount.Scaled.{from_float}
use web4_v.Node.{Quote}
use web4_v.Node.State.{Node, init, balance, effective_price}
use web4_v.Node.State.Quiet.{SameBooks, SameBooks-trans, effective_price-Quiet, init-SameBooks}
use web4_v.Node.Quoting.{
  Prices, nought, blank_quote, ask_of, bid_of, settle_quote, weigh_quote, quote_sell, early_refusal,
  quoted,
}

-- What a test of a quote leaves, if the quote is executable in the end and a refusal is not.
passes :
    {F : Type 0} (b : Bool) (why rest : Quote F)
    → why.executable ≡ false
    → (if b then why else rest).executable ≡ true
    → (b ≡ false) × (rest.executable ≡ true)
passes true why rest h e = absurd (cc)
passes false why rest h e = (refl, e)

passes_result :
    {F : Type 0} (b : Bool) (why q : Quote F) (rest : Result (Quote F))
    → why.executable ≡ false
    → (if b then ok why else rest) ≡ ok q
    → q.executable ≡ true
    → (b ≡ false) × (rest ≡ ok q)
passes_result true why q rest h e x = absurd (clash h (ap (λ r. r.executable) (ok-inj why q e) ∙ x))
  where
    clash : {b : Bool} → b ≡ false → b ≡ true → ⊥
    clash k l = cc
passes_result false why q rest h e x = (refl, e)

-- A chain of three refusals that none of which applied.
none_refused :
    {A : Type 0} (a b d : Bool) (x y z : A)
    → (if a then some x else if b then some y else if d then some z else none) ≡ none
    → (a ≡ false) × (b ≡ false) × (d ≡ false)
none_refused true b d x y z h = absurd (cc)
none_refused false true d x y z h = absurd (cc)
none_refused false false true x y z h = absurd (cc)
none_refused false false false x y z h = (refl, refl, refl)

at_least_one : (a : ℤ) → not (ltb_ℤ (pos 0) a) ≡ false → pos 1 ≤ℤ a
at_least_one a h = ground arith

covers : (held a : ℤ) → ltb_ℤ held a ≡ false → a ≤ℤ held
covers held a h = ground arith

SameBooks-balance :
    {F : Type 0} (n m : Node F) (u : UnitId) → SameBooks n m → balance m u ≡ balance n u
SameBooks-balance n m u same = rw (same.inventory_kept, same.id_kept) refl

module _ {F : Type 0} (fl : Floats F) where
  -- `held` is what the buyer has of the bought unit.
  record Settled (q r : Quote F) (held : ℤ) : Type 0 where
    pays : pos 1 ≤ℤ r.buy_amount
    buyer_covers : r.buy_amount ≤ℤ held
    same_seller : r.seller ≡ q.seller
    same_buyer : r.buyer ≡ q.buyer
    same_amount : r.sell_amount ≡ q.sell_amount
    same_ask : r.seller_ask ≡ q.seller_ask
    same_bid : r.buyer_bid ≡ q.buyer_bid

  settle_quote-Settled :
      (q : Quote F) (held a : ℤ)
      → q.executable ≡ false
      → (settle_quote fl q held a).executable ≡ true
      → Settled q (settle_quote fl q held a) held
  settle_quote-Settled q held a h x =
      let (some_pay, x1) = passes (not (ltb_ℤ (pos 0) a)) _ _ h x in
      let (covers, _) = passes (ltb_ℤ held a) _ _ h x1 in
      rw (some_pay, covers)
        (record {
          pays = ground arith;
          buyer_covers = ground arith;
          same_seller = refl;
          same_buyer = refl;
          same_amount = refl;
          same_ask = refl;
          same_bid = refl;
        })

  record Weighed (q r : Quote F) (p : Prices F) (held : ℤ) : Type 0 where
    settled : (ask bid : F) × Settled (record q { seller_ask = ask; buyer_bid = bid }) r held
    in_order : fl.lt r.buyer_bid r.seller_ask ≡ false
    seller_prices : (fl.le p.seller_sell (nought fl) || fl.le p.seller_buy (nought fl)) ≡ false
    buyer_prices : (fl.le p.buyer_sell (nought fl) || fl.le p.buyer_buy (nought fl)) ≡ false

  weigh_quote-Weighed :
      (q r : Quote F) (p : Prices F) (held : ℤ) (spread : F)
      → q.executable ≡ false
      → weigh_quote fl q p held spread ≡ ok r
      → r.executable ≡ true
      → Weighed q r p held
  unfolding weigh_quote
  weigh_quote-Weighed q r p held spread h e x =
      let ask = ask_of fl p q.sell_amount spread in
      let bid = bid_of fl p q.sell_amount in
      let q' : Quote F = record q { seller_ask = ask; buyer_bid = bid } in
      let (seller_prices, e1) = passes_result _ _ r _ h e x in
      let (buyer_prices, e2) = passes_result _ _ r _ h e1 x in
      let (in_order, e3) = passes_result (fl.lt bid ask) _ r _ h e2 x in
      let (a, _, e4) =
        >>=-eq-ok (from_float fl (fl.over (fl.plus ask bid) (fl.of_int (pos 2)))) _ e3 in
      let same = ok-inj (settle_quote fl q' held a) r e4 in
      let done = settle_quote-Settled q' held a h (ap (λ s. s.executable) same ∙ x) in
      record {
        settled = (ask, bid, subst (λ s. Settled q' s held) same done);
        in_order =
            subst (λ s. fl.lt s.buyer_bid s.seller_ask ≡ false) same
              (rw (done.same_ask, done.same_bid) in_order);
        seller_prices = seller_prices;
        buyer_prices = buyer_prices;
      }

  -- `held` is what the seller has of the sold unit, and `held'` what the buyer has of the bought unit.
  pub record IsBacked (q : Quote F) (held held' : ℤ) : Type 0 where
    pub sells : pos 1 ≤ℤ q.sell_amount
    pub seller_covers : q.sell_amount ≤ℤ held
    pub pays : pos 1 ≤ℤ q.buy_amount
    pub buyer_covers : q.buy_amount ≤ℤ held'

  quoted-executable :
      (q r : Quote F) (n b n' b' : Node F) (weighed : Result (Quote F)) (why : Option Bytes)
      → q.executable ≡ false
      → (quoted fl q n b n' b' weighed why).0 ≡ ok r
      → r.executable ≡ true
      → (why ≡ none) × (weighed ≡ ok r)
  quoted-executable q r n b n' b' weighed none h e x = (refl, e)
  quoted-executable q r n b n' b' weighed (some why) h e x = absurd (cc)

  -- An executable quote that `QuoteSell` returns is between two nodes with different ids, which are
  -- its parties; both amounts are positive, and each party holds what it gives; the bid is not below
  -- the ask.
  pub quote_sell-IsBacked :
      (n buyer : Node F) (sell_unit buy_unit : UnitId) (sell_amount : ℤ) (spread : F) (q : Quote F)
      → (quote_sell fl n (some buyer) sell_unit buy_unit sell_amount spread).0 ≡ ok q
      → q.executable ≡ true
      → (q.seller ≡ n.id)
        × (q.buyer ≡ buyer.id)
        × (q.seller ≢ q.buyer)
        × IsBacked q (balance n sell_unit) (balance buyer buy_unit)
        × (fl.lt q.buyer_bid q.seller_ask ≡ false)
  unfolding quote_sell
  quote_sell-IsBacked n buyer sell_unit buy_unit sell_amount spread q e x =
      let n' = init fl n in
      let b' = init fl buyer in
      let b1 = (effective_price fl b' sell_unit).1 in
      let b2 = (effective_price fl b1 buy_unit).1 in
      let seller_same = init-SameBooks fl n in
      let buyer_same = init-SameBooks fl buyer in
      let priced_same = SameBooks-trans buyer b' b2 buyer_same (
        SameBooks-trans b' b1 b2 (effective_price-Quiet fl b' sell_unit)
          (effective_price-Quiet fl b1 buy_unit)) in
      let q0 : Quote F = record (blank_quote fl n' sell_unit buy_unit sell_amount) {
        buyer = b'.id;
      } in
      let (fine, e1) =
        quoted-executable q0 q _ _ _ _ _ (early_refusal fl n' b' sell_unit sell_amount) refl e x in
      let (differ, some_sold, covered) =
        none_refused (n'.id == b'.id) (not (ltb_ℤ (pos 0) sell_amount))
          (ltb_ℤ (balance n' sell_unit) sell_amount) _ _ _ fine in
      let w = weigh_quote-Weighed q0 q _ (balance b2 buy_unit) spread refl e1 x in
      let s = w.settled.2 in
      let is_seller : q.seller ≡ n'.id = s.same_seller in
      let is_buyer : q.buyer ≡ b'.id = s.same_buyer in
      let sold : q.sell_amount ≡ sell_amount = s.same_amount in
      (
        is_seller ∙ seller_same.id_kept,
        is_buyer ∙ buyer_same.id_kept,
        λ h. apart n'.id b'.id differ (sym is_seller ∙ h ∙ is_buyer),
        record {
          sells = rw sold (at_least_one sell_amount some_sold);
          seller_covers =
              rw (sold, ← SameBooks-balance n n' sell_unit seller_same)
                (covers (balance n' sell_unit) sell_amount covered);
          pays = s.pays;
          buyer_covers = rw (← SameBooks-balance buyer b2 buy_unit priced_same) s.buyer_covers;
        },
        w.in_order,
      )
    where
      apart : (a b : ℕ) → (a == b) ≡ false → a ≡ b → ⊥
      apart a b h k = ground (arith, ==_iff a b)
