-- ===== src/Node/Quoting.antt =====
-- `QuoteSell` and `quoteSellLocked` of core/node/quote.go: what a node asks of a buyer. The quote comes
-- with the two nodes after it, which may have computed prices; a panic of `FromFloat` is an error.
pub mod Promises
use web4_v.Base.{
  ℕ, Bool, true, false, not, ◌&&◌, ◌||◌, List, [], Option, none, some, Result, ok, err, ◌>>=◌,
  if◌then◌else◌, ◌==◌, nat_eq,
}
use web4_v.Base.Int.{ℤ, pos, ltb_ℤ}
use web4_v.Canonical.{ascii}
use web4_v.Floats.{Floats}
use web4_v.Model.Types.{Bytes, UnitId}
use web4_v.Model.Amount.Scaled.{from_float, to_float}
use web4_v.Node.{Quote}
use web4_v.Node.State.{Node, init, balance, effective_price}

-- The four prices that a quote weighs: what the seller and the buyer think of the sold and of the
-- bought unit.
pub record Prices (F : Type 0) : Type 0 where
  pub seller_sell : F
  pub seller_buy : F
  pub buyer_sell : F
  pub buyer_buy : F

module _ {F : Type 0} (fl : Floats F) where
  abbrev pub nought : F
  nought = fl.of_int (pos 0)

  -- A quote with the fields that are always set.
  abbrev pub blank_quote : Node F → UnitId → UnitId → ℤ → Quote F
  blank_quote n sell_unit buy_unit sell_amount = record {
    seller = n.id;
    buyer = 0;
    sell_unit = sell_unit;
    buy_unit = buy_unit;
    sell_amount = sell_amount;
    buy_amount = pos 0;
    seller_ask = nought;
    buyer_bid = nought;
    executable = false;
    reason = [];
    timestamp = n.now_unix;
  }

  -- The prices in the order in which they are read, and the nodes after them.
  abbrev pub read_prices : Node F → Node F → UnitId → UnitId → Prices F × Node F × Node F
  read_prices n buyer sell_unit buy_unit =
      let (seller_sell, n1) = effective_price fl n sell_unit in
      let (seller_buy, n2) = effective_price fl n1 buy_unit in
      let (buyer_sell, b1) = effective_price fl buyer sell_unit in
      let (buyer_buy, b2) = effective_price fl b1 buy_unit in
      (
        record {
          seller_sell = seller_sell;
          seller_buy = seller_buy;
          buyer_sell = buyer_sell;
          buyer_buy = buyer_buy;
        },
        n2,
        b2,
      )

  abbrev pub ask_of : Prices F → ℤ → F → F
  ask_of p sell_amount spread =
      fl.times (fl.times (to_float fl sell_amount) (fl.over p.seller_sell p.seller_buy))
        (fl.plus (fl.of_int (pos 1)) (if fl.lt spread nought then nought else spread))

  abbrev pub bid_of : Prices F → ℤ → F
  bid_of p sell_amount = fl.times (to_float fl sell_amount) (fl.over p.buyer_sell p.buyer_buy)

  -- From the computed amount on: `held` is what the buyer has of the bought unit.
  abbrev pub settle_quote : Quote F → ℤ → ℤ → Quote F
  settle_quote q held buy_amount =
      if not (ltb_ℤ (pos 0) buy_amount)
      then record q { reason = ascii "computed buy amount is zero" }
      else if ltb_ℤ held buy_amount
      then record q {
        buy_amount = buy_amount;
        reason = ascii "buyer has insufficient payment inventory";
      }
      else record q { buy_amount = buy_amount; executable = true; reason = ascii "executable" }

  -- From the prices on.
  unfoldable pub weigh_quote : Quote F → Prices F → ℤ → F → Result (Quote F)
  weigh_quote q p held spread =
      let ask = ask_of p q.sell_amount spread in
      let bid = bid_of p q.sell_amount in
      if fl.le p.seller_sell nought || fl.le p.seller_buy nought
      then ok (record q { reason = ascii "seller has no usable local price" })
      else if fl.le p.buyer_sell nought || fl.le p.buyer_buy nought
      then ok (record q { reason = ascii "buyer has no usable local price" })
      else if fl.lt bid ask
      then ok (record q {
        seller_ask = ask;
        buyer_bid = bid;
        reason = ascii "buyer valuation below seller ask";
      })
      else (from_float fl (fl.over (fl.plus ask bid) (fl.of_int (pos 2))) >>= λ buy_amount.
          ok (settle_quote (record q { seller_ask = ask; buyer_bid = bid }) held buy_amount))

  -- Why a quote is refused before any price is read.
  abbrev pub early_refusal : Node F → Node F → UnitId → ℤ → Option Bytes
  early_refusal n buyer sell_unit sell_amount =
      if n.id == buyer.id
      then some (ascii "seller and buyer must differ")
      else if not (ltb_ℤ (pos 0) sell_amount)
      then some (ascii "sell amount must be greater than zero")
      else if ltb_ℤ (balance n sell_unit) sell_amount
      then some (ascii "seller has insufficient inventory")
      else none

  -- The quote with the nodes after it: those before or those after the prices were read.
  abbrev pub quoted :
      Quote F
      → Node F
      → Node F
      → Node F
      → Node F
      → Result (Quote F)
      → Option Bytes
      → Result (Quote F) × Node F × Option (Node F)
  quoted q n buyer n' buyer' weighed (some why) = (ok (record q { reason = why }), n, some buyer)
  quoted q n buyer n' buyer' weighed none = (weighed, n', some buyer')

  unfoldable pub quote_sell :
      Node F
      → Option (Node F)
      → UnitId
      → UnitId
      → ℤ
      → F
      → Result (Quote F) × Node F × Option (Node F)
  quote_sell n0 none sell_unit buy_unit sell_amount spread =
      let n = init fl n0 in
      let q = blank_quote n sell_unit buy_unit sell_amount in
      (ok (record q { reason = ascii "buyer is required" }), n, none)
  quote_sell n0 (some buyer0) sell_unit buy_unit sell_amount spread =
      let n = init fl n0 in
      let buyer = init fl buyer0 in
      let q : Quote F = record (blank_quote n sell_unit buy_unit sell_amount) {
        buyer = buyer.id;
      } in
      let (prices, n', buyer') = read_prices n buyer sell_unit buy_unit in
      quoted q n buyer n' buyer' (weigh_quote q prices (balance buyer' buy_unit) spread)
        (early_refusal n buyer sell_unit sell_amount)
