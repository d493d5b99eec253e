-- ===== src/Handler/Quotes/Checked.antt =====
-- What the checks of a quote response in core/handler/state.go ensure.
use web4_v.Base.{
  ◌≡◌, refl, Bool, true, false, not, ◌&&◌, ◌||◌, some, ok, fail_if, fail_if-false, if◌then◌else◌,
  arith, ok-inj, >>=-eq-ok, >>-eq-ok, quote_request_expired, quote_removes_expiry,
  quote_extends_expiry, quote_expired, quote_differs_from_request, spread_limit_invalid,
  quote_prices_not_positive, bid_below_ask, spread_limit_exceeded,
}
use mathlib.Core.Path.{subst}
use web4_v.Base.Int.{ℤ, pos, ltb_ℤ, eqb_ℤ, ◌≤ℤ◌}
use web4_v.Crypto.{Primitives}
use web4_v.Floats.{Floats}
use web4_v.Model.Types.{TxId}
use web4_v.Node.{Quote}
use web4_v.Node.State.{rounding_slack}
use web4_v.Handler.Session.{QuoteRequest, QuoteResponse, is_expired}
use web4_v.Handler.Quotes.{
  nought, answers, quote_from_response, validate_quote_freshness, validate_response_freshness,
  validate_prices, validate_quote_matches_request, quote_id, quote_response_from_quote,
}

pub in_time :
    (r q now : ℤ)
    → pos 1 ≤ℤ r
    → pos 0 ≤ℤ q
    → (ltb_ℤ (pos 0) r && eqb_ℤ q (pos 0)) ≡ false
    → (ltb_ℤ (pos 0) r && ltb_ℤ r q) ≡ false
    → is_expired q now ≡ false
    → (now ≤ℤ q) × (q ≤ℤ r)
in_time r q now hr hq a b d = ground arith

module _ {F : Type 0} where
  response-IsLive :
      (q : QuoteResponse F) (now : ℤ)
      → validate_response_freshness q now ≡ ok tt
      → is_expired q.expiry_unix now ≡ false
  unfolding validate_response_freshness
  response-IsLive q now h = fail_if-false (is_expired q.expiry_unix now) quote_expired h

  -- The request and the response are live, and the response expires no later than the request, if
  -- the request expires at all.
  freshness-checks :
      (req : QuoteRequest F) (q : QuoteResponse F) (now : ℤ)
      → validate_quote_freshness (some req) q now ≡ ok tt
      → (is_expired req.expiry_unix now ≡ false)
        × ((ltb_ℤ (pos 0) req.expiry_unix && eqb_ℤ q.expiry_unix (pos 0)) ≡ false)
        × ((ltb_ℤ (pos 0) req.expiry_unix && ltb_ℤ req.expiry_unix q.expiry_unix) ≡ false)
        × (is_expired q.expiry_unix now ≡ false)
  unfolding validate_quote_freshness
  freshness-checks req q now h =
      let live = is_expired req.expiry_unix now in
      let removed = ltb_ℤ (pos 0) req.expiry_unix && eqb_ℤ q.expiry_unix (pos 0) in
      let extended = ltb_ℤ (pos 0) req.expiry_unix && ltb_ℤ req.expiry_unix q.expiry_unix in
      let (a, h1) = >>-eq-ok (fail_if live quote_request_expired) _ h in
      let (b, h2) = >>-eq-ok (fail_if removed quote_removes_expiry) _ h1 in
      let (d, h3) = >>-eq-ok (fail_if extended quote_extends_expiry) _ h2 in
      (
        fail_if-false live quote_request_expired a,
        fail_if-false removed quote_removes_expiry b,
        fail_if-false extended quote_extends_expiry d,
        response-IsLive q now h3,
      )

module _ {F : Type 0} (fl : Floats F) where
  matches-checks :
      (q : QuoteResponse F) (req : QuoteRequest F) (now : ℤ)
      → validate_quote_matches_request fl q req now ≡ ok tt
      → (answers q req ≡ true)
        × (validate_quote_freshness (some req) q now ≡ ok tt)
        × ((if q.executable then validate_prices fl q req else ok tt) ≡ ok tt)
  unfolding validate_quote_matches_request
  matches-checks q req now h =
      let (a, h1) = >>-eq-ok (fail_if (not (answers q req)) quote_differs_from_request) _ h in
      let (b, h2) = >>-eq-ok (validate_quote_freshness (some req) q now) _ h1 in
      let (_, h3) =
        >>-eq-ok (fail_if (fl.lt req.spread_limit (nought fl)) spread_limit_invalid) _ h2 in
      (
        undo (answers q req) (fail_if-false (not (answers q req)) quote_differs_from_request a),
        b,
        h3,
      )
    where
      undo : (b : Bool) → not b ≡ false → b ≡ true
      undo true k = refl
      undo false k = absurd (cc)

  prices-checks :
      (q : QuoteResponse F) (req : QuoteRequest F)
      → validate_prices fl q req ≡ ok tt
      → (fl.lt q.buyer_bid q.seller_ask ≡ false)
        × (fl.lt
              (fl.plus req.spread_limit (rounding_slack fl))
              (fl.over (fl.minus q.buyer_bid q.seller_ask) q.seller_ask)
            ≡ false)
  unfolding validate_prices
  prices-checks q req h =
      let low = fl.le q.seller_ask (nought fl) || fl.le q.buyer_bid (nought fl) in
      let crossed = fl.lt q.buyer_bid q.seller_ask in
      let spread = fl.over (fl.minus q.buyer_bid q.seller_ask) q.seller_ask in
      let wide = fl.lt (fl.plus req.spread_limit (rounding_slack fl)) spread in
      let (_, h1) = >>-eq-ok (fail_if low quote_prices_not_positive) _ h in
      let (a, h2) = >>-eq-ok (fail_if crossed bid_below_ask) _ h1 in
      (fail_if-false crossed bid_below_ask a, fail_if-false wide spread_limit_exceeded h2)

  -- An executable response with an expiry of zero or more that is accepted for a request that expires
  -- has the parties, units and sold amount of the request; it has not expired at the time and expires
  -- no later than the request; its bid is not below its ask, and its spread is not above the limit of
  -- the request.
  pub validate_quote_matches_request-binds :
      (q : QuoteResponse F) (req : QuoteRequest F) (now : ℤ)
      → q.executable ≡ true
      → pos 0 ≤ℤ q.expiry_unix
      → pos 1 ≤ℤ req.expiry_unix
      → validate_quote_matches_request fl q req now ≡ ok tt
      → (answers q req ≡ true)
        × (now ≤ℤ q.expiry_unix)
        × (q.expiry_unix ≤ℤ req.expiry_unix)
        × (fl.lt q.buyer_bid q.seller_ask ≡ false)
        × (fl.lt
              (fl.plus req.spread_limit (rounding_slack fl))
              (fl.over (fl.minus q.buyer_bid q.seller_ask) q.seller_ask)
            ≡ false)
  validate_quote_matches_request-binds q req now x hq hr h =
      let (same, fresh, priced) = matches-checks q req now h in
      let (_, kept, bounded, live) = freshness-checks req q now fresh in
      let (later, earlier) = in_time req.expiry_unix q.expiry_unix now hr hq kept bounded live in
      let (in_order, narrow) =
        prices-checks q req
          (subst (λ b. (if b then validate_prices fl q req else ok tt) ≡ ok tt) x priced) in
      (same, later, earlier, in_order, narrow)

  -- A quote that is sent as a response is read back as it was.
  quote_from_response-quote_response_from_quote :
      (c : Primitives) (request_id : TxId) (q : Quote F) (p : QuoteResponse F)
      → quote_response_from_quote fl c request_id q ≡ ok p
      → (quote_from_response p ≡ q) × (quote_id fl c (record p { quote_id = 0 }) ≡ ok p.quote_id)
  unfolding quote_response_from_quote
  quote_from_response-quote_response_from_quote c request_id q p h =
      let (id, found, done) = >>=-eq-ok _ _ h in
      subst
        (λ r.
          (quote_from_response r ≡ q) × (quote_id fl c (record r { quote_id = 0 }) ≡ ok r.quote_id))
        (ok-inj _ p done) (refl, found)
