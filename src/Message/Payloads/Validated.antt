-- ===== src/Message/Payloads/Validated.antt =====
-- A quote that comes in through core/message/validate.go and core/handler/state.go.
use web4_v.Base.{
  ℕ, ◌≡◌, ◌≢◌, sym, Bool, true, false, not, ◌&&◌, ◌||◌, ok, ◌>>◌, fail_if, fail_if-false, ◌==◌,
  ==_iff, same_bytes, arith, ok-inj, >>=-eq-ok, >>-eq-ok, invalid_message_type,
  payload_type_mismatch, request_id_required, request_parties_required, request_parties_equal,
  request_amount_not_positive, request_spread_invalid, request_expiry_negative,
  response_request_id_required, response_quote_id_required, response_parties_required,
  response_sell_amount_not_positive, response_buy_amount_not_positive, response_prices_invalid,
  response_expiry_negative,
}
use mathlib.Core.Path.{subst}
use web4_v.Base.Int.{ℤ, pos, ltb_ℤ, ◌≤ℤ◌}
use web4_v.Crypto.{Primitives}
use web4_v.Floats.{Floats}
use web4_v.Handler.Session.{QuoteRequest, QuoteResponse}
use web4_v.Handler.Quotes.{answers, validate_quote_matches_request}
use web4_v.Handler.Quotes.Checked.{validate_quote_matches_request-binds}
use web4_v.Message.{MessageType, is_valid_message_type}
use web4_v.Message.Payloads.{
  Payload, quote_request, quote_response, type_of, normalized, normalize_payload, validate_request,
  validate_response, validate_content, validate_payload_semantics, invalid_price,
}

module _ {F : Type 0} (fl : Floats F) where
  content-checked :
      (c : Primitives) (t : MessageType) (p : Payload F)
      → validate_payload_semantics fl c t p ≡ ok tt
      → validate_content fl c (normalized p) ≡ ok tt
  unfolding validate_payload_semantics normalize_payload
  content-checked c t p h =
      let (_, h1) = >>-eq-ok (fail_if (not (is_valid_message_type t)) invalid_message_type) _ h in
      let (q, found, h2) = >>=-eq-ok (normalize_payload t p) _ h1 in
      let (_, h3) =
        >>-eq-ok
          (fail_if (not (is_valid_message_type t)) invalid_message_type
            >> fail_if (not (same_bytes t (type_of p))) payload_type_mismatch)
          (ok (normalized p)) found in
      subst (λ r. validate_content fl c r ≡ ok tt) (sym (ok-inj (normalized p) q h3)) h2

  request-checks :
      (p : QuoteRequest F)
      → validate_request fl p ≡ ok tt
      → ((p.seller == p.buyer) ≡ false) × (ltb_ℤ p.expiry_unix (pos 0) ≡ false)
  unfolding validate_request
  request-checks p h =
      let (_, h1) = >>-eq-ok (fail_if (p.request_id == 0) request_id_required) _ h in
      let (_, h2) =
        >>-eq-ok (fail_if (p.seller == 0 || p.buyer == 0) request_parties_required) _ h1 in
      let (apart, h3) = >>-eq-ok (fail_if (p.seller == p.buyer) request_parties_equal) _ h2 in
      let (_, h4) =
        >>-eq-ok (fail_if (not (ltb_ℤ (pos 0) p.sell_amount)) request_amount_not_positive) _ h3 in
      let (_, h5) =
        >>-eq-ok (fail_if (invalid_price fl p.spread_limit) request_spread_invalid) _ h4 in
      (
        fail_if-false (p.seller == p.buyer) request_parties_equal apart,
        fail_if-false (ltb_ℤ p.expiry_unix (pos 0)) request_expiry_negative h5,
      )

  response-checks :
      (p : QuoteResponse F)
      → validate_response fl p ≡ ok tt
      → (not (ltb_ℤ (pos 0) p.sell_amount) ≡ false)
        × ((p.executable && not (ltb_ℤ (pos 0) p.buy_amount)) ≡ false)
        × (ltb_ℤ p.expiry_unix (pos 0) ≡ false)
  unfolding validate_response
  response-checks p h =
      let unsold = not (ltb_ℤ (pos 0) p.sell_amount) in
      let unpaid = p.executable && not (ltb_ℤ (pos 0) p.buy_amount) in
      let unpriced = invalid_price fl p.seller_ask || invalid_price fl p.buyer_bid in
      let (_, h1) = >>-eq-ok (fail_if (p.request_id == 0) response_request_id_required) _ h in
      let (_, h2) = >>-eq-ok (fail_if (p.quote_id == 0) response_quote_id_required) _ h1 in
      let (_, h3) =
        >>-eq-ok (fail_if (p.seller == 0 || p.buyer == 0) response_parties_required) _ h2 in
      let (a, h4) = >>-eq-ok (fail_if unsold response_sell_amount_not_positive) _ h3 in
      let (b, h5) = >>-eq-ok (fail_if unpaid response_buy_amount_not_positive) _ h4 in
      let (_, h6) = >>-eq-ok (fail_if unpriced response_prices_invalid) _ h5 in
      (
        fail_if-false unsold response_sell_amount_not_positive a,
        fail_if-false unpaid response_buy_amount_not_positive b,
        fail_if-false (ltb_ℤ p.expiry_unix (pos 0)) response_expiry_negative h6,
      )

second_and_third :
    (x y z u v w : Bool) → (x && y && z && u && v && w) ≡ true → (y ≡ true) × (z ≡ true)
second_and_third x y z u v w h = ground arith

not_negative : (a : ℤ) → ltb_ℤ a (pos 0) ≡ false → pos 0 ≤ℤ a
not_negative a h = ground arith

is_paid : (x : Bool) (a : ℤ) → x ≡ true → (x && not (ltb_ℤ (pos 0) a)) ≡ false → pos 1 ≤ℤ a
is_paid x a e h = ground arith

is_sold : (a : ℤ) → not (ltb_ℤ (pos 0) a) ≡ false → pos 1 ≤ℤ a
is_sold a h = ground arith

-- An executable response and a request that expires, both of which the validation of messages has
-- accepted, and which match at some time: the parties of the quote differ, both amounts are positive,
-- the response has the terms of the request, has not expired at that time and expires no later than
-- the request, and its bid is not below its ask.
pub validated-binds :
    {F : Type 0} (fl : Floats F) (c : Primitives) (t u : MessageType) (req : QuoteRequest F)
    (q : QuoteResponse F) (now : ℤ)
    → q.executable ≡ true
    → pos 1 ≤ℤ req.expiry_unix
    → validate_payload_semantics fl c t (quote_request req) ≡ ok tt
    → validate_payload_semantics fl c u (quote_response q) ≡ ok tt
    → validate_quote_matches_request fl q req now ≡ ok tt
    → (q.seller ≢ q.buyer)
      × (pos 1 ≤ℤ q.sell_amount)
      × (pos 1 ≤ℤ q.buy_amount)
      × (answers q req ≡ true)
      × (now ≤ℤ q.expiry_unix)
      × (q.expiry_unix ≤ℤ req.expiry_unix)
      × (fl.lt q.buyer_bid q.seller_ask ≡ false)
unfolding validate_content
validated-binds fl c t u req q now x expires hr hq h =
    let (apart, _) = request-checks fl req (content-checked fl c t (quote_request req) hr) in
    let (sold, paid, live) = response-checks fl q (content-checked fl c u (quote_response q) hq) in
    let (same, later, earlier, in_order, _) =
      validate_quote_matches_request-binds fl q req now x (not_negative q.expiry_unix live) expires
        h in
    let (seller_same, buyer_same) =
      second_and_third (q.request_id == req.request_id) _ _ _ _ _ same in
    (
      differ q.seller q.buyer req.seller req.buyer apart
          ((==_iff q.seller req.seller).0 seller_same) ((==_iff q.buyer req.buyer).0 buyer_same),
      is_sold q.sell_amount sold,
      is_paid q.executable q.buy_amount x paid,
      same,
      later,
      earlier,
      in_order,
    )
  where
    differ : (a b d e : ℕ) → (d == e) ≡ false → a ≡ d → b ≡ e → a ≢ b
    differ a b d e h k l m = ground (arith, ==_iff d e)
