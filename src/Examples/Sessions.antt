-- ===== src/Examples/Sessions.antt =====
-- The theorems on sessions at concrete messages and quotes.
use web4_v.Base.{
  ℕ, ◌≡◌, refl, ok, err, [], ◌∷◌, true, false, none, some, duplicate_message, arith, nat_eq,
}
use web4_v.Base.Int.{pos}
use web4_v.Base.Dict.{lookup}
use web4_v.Handler.Session.{
  Session, QuoteResponse, new_session, mark_seen, is_expired, clear_negotiation, prune_requests,
  prune_quotes, prune_expired,
}
use web4_v.Handler.Session.Fresh.{prune_expired_lem}

abbrev session : Session (Unit {0})
session = new_session 1 2

abbrev marked_once : Session (Unit {0})
marked_once = (mark_seen session 40).1

seen_once : mark_seen session 40 ≡ (ok tt, marked_once)
unfolding mark_seen
seen_once = refl

seen_twice : mark_seen marked_once 40 ≡ (err duplicate_message, marked_once)
unfolding mark_seen
seen_twice = refl

abbrev offer : ℕ → ℕ → QuoteResponse (Unit {0})
offer id expiry = record {
  request_id = 30;
  quote_id = id;
  seller = 1;
  buyer = 2;
  sell_unit = 10;
  buy_unit = 20;
  sell_amount = pos 5;
  buy_amount = pos 3;
  seller_ask = tt;
  buyer_bid = tt;
  executable = true;
  reason = [];
  expiry_unix = pos expiry;
}

-- Two offers, of which the first has expired at 500.
abbrev negotiating : Session (Unit {0})
negotiating = record session { pending_quotes = (50, offer 50 100) ∷ (51, offer 51 900) ∷ [] }

abbrev pruned : Session (Unit {0})
pruned = prune_expired negotiating (pos 500)

expired_gone : lookup 50 pruned.pending_quotes ≡ none
unfolding prune_expired prune_requests prune_quotes clear_negotiation
expired_gone = refl

offer_kept : lookup 51 pruned.pending_quotes ≡ some (offer 51 900)
unfolding prune_expired prune_requests prune_quotes clear_negotiation
offer_kept = refl

prune_expired_lem_example : is_expired (offer 51 900).expiry_unix (pos 500) ≡ false
prune_expired_lem_example =
    prune_expired_lem negotiating (pos 500) 51 (offer 51 900) (ground arith) offer_kept
