-- ===== src/Node/Signing/Authorized.antt =====
-- What a node signs (core/node/intent.go) is what an execution asks for (core/node/trade.go).
use web4_v.Base.{
  ℕ, ◌≡◌, sym, if◌then◌else◌, ◌⊎◌, inl, inr, Bool-cases, refl, Bool, true, false, not, ◌||◌, Result,
  ok, err, fail_if, fail_if-false, ◌==◌, ==_iff, length, arith, >>-eq-ok, quote_not_executable,
  not_quote_party, private_key_required, quote_timestamp_required,
}
use mathlib.Core.Path.{subst}
use web4_v.Base.Int.{pos, ltb_ℤ}
use web4_v.Crypto.{Primitives, IsSound, IsKey}
use web4_v.Floats.{Floats}
use web4_v.Node.{Quote, SignedTradeIntent}
use web4_v.Node.Intents.{intent_from_quote, sign_trade_intent, verify_trade_intent, signs_quote}
use web4_v.Node.Intents.Signed.{verify-sign_trade_intent}
use web4_v.Node.State.{Node, init, accept_quote, default_price_config}
use web4_v.Node.State.Quiet.{init-SameBooks}
use web4_v.Node.Signing.{signable, signed_if, sign_quote}

signs_quote_refl :
    {F : Type 0} (q : Quote F) (party : ℕ)
    → signs_quote (intent_from_quote q party q.timestamp) q party ≡ true
signs_quote_refl q party = ground arith

either_party :
    (n seller buyer : ℕ) → not (n == seller || n == buyer) ≡ false → (n ≡ seller) ⊎ (n ≡ buyer)
either_party n seller buyer h = elim (Bool-cases (n == seller)) [
  | inl e ↦ inl ((==_iff n seller).0 e)
  | inr e ↦ inr (ground (arith, ==_iff n seller, ==_iff n buyer))
]

module _ {F : Type 0} (fl : Floats F) (c : Primitives) where
  -- Its first use leaves the key of a node as it is.
  init-private_key : (n : Node F) → (init fl n).private_key ≡ n.private_key
  unfolding init
  init-private_key n = go _
    where
      go :
          (b : Bool)
          → (if b then record n { price_config = default_price_config fl } else n).private_key
            ≡ n.private_key
      go true = refl
      go false = refl

  signed_if-done :
      (q : Quote F) (n : Node F) (asked : Bool × Node F) (r : Result (Unit {0}))
      (s : SignedTradeIntent)
      → (signed_if c q n asked r).0 ≡ ok s
      → (r ≡ ok tt)
        × (sign_trade_intent c n.private_key (intent_from_quote q n.id q.timestamp) ≡ ok s)
  signed_if-done q n asked (err e) s h = absurd (cc)
  signed_if-done q n (true, next) (ok _) s h = (refl, h)
  signed_if-done q n (false, next) (ok _) s h = absurd (cc)

  signable-party :
      (n : Node F) (q : Quote F)
      → signable n q ≡ ok tt
      → (not q.executable ≡ false)
        × (not (n.id == q.seller || n.id == q.buyer) ≡ false)
        × (not (ltb_ℤ (pos 0) q.timestamp) ≡ false)
  unfolding signable
  signable-party n q h =
      let blocked = not q.executable in
      let stranger = not (n.id == q.seller || n.id == q.buyer) in
      let untimed = not (ltb_ℤ (pos 0) q.timestamp) in
      let (a, h1) = >>-eq-ok (fail_if blocked quote_not_executable) _ h in
      let (b, h2) = >>-eq-ok (fail_if stranger not_quote_party) _ h1 in
      let (_, h3) = >>-eq-ok (fail_if (length n.private_key == 0) private_key_required) _ h2 in
      (
        fail_if-false blocked quote_not_executable a,
        fail_if-false stranger not_quote_party b,
        fail_if-false untimed quote_timestamp_required h3,
      )

  -- If the primitives do what they document (`IsSound`), what `SignQuote` signs with a key of the node
  -- that is made from a seed is accepted by `VerifyTradeIntent` and is an intent of the node for the
  -- very quote, with a positive timestamp; the quote is executable and has the node for a party.
  pub sign_quote_authorizes :
      IsSound c
      → (n : Node F) (q : Quote F) (s : SignedTradeIntent) → IsKey c n.private_key
      → (sign_quote fl c n q).0 ≡ ok s
      → (verify_trade_intent c s ≡ true)
        × (signs_quote s.intent q n.id ≡ true)
        × (ltb_ℤ (pos 0) s.intent.timestamp ≡ true)
        × (q.executable ≡ true)
        × ((n.id ≡ q.seller) ⊎ (n.id ≡ q.buyer))
  unfolding sign_quote
  sign_quote_authorizes sound n q s k h =
      let m = init fl n in
      let same = (init-SameBooks fl n).id_kept in
      let (able, e) = signed_if-done q m (accept_quote fl m q) (signable m q) s h in
      let (go, party, timed) = signable-party m q able in
      let (is_intent, verifies) =
        verify-sign_trade_intent c sound m.private_key _ s
          (subst (IsKey c) (sym (init-private_key n)) k) e in
      (
        verifies,
        subst (λ i. signs_quote s.intent q i ≡ true) same (rw is_intent (signs_quote_refl q m.id)),
        rw is_intent (yes_of _ timed),
        yes_of q.executable go,
        rw (← same) (either_party m.id q.seller q.buyer party),
      )
    where
      yes_of : (b : Bool) → not b ≡ false → b ≡ true
      yes_of true k = refl
      yes_of false k = absurd (cc)
