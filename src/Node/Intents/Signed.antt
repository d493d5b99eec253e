-- ===== src/Node/Intents/Signed.antt =====
-- `SignTradeIntent` against `VerifyTradeIntent` (core/node/intent.go).
use web4_v.Base.{
  ◌≡◌, refl, sym, true, not, ok, fail_if, fail_if-not-true, length, ◌==◌, >>=-eq-ok, >>-eq-ok,
  ok-inj, bad_key_length, party_key_mismatch,
}
use mathlib.Core.Path.{subst}
use web4_v.Crypto.{Primitives, IsSound, IsKey, sign, verify, verify-sign}
use web4_v.Model.Types.{Bytes, NodeId}
use web4_v.Model.Ids.{node_id_from_public_key, public_key_from_private}
use web4_v.Model.Issue.Signed.{public_key-node_id}
use web4_v.Node.{TradeIntent, SignedTradeIntent}
use web4_v.Node.Intents.{
  trade_intent_preimage, validate_trade_intent, public_key_matches_node, sign_trade_intent,
  verify_trade_intent,
}

module _ (c : Primitives) where
  -- The four tests of `VerifyTradeIntent`.
  intent-finished :
      (signed : SignedTradeIntent) (id : NodeId) (preimage : Bytes)
      → validate_trade_intent signed.intent ≡ ok tt
      → node_id_from_public_key signed.public_key ≡ ok id
      → (id == signed.intent.party) ≡ true
      → trade_intent_preimage signed.intent ≡ ok preimage
      → verify c signed.public_key preimage signed.signature ≡ true
      → verify_trade_intent c signed ≡ true
  unfolding verify_trade_intent public_key_matches_node
  intent-finished signed id preimage valid found own encoded accepted =
      rw (valid, public_key_matches_node, found, own, encoded, accepted) refl

  -- `VerifyTradeIntent` accepts whatever `SignTradeIntent` signs with a key that is made from a
  -- seed.
  pub verify-sign_trade_intent :
      IsSound c
      → (priv : Bytes) (intent : TradeIntent) (signed : SignedTradeIntent) → IsKey c priv
      → sign_trade_intent c priv intent ≡ ok signed
      → (signed.intent ≡ intent) × (verify_trade_intent c signed ≡ true)
  unfolding sign_trade_intent
  verify-sign_trade_intent s priv intent signed k e =
      let (sized, e1) = >>-eq-ok (fail_if (not (length priv == 64)) bad_key_length) _ e in
      let (valid, e2) = >>-eq-ok (validate_trade_intent intent) _ e1 in
      let (key, ek, e3) = >>=-eq-ok (public_key_from_private c priv) _ e2 in
      let (id, ei, e4) = >>=-eq-ok (node_id_from_public_key key) _ e3 in
      let (own, e5) = >>-eq-ok (fail_if (not (id == intent.party)) party_key_mismatch) _ e4 in
      let (preimage, ep, e6) = >>=-eq-ok (trade_intent_preimage intent) _ e5 in
      let (sig, es, e7) = >>=-eq-ok (sign c priv preimage) _ e6 in
      let same = ok-inj (record { intent = intent; public_key = key; signature = sig }) signed e7 in
      let (_, part) = public_key-node_id c s priv key id ek ei in
      let accepted : verify c key preimage sig ≡ true =
        subst (λ p. verify c p preimage sig ≡ true) (sym part)
          (verify-sign c s priv preimage sig k es) in
      subst (λ (t : SignedTradeIntent). (t.intent ≡ intent) × (verify_trade_intent c t ≡ true)) same
        (
          refl,
          intent-finished (record { intent = intent; public_key = key; signature = sig }) id
              preimage valid ei (fail_if-not-true (id == intent.party) party_key_mismatch own) ep
              accepted,
        )
