-- ===== src/Node/Intents.antt =====
-- core/node/intent.go: what the party of a trade signs, and how it is checked.
pub mod Preimage
pub mod Signed
use web4_v.Base.{
  ℕ, Bool, true, false, not, ◌&&◌, ◌||◌, [], ◌∷◌, Result, ok, err, ◌>>=◌, ◌>>◌, fail_if,
  if◌then◌else◌, ◌==◌, length, same_bytes, bad_key_length, intent_timestamp_required,
  party_key_mismatch,
}
use web4_v.Base.Int.{ℤ, pos, ltb_ℤ, eqb_ℤ}
use web4_v.Base.{List}
use web4_v.Canonical.{int, bytes, Field, ascii, encode_fields}
use web4_v.Crypto.{Primitives, hash_bytes, sign, verify}
use web4_v.Model.Types.{Bytes, TxId, NodeId}
use web4_v.Model.Ids.{text_field, trade_tx_id, node_id_from_public_key, public_key_from_private}
use web4_v.Model.Ids.Arrays.{array32}
use web4_v.Node.{Quote, TradeIntent, SignedTradeIntent, AuthorizedTradeTx}

abbrev pub intent_from_quote : {Float : Type 0} → Quote Float → NodeId → ℤ → TradeIntent
intent_from_quote q party timestamp = record {
  party = party;
  seller = q.seller;
  buyer = q.buyer;
  sell_unit = q.sell_unit;
  buy_unit = q.buy_unit;
  sell_amount = q.sell_amount;
  buy_amount = q.buy_amount;
  timestamp = timestamp;
}

abbrev pub trade_intent_fields : TradeIntent → List Field
trade_intent_fields intent =
    text_field "kind" "trade_intent"
    ∷ (ascii "party", bytes (array32 intent.party))
    ∷ (ascii "seller", bytes (array32 intent.seller))
    ∷ (ascii "buyer", bytes (array32 intent.buyer))
    ∷ (ascii "sell_unit", bytes (array32 intent.sell_unit))
    ∷ (ascii "buy_unit", bytes (array32 intent.buy_unit))
    ∷ (ascii "sell_amount", int intent.sell_amount)
    ∷ (ascii "buy_amount", int intent.buy_amount)
    ∷ (ascii "timestamp", int intent.timestamp)
    ∷ []

unfoldable pub trade_intent_preimage : TradeIntent → Result Bytes
trade_intent_preimage intent = encode_fields (trade_intent_fields intent)

abbrev pub validate_trade_intent : TradeIntent → Result (Unit {0})
validate_trade_intent intent =
    fail_if (not (ltb_ℤ (pos 0) intent.timestamp)) intent_timestamp_required

-- `intentMatchesQuote` of the package node.
abbrev pub signs_quote : {Float : Type 0} → TradeIntent → Quote Float → NodeId → Bool
signs_quote i q party =
    i.party == party
    && i.seller == q.seller
    && i.buyer == q.buyer
    && i.sell_unit == q.sell_unit
    && i.buy_unit == q.buy_unit
    && eqb_ℤ i.sell_amount q.sell_amount
    && eqb_ℤ i.buy_amount q.buy_amount
    && eqb_ℤ i.timestamp q.timestamp

abbrev pub economic_terms_match : TradeIntent → TradeIntent → Bool
economic_terms_match a b =
    a.seller == b.seller
    && a.buyer == b.buyer
    && a.sell_unit == b.sell_unit
    && a.buy_unit == b.buy_unit
    && eqb_ℤ a.sell_amount b.sell_amount
    && eqb_ℤ a.buy_amount b.buy_amount
    && eqb_ℤ a.timestamp b.timestamp

abbrev pub holds : Result (Unit {0}) → Bool
holds (ok _) = true
holds (err _) = false

-- `publicKeyMatchesNode`
unfoldable pub public_key_matches_node : Bytes → NodeId → Bool
public_key_matches_node key id = elim (node_id_from_public_key key) [
  | ok found ↦ found == id
  | err _ ↦ false
]

module _ (c : Primitives) where
  unfoldable pub trade_intent_id : TradeIntent → Result TxId
  trade_intent_id intent = do preimage ← trade_intent_preimage intent; ok (hash_bytes c preimage)

  unfoldable pub sign_trade_intent : Bytes → TradeIntent → Result SignedTradeIntent
  sign_trade_intent priv intent = do
    fail_if (not (length priv == 64)) bad_key_length
    validate_trade_intent intent
    key ← public_key_from_private c priv
    node_id ← node_id_from_public_key key
    fail_if (not (node_id == intent.party)) party_key_mismatch
    preimage ← trade_intent_preimage intent
    signature ← sign c priv preimage
    ok (record { intent = intent; public_key = key; signature = signature })

  -- `VerifyTradeIntent`, with the test of the signature at its end.
  abbrev verifies : SignedTradeIntent → Result Bytes → Bool
  verifies signed (ok preimage) = verify c signed.public_key preimage signed.signature
  verifies signed (err _) = false

  unfoldable pub verify_trade_intent : SignedTradeIntent → Bool
  unfolding public_key_matches_node
  verify_trade_intent signed =
      holds (validate_trade_intent signed.intent)
      && public_key_matches_node signed.public_key signed.intent.party
      && verifies signed (trade_intent_preimage signed.intent)

  unfoldable pub authorized_trade_id : AuthorizedTradeTx → Result TxId
  authorized_trade_id auth = do
    tx_id ← trade_tx_id c auth.tx
    seller_id ← trade_intent_id auth.seller_auth.intent
    buyer_id ← trade_intent_id auth.buyer_auth.intent
    preimage ← encode_fields (
        text_field "kind" "authorized_trade_tx"
        ∷ (ascii "tx_id", bytes (array32 tx_id))
        ∷ (ascii "seller_intent_id", bytes (array32 seller_id))
        ∷ (ascii "buyer_intent_id", bytes (array32 buyer_id))
        ∷ (ascii "seller_public_key", bytes auth.seller_auth.public_key)
        ∷ (ascii "buyer_public_key", bytes auth.buyer_auth.public_key)
        ∷ (ascii "seller_signature", bytes auth.seller_auth.signature)
        ∷ (ascii "buyer_signature", bytes auth.buyer_auth.signature)
        ∷ [])
    ok (hash_bytes c preimage)
