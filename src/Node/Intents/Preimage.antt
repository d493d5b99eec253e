-- ===== src/Node/Intents/Preimage.antt =====
-- The preimage of a trade intent (core/node/intent.go).
use web4_v.Base.{◌^◌, ◌<◌, ◌≡◌, ok, arith, All}
use web4_v.Base.Int.{IsI64}
use web4_v.Canonical.Supported.{IsPlainField}
use web4_v.Canonical.Injective.{encode_fields-inj}
use web4_v.Model.Types.{Bytes}
use web4_v.Model.Ids.Arrays.{array32-inj, length-array32}
use web4_v.Node.{TradeIntent}
use web4_v.Node.Intents.{trade_intent_fields, trade_intent_preimage}

-- What the Go types of the fields say.
pub record IsTypedIntent (i : TradeIntent) : Type 0 where
  pub party_32 : i.party < 2 ^ 256
  pub seller_32 : i.seller < 2 ^ 256
  pub buyer_32 : i.buyer < 2 ^ 256
  pub sell_unit_32 : i.sell_unit < 2 ^ 256
  pub buy_unit_32 : i.buy_unit < 2 ^ 256
  pub sell_i64 : IsI64 i.sell_amount
  pub buy_i64 : IsI64 i.buy_amount
  pub timestamp_i64 : IsI64 i.timestamp

trade_intent_fields-plain :
    (i : TradeIntent) → IsTypedIntent i → All IsPlainField (trade_intent_fields i)
trade_intent_fields-plain i h = ground (
  arith,
  length-array32 i.party,
  length-array32 i.seller,
  length-array32 i.buyer,
  length-array32 i.sell_unit,
  length-array32 i.buy_unit,
  h.sell_i64,
  h.buy_i64,
  h.timestamp_i64,
)

-- Intents with the ranges of their Go types that have one preimage are equal, so that a signature
-- binds the parties, the units, the amounts and the time.
pub trade_intent_preimage-inj :
    (i j : TradeIntent) (b : Bytes)
    → IsTypedIntent i
    → IsTypedIntent j
    → trade_intent_preimage i ≡ ok b
    → trade_intent_preimage j ≡ ok b
    → i ≡ j
unfolding trade_intent_preimage
trade_intent_preimage-inj i j b hi hj ei ej =
    let same : trade_intent_fields i ≡ trade_intent_fields j =
      encode_fields-inj (trade_intent_fields i) (trade_intent_fields j) b
        (trade_intent_fields-plain i hi) (trade_intent_fields-plain j hj) (omega arith)
        (omega arith) ei ej in
    ground (
      arith,
      array32-inj i.party j.party hi.party_32 hj.party_32,
      array32-inj i.seller j.seller hi.seller_32 hj.seller_32,
      array32-inj i.buyer j.buyer hi.buyer_32 hj.buyer_32,
      array32-inj i.sell_unit j.sell_unit hi.sell_unit_32 hj.sell_unit_32,
      array32-inj i.buy_unit j.buy_unit hi.buy_unit_32 hj.buy_unit_32,
    )
