-- ===== src/Handler.antt =====
-- core/handler: how a session turns an accepted quote into a trade (state.go).
pub mod Builds
pub mod Session
pub mod Quotes
pub mod Tasks
pub mod Shadows
pub mod Negotiation
pub mod Settlement
pub mod Messages
use web4_v.Base.{Bool, [], ◌∷◌, Result, ok, err, ◌>>=◌, ◌>>◌}
use web4_v.Base.Int.{ℤ, pos, ◌+ℤ◌, wrap64}
use web4_v.Crypto.{Primitives}
use web4_v.Model.Types.{Bytes, UnitId, NodeId, Value, TradeTx}
use web4_v.Node.{Quote}
use web4_v.Model.Ids.{value_id_for, trade_tx_id}

-- `timestamp + n` of an int64
abbrev pub later : ℤ → ℤ → ℤ
later timestamp n = wrap64 (timestamp +ℤ n)

-- The value of `tradeValue`, before it has its ID.
abbrev pub unnamed_value : UnitId → ℤ → NodeId → ℤ → Value
unnamed_value unit amount owner created_at = record {
  id = 0;
  unit = unit;
  amount = amount;
  owner = owner;
  created_at = created_at;
  issuer = 0;
  expiry_unix = pos 0;
  depth = 0;
}

module _ (c : Primitives) where
  unfoldable pub trade_value : UnitId → ℤ → NodeId → ℤ → Result Value
  trade_value unit amount owner created_at = do
    let value = unnamed_value unit amount owner created_at
    id ← value_id_for c value
    ok (record value { id = id })

  unfoldable pub build_trade_tx : {Float : Type 0} → Quote Float → Result TradeTx
  build_trade_tx q = do
    input_seller ← trade_value q.sell_unit q.sell_amount q.seller q.timestamp
    input_buyer ← trade_value q.buy_unit q.buy_amount q.buyer (later q.timestamp (pos 1))
    output_seller ← trade_value q.buy_unit q.buy_amount q.seller (later q.timestamp (pos 2))
    output_buyer ← trade_value q.sell_unit q.sell_amount q.buyer (later q.timestamp (pos 3))
    let tx : TradeTx = record {
      id = 0;
      inputs_a = input_seller ∷ [];
      inputs_b = input_buyer ∷ [];
      outputs_a = output_seller ∷ [];
      outputs_b = output_buyer ∷ [];
      party_a = q.seller;
      party_b = q.buyer;
      timestamp = q.timestamp;
    }
    id ← trade_tx_id c tx
    ok (record tx { id = id })
