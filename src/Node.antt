-- ===== src/Node.antt =====
-- core/node: quotes, the intents that the parties of a trade sign (intent.go), the state of a node,
-- and the execution of a trade between two nodes (trade.go).
pub mod Intents
pub mod State
pub mod Quoting
pub mod Signing
pub mod Prices
pub mod Trade
use web4_v.Base.{Bool}
use web4_v.Base.Int.{ℤ}
use web4_v.Model.Types.{Bytes, UnitId, NodeId, TradeTx}

-- `Quote`, with its prices as floats.
pub record Quote (Float : Type 0) : Type 0 where
  pub seller : NodeId
  pub buyer : NodeId
  pub sell_unit : UnitId
  pub buy_unit : UnitId
  pub sell_amount : ℤ
  pub buy_amount : ℤ
  pub seller_ask : Float
  pub buyer_bid : Float
  pub executable : Bool
  pub reason : Bytes
  pub timestamp : ℤ

pub record TradeIntent : Type 0 where
  pub party : NodeId
  pub seller : NodeId
  pub buyer : NodeId
  pub sell_unit : UnitId
  pub buy_unit : UnitId
  pub sell_amount : ℤ
  pub buy_amount : ℤ
  pub timestamp : ℤ

pub record SignedTradeIntent : Type 0 where
  pub intent : TradeIntent
  pub public_key : Bytes
  pub signature : Bytes

pub record AuthorizedTradeTx : Type 0 where
  pub tx : TradeTx
  pub seller_auth : SignedTradeIntent
  pub buyer_auth : SignedTradeIntent
