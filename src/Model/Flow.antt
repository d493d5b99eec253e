-- ===== src/Model/Flow.antt =====
-- The flow records of core/model/protocol.go: volumes that only grow. A method gives its result and
-- the record after it.
pub mod Effects
use web4_v.Base.{Bool, not, Result, ok, err, if◌then◌else◌}
use web4_v.Base.Int.{ℤ}
use web4_v.Model.Types.{UnitId}
use web4_v.Model.Amount.{checked_add, valid_flow_amount}

pub record FlowRecord : Type 0 where
  pub unit : UnitId
  pub trade_volume : ℤ
  pub payment_volume : ℤ
  pub consumption : ℤ
  pub demand_fulfilled : ℤ

abbrev pub FlowOutcome : Type 0
FlowOutcome = Result (Unit {0}) × FlowRecord

unfoldable pub add_trade_checked : FlowRecord → ℤ → FlowOutcome
add_trade_checked f amount =
    if not (valid_flow_amount amount)
    then (ok tt, f)
    else elim (checked_add f.trade_volume amount) [
      | err e ↦ (err e, f)
      | ok next ↦ (ok tt, record f { trade_volume = next })
    ]

unfoldable pub add_payment_checked : FlowRecord → ℤ → FlowOutcome
add_payment_checked f amount =
    if not (valid_flow_amount amount)
    then (ok tt, f)
    else elim (checked_add f.payment_volume amount) [
      | err e ↦ (err e, f)
      | ok next ↦ (ok tt, record f { payment_volume = next })
    ]

unfoldable pub add_consumption_checked : FlowRecord → ℤ → FlowOutcome
add_consumption_checked f amount =
    if not (valid_flow_amount amount) then (ok tt, f) else elim (checked_add f.consumption amount) [
      | err e ↦ (err e, f)
      | ok next ↦ (ok tt, record f { consumption = next })
    ]

unfoldable pub add_demand_fulfilled_checked : FlowRecord → ℤ → FlowOutcome
add_demand_fulfilled_checked f amount =
    if not (valid_flow_amount amount)
    then (ok tt, f)
    else elim (checked_add f.demand_fulfilled amount) [
      | err e ↦ (err e, f)
      | ok next ↦ (ok tt, record f { demand_fulfilled = next })
    ]

abbrev pub add_trade : FlowRecord → ℤ → FlowRecord
add_trade f amount = (add_trade_checked f amount).1

abbrev pub add_payment : FlowRecord → ℤ → FlowRecord
add_payment f amount = (add_payment_checked f amount).1

abbrev pub add_consumption : FlowRecord → ℤ → FlowRecord
add_consumption f amount = (add_consumption_checked f amount).1

abbrev pub add_demand_fulfilled : FlowRecord → ℤ → FlowRecord
add_demand_fulfilled f amount = (add_demand_fulfilled_checked f amount).1
