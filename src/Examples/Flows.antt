-- ===== src/Examples/Flows.antt =====
-- The theorems on flow records and on the trades of a session at concrete values.
use web4_v.Base.{◌≡◌, refl, ok, err, [], arith, true, amount_overflow}
use web4_v.Base.Int.{pos, negsuc, max_i64, ◌-ℤ◌, wrap64}
use web4_v.Model.Types.{TradeTx}
use web4_v.Model.Amount.{checked_add}
use web4_v.Model.Flow.{
  FlowRecord, add_trade_checked, add_payment_checked, add_consumption_checked,
  add_demand_fulfilled_checked, add_trade,
}
use web4_v.Model.Flow.Effects.{IsFlow, grown, add_checked_effects}
use web4_v.Node.{Quote}
use web4_v.Handler.{trade_value, build_trade_tx}
use web4_v.Handler.Builds.{IsSettling, build_trade_tx-IsSettling}
use web4_v.Examples.Keys.{toy}
use web4_v.Examples.Trades.{evaluated, swap}

abbrev flow : FlowRecord
flow = record {
  unit = 10;
  trade_volume = pos 5;
  payment_volume = max_i64;
  consumption = pos 0;
  demand_fulfilled = pos 1;
}

flow-IsFlow : IsFlow flow
flow-IsFlow = ground arith

payment_overflows : add_payment_checked flow (pos 1) ≡ (err amount_overflow, flow)
unfolding add_payment_checked checked_add wrap64 ◌-ℤ◌
payment_overflows = refl

loss_ignored : add_trade flow (negsuc 3) ≡ flow
unfolding add_trade_checked
loss_ignored = refl

add_checked_effects_example :
    (add_trade_checked flow (pos 4)
      ≡ grown flow (pos 5) (λ v. record flow { trade_volume = v }) (pos 4))
    × (add_payment_checked flow (pos 4)
        ≡ grown flow max_i64 (λ v. record flow { payment_volume = v }) (pos 4))
    × (add_consumption_checked flow (pos 4)
        ≡ grown flow (pos 0) (λ v. record flow { consumption = v }) (pos 4))
    × (add_demand_fulfilled_checked flow (pos 4)
        ≡ grown flow (pos 1) (λ v. record flow { demand_fulfilled = v }) (pos 4))
add_checked_effects_example = add_checked_effects flow (pos 4) flow-IsFlow (ground arith)

-- A quote whose prices are left out.
abbrev quote : Quote (Unit {0})
quote = record {
  seller = 1;
  buyer = 2;
  sell_unit = 10;
  buy_unit = 20;
  sell_amount = pos 5;
  buy_amount = pos 3;
  seller_ask = tt;
  buyer_bid = tt;
  executable = true;
  reason = [];
  timestamp = pos 100;
}

abbrev built : TradeTx
built = elim (build_trade_tx toy quote) [ ok tx ↦ tx | err _ ↦ swap ]

built_ok : build_trade_tx toy quote ≡ ok built
unfolding evaluated build_trade_tx trade_value
built_ok = refl

build_trade_tx-IsSettling_example : IsSettling toy built
build_trade_tx-IsSettling_example =
    build_trade_tx-IsSettling toy quote built refl refl refl refl built_ok
