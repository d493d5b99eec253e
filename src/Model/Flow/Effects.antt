-- ===== src/Model/Flow/Effects.antt =====
-- What the methods of a flow record do to its volumes.
use web4_v.Base.{◌≡◌, refl, not, ok, err, if◌then◌else◌, Bool-cases, inl, inr, amount_overflow}
use web4_v.Base.Int.{ℤ, ◌+ℤ◌, IsI64}
use web4_v.Model.Amount.{checked_add, valid_flow_amount}
use web4_v.Model.Amount.Exact.{fits, checked_add_exact}
use web4_v.Model.Flow.{
  FlowRecord, FlowOutcome, add_trade_checked, add_payment_checked, add_consumption_checked,
  add_demand_fulfilled_checked,
}

-- The volumes are int64.
pub record IsFlow (f : FlowRecord) : Type 0 where
  pub trade_i64 : IsI64 f.trade_volume
  pub payment_i64 : IsI64 f.payment_volume
  pub consumption_i64 : IsI64 f.consumption
  pub demand_i64 : IsI64 f.demand_fulfilled

-- A volume that grows by a positive amount to an int64: `set` puts the exact sum in its place. No
-- other amount changes the record, and only an overflow is an error.
abbrev pub grown : FlowRecord → ℤ → (ℤ → FlowRecord) → ℤ → FlowOutcome
grown f volume set amount =
    if valid_flow_amount amount
    then (if fits (volume +ℤ amount)
        then (ok tt, set (volume +ℤ amount))
        else (err amount_overflow, f))
    else (ok tt, f)

grows :
    (f : FlowRecord) (volume : ℤ) (set : ℤ → FlowRecord) (amount : ℤ)
    → IsI64 volume
    → IsI64 amount
    → ◌≡◌ {A = FlowOutcome}
        (if not (valid_flow_amount amount) then (ok tt, f) else elim (checked_add volume amount) [
          | err e ↦ (err e, f)
          | ok next ↦ (ok tt, set next)
        ])
        (grown f volume set amount)
grows f volume set amount h k = elim (Bool-cases (valid_flow_amount amount)) [
  | inl valid ↦ elim (Bool-cases (fits (volume +ℤ amount))) [
    | inl small ↦ rw (valid, small, checked_add_exact volume amount h k, small) refl
    | inr large ↦ rw (valid, large, checked_add_exact volume amount h k, large) refl
  ]
  | inr bad ↦ rw bad refl
]

-- On a record of int64 volumes, each of the four methods adds a positive int64 amount exactly to its
-- own volume, or fails with an overflow and changes nothing; it ignores any other amount.
pub add_checked_effects :
    (f : FlowRecord) (amount : ℤ)
    → IsFlow f
    → IsI64 amount
    → (add_trade_checked f amount
        ≡ grown f f.trade_volume (λ v. record f { trade_volume = v }) amount)
      × (add_payment_checked f amount
          ≡ grown f f.payment_volume (λ v. record f { payment_volume = v }) amount)
      × (add_consumption_checked f amount
          ≡ grown f f.consumption (λ v. record f { consumption = v }) amount)
      × (add_demand_fulfilled_checked f amount
          ≡ grown f f.demand_fulfilled (λ v. record f { demand_fulfilled = v }) amount)
unfolding add_trade_checked add_payment_checked add_consumption_checked add_demand_fulfilled_checked
add_checked_effects f amount h k = (
  grows f f.trade_volume (λ v. record f { trade_volume = v }) amount h.trade_i64 k,
  grows f f.payment_volume (λ v. record f { payment_volume = v }) amount h.payment_i64 k,
  grows f f.consumption (λ v. record f { consumption = v }) amount h.consumption_i64 k,
  grows f f.demand_fulfilled (λ v. record f { demand_fulfilled = v }) amount h.demand_i64 k,
)
