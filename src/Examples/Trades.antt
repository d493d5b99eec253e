-- ===== src/Examples/Trades.antt =====
-- The theorems on issuing and trading at concrete inputs.
use web4_v.Base.{ℕ, ◌++◌, ◌≡◌, refl, ok, err, [], ◌∷◌, arith}
use web4_v.Base.Int.{pos, ◌+ℤ◌, ◌-ℤ◌, wrap64}
use web4_v.Model.Types.{Value, TradeTx}
use web4_v.Model.Ids.{
  value_id_for, trade_tx_id, issue_tx_id, value_preimage, value_preimages, trade_preimage,
  issue_preimage,
}
use web4_v.Model.Ids.Arrays.{array32}
use web4_v.Canonical.{
  encode_fields, encode_value, encode_string, encode_bytes, encode_int, encode_uint,
}
use web4_v.Canonical.Varint.{uvarint}
use web4_v.Model.Amount.{checked_add, sub}
use web4_v.Model.Inventory.{InventoryState, get_amount, add_checked, sub_amount, copy}
use web4_v.Model.Inventory.Holdings.{IsValid}
use web4_v.Model.Inventory.Total.{total}
use web4_v.Model.Sums.{tally}
use web4_v.Model.Trade.{
  apply_trade_tx, validate_trade_tx, validate_value_set, check_no_duplicate_value_ids, check_group,
  check_trade_conservation, same_amounts, check_trade_inventory_coverage, covers, charge, credit,
}
use web4_v.Model.Trade.Conservation.{TradeInRange, check_trade_conservation_sound}
use web4_v.Model.Trade.Coverage.{coverage_sound, charge_covered}
use web4_v.Model.Sums.{sum_of}
use web4_v.Model.Trade.Apply.{paid, received, apply_trade_tx_effect, apply_trade_tx_conserves}
use web4_v.Examples.Keys.{toy}
use web4_v.Examples.Amounts.{stock, stock-IsValid}

abbrev pub with_id : Value → Value
with_id v = elim (value_id_for toy v) [ ok id ↦ record v { id = id } | err _ ↦ v ]

abbrev pub value : ℕ → ℕ → ℕ → ℕ → Value
value unit amount owner created = with_id (record {
  id = 0;
  unit = unit;
  amount = pos amount;
  owner = owner;
  created_at = pos created;
  issuer = 0;
  expiry_unix = pos 0;
  depth = 0;
})

abbrev swap_draft : TradeTx
swap_draft = record {
  id = 0;
  inputs_a = value 10 5 1 100 ∷ [];
  inputs_b = value 20 3 2 101 ∷ [];
  outputs_a = value 20 3 1 102 ∷ [];
  outputs_b = value 10 5 2 103 ∷ [];
  party_a = 1;
  party_b = 2;
  timestamp = pos 100;
}

-- Node 1 gives 5 of unit 10 to node 2 for 3 of unit 20.
abbrev pub swap : TradeTx
swap = elim (trade_tx_id toy swap_draft) [
  | ok id ↦ record swap_draft { id = id }
  | err _ ↦ swap_draft
]

abbrev swapped : InventoryState
swapped = record {
  holdings = (1, (10, pos 45) ∷ (20, pos 3) ∷ []) ∷ (2, (20, pos 27) ∷ (10, pos 5) ∷ []) ∷ [];
}

-- What an evaluation of a trade or an issuance unfolds.
unfoldable pub evaluated : ℕ
unfolding apply_trade_tx validate_trade_tx trade_tx_id issue_tx_id trade_preimage issue_preimage
    value_preimages value_preimage encode_fields validate_value_set value_id_for toy uvarint array32
    check_no_duplicate_value_ids check_trade_conservation tally checked_add wrap64 ◌-ℤ◌ ◌+ℤ◌
    encode_bytes encode_int encode_string encode_uint encode_value sub add_checked copy sub_amount
    charge check_group check_trade_inventory_coverage covers credit same_amounts
evaluated = 0

apply_swap : apply_trade_tx toy stock swap ≡ ok swapped
unfolding evaluated
apply_swap = refl

swap-TradeInRange : TradeInRange swap
swap-TradeInRange = ground arith

apply_trade_tx_effect_example :
    IsValid swapped
    × ((n u : ℕ)
        → get_amount swapped n u +ℤ paid swap n u ≡ get_amount stock n u +ℤ received swap n u)
apply_trade_tx_effect_example =
    apply_trade_tx_effect toy stock swap swapped stock-IsValid swap-TradeInRange apply_swap

apply_trade_tx_conserves_example : total 10 swapped ≡ total 10 stock
apply_trade_tx_conserves_example =
    apply_trade_tx_conserves toy stock swap swapped stock-IsValid swap-TradeInRange apply_swap 10

swap_balanced : check_trade_conservation swap ≡ ok tt
unfolding evaluated
swap_balanced = refl

check_trade_conservation_sound_example :
    sum_of 10 (swap.inputs_a ++ swap.inputs_b) ≡ sum_of 10 (swap.outputs_a ++ swap.outputs_b)
check_trade_conservation_sound_example =
    check_trade_conservation_sound swap swap-TradeInRange (ground arith) swap_balanced 10

swap_covered : check_trade_inventory_coverage stock 1 swap.inputs_a ≡ ok tt
unfolding evaluated
swap_covered = refl

charge_covered_example : (t : InventoryState) × (charge 1 stock swap.inputs_a ≡ ok t)
charge_covered_example =
    charge_covered 1 stock swap.inputs_a stock-IsValid (ground arith) (ground arith)
      (λ u. coverage_sound stock 1 swap.inputs_a u stock-IsValid (ground arith) swap_covered)
