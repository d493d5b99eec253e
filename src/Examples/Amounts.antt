-- ===== src/Examples/Amounts.antt =====
-- The theorems on amounts and inventories at concrete inputs.
use web4_v.Base.{◌≡◌, refl, ok, err, [], ◌∷◌, if◌then◌else◌, amount_overflow, arith}
use web4_v.Base.Int.{pos, negsuc, ◌+ℤ◌, ◌-ℤ◌, max_i64, wrap64}
use web4_v.Model.Amount.{checked_add}
use web4_v.Model.Amount.Exact.{fits, checked_add_exact}
use web4_v.Model.Inventory.{InventoryState}
use web4_v.Model.Inventory.Holdings.{IsValid}

checked_add_limit : checked_add max_i64 (pos 1) ≡ err amount_overflow
unfolding checked_add wrap64 ◌-ℤ◌
checked_add_limit = refl

checked_add_exact_example :
    checked_add (pos 5) (negsuc 8)
    ≡ (if fits (pos 5 +ℤ negsuc 8) then ok (pos 5 +ℤ negsuc 8) else err amount_overflow)
checked_add_exact_example = checked_add_exact (pos 5) (negsuc 8) (omega arith) (omega arith)

-- Node 1 holds 50 of unit 10, node 2 holds 30 of unit 20.
abbrev pub stock : InventoryState
stock = record { holdings = (1, (10, pos 50) ∷ []) ∷ (2, (20, pos 30) ∷ []) ∷ [] }

pub stock-IsValid : IsValid stock
stock-IsValid = record { nodes = ground arith; amounts = ground arith }
