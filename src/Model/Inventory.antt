-- ===== src/Model/Inventory.antt =====
-- `InventoryState` of core/model/protocol.go. A method returns its result with the state that it
-- leaves behind, since a Go method may have written before it fails; a nil map reads as an empty one,
-- and a node with a nil map as no node. A nil receiver is not modelled.
pub mod Holdings
pub mod Copy
pub mod Effects
pub mod Total
use web4_v.Base.{
  ℕ, Bool, true, false, not, List, [], ◌∷◌, Option, none, some, Result, ok, err, if◌then◌else◌,
  amount_not_positive, insufficient_inventory,
}
use web4_v.Base.Int.{ℤ, pos}
use web4_v.Base.Dict.{Dict, get, has, insert}
use web4_v.Base.{nat_eq}
use web4_v.Model.Types.{UnitId, NodeId}
use web4_v.Model.Amount.{checked_add, sub, valid_amount}

abbrev pub Units : Type 0
Units = Dict UnitId ℤ

pub record InventoryState : Type 0 where
  pub holdings : Dict NodeId Units

abbrev pub Outcome : Type 0
Outcome = Result (Unit {0}) × InventoryState

abbrev pub new_inventory_state : InventoryState
new_inventory_state = record { holdings = [] }

-- `s.Holdings[node]`
abbrev pub units_of : InventoryState → NodeId → Units
units_of s node = get [] node s.holdings

-- `Get`
unfoldable pub get_amount : InventoryState → NodeId → UnitId → ℤ
get_amount s node unit = get (pos 0) unit (units_of s node)

-- `s.Holdings[node][unit] = amount`, for a node that has a map.
unfoldable pub put_amount : InventoryState → NodeId → UnitId → ℤ → InventoryState
put_amount s node unit amount = record s {
  holdings = insert node (insert unit amount (units_of s node)) s.holdings;
}

-- `if s.Holdings[node] == nil { s.Holdings[node] = make(...) }`
unfoldable pub ensure_node : InventoryState → NodeId → InventoryState
ensure_node s node =
    if has node s.holdings then s else record s { holdings = insert node [] s.holdings }

-- `AddChecked`, after its guard and with a map for the node.
add_to : InventoryState → NodeId → UnitId → ℤ → Outcome
unfolding get_amount put_amount
add_to s node unit amount = elim (checked_add (get_amount s node unit) amount) [
  | ok next ↦ (ok tt, put_amount s node unit next)
  | err e ↦ (err e, s)
]

unfoldable pub add_checked : InventoryState → NodeId → UnitId → ℤ → Outcome
unfolding ensure_node add_to
add_checked s node unit amount =
    if valid_amount amount
    then add_to (ensure_node s node) node unit amount
    else (err amount_not_positive, s)

-- `Add`: a panic is `none`.
unfoldable pub add : InventoryState → NodeId → UnitId → ℤ → Option InventoryState
unfolding add_checked
add s node unit amount =
    let (r, next) = add_checked s node unit amount in elim r [ ok _ ↦ some next | err _ ↦ none ]

-- `Sub`, after its guard on the amount.
sub_from : InventoryState → NodeId → UnitId → ℤ → Outcome
unfolding get_amount put_amount
sub_from s node unit amount =
    if has node s.holdings
    then elim (sub (get_amount s node unit) amount) [
      | ok next ↦ (ok tt, put_amount s node unit next)
      | err e ↦ (err insufficient_inventory, s)
    ]
    else (err insufficient_inventory, s)

unfoldable pub sub_amount : InventoryState → NodeId → UnitId → ℤ → Outcome
unfolding sub_from
sub_amount s node unit amount =
    if valid_amount amount then sub_from s node unit amount else (err amount_not_positive, s)

-- The two loops of `Copy`.
copy_units : Units → Units → Units
copy_units out [] = out
copy_units out ((unit, amount) ∷ units) = copy_units (insert unit amount out) units

copy_nodes : Dict NodeId Units → Dict NodeId Units → Dict NodeId Units
unfolding copy_units
copy_nodes out [] = out
copy_nodes out ((node, units) ∷ nodes) = copy_nodes (insert node (copy_units [] units) out) nodes

unfoldable pub copy : InventoryState → InventoryState
unfolding copy_nodes
copy s = record { holdings = copy_nodes [] s.holdings }
