-- ===== src/Model/Inventory/Holdings.antt =====
-- What the methods of `InventoryState` (core/model/protocol.go) do to every holding.
use web4_v.Base.{◌≡◌, inl, inr, ◌&&◌, [], if◌then◌else◌, ◌==◌, arith, nat_eq, Bool-cases}
use web4_v.Base.Int.{ℤ, pos, ◌≤ℤ◌, IsI64}
use web4_v.Base.Dict.{
  has, insert, IsMap, lookup-insert, insert-IsMap, AllValues, AllValues-insert, AllValues-get,
}
use web4_v.Model.Types.{UnitId, NodeId}
use web4_v.Model.Inventory.{InventoryState, Units, units_of, get_amount, put_amount, ensure_node}

pub get_amount-put_amount :
    (s : InventoryState) (n m : NodeId) (u w : UnitId) (a : ℤ)
    → get_amount (put_amount s n u a) m w ≡ (if n == m && u == w then a else get_amount s m w)
unfolding get_amount put_amount
get_amount-put_amount s n m u w a = ground (
  arith,
  lookup-insert n m (insert u a (units_of s n)) s.holdings,
  lookup-insert u w a (units_of s n),
)

pub get_amount-ensure_node :
    (s : InventoryState) (n m : NodeId) (w : UnitId)
    → get_amount (ensure_node s n) m w ≡ get_amount s m w
unfolding get_amount ensure_node
get_amount-ensure_node s n m w = ground (arith, lookup-insert n m [] s.holdings)

-- What the Go maps and the methods keep: keys stand once, and a holding is an int64 of zero or more.
abbrev pub IsAmount : ℤ → Type 0
IsAmount a = IsI64 a × (pos 0 ≤ℤ a)

abbrev pub AreUnits : Units → Type 0
AreUnits units = IsMap units × AllValues IsAmount units

pub record IsValid (s : InventoryState) : Type 0 where
  pub nodes : IsMap s.holdings
  pub amounts : AllValues AreUnits s.holdings

units_of-AreUnits : (s : InventoryState) (n : NodeId) → IsValid s → AreUnits (units_of s n)
units_of-AreUnits s n v = AllValues-get AreUnits [] n s.holdings v.amounts (tt, tt)

pub get_amount-IsAmount :
    (s : InventoryState) (n : NodeId) (u : UnitId) → IsValid s → IsAmount (get_amount s n u)
unfolding get_amount
get_amount-IsAmount s n u v =
    AllValues-get IsAmount (pos 0) u (units_of s n) (units_of-AreUnits s n v).1 (omega arith)

pub put_amount-IsValid :
    (s : InventoryState) (n : NodeId) (u : UnitId) (a : ℤ)
    → IsValid s
    → IsAmount a
    → IsValid (put_amount s n u a)
unfolding put_amount
put_amount-IsValid s n u a v h =
    let (distinct, amounts) = units_of-AreUnits s n v in
    record {
      nodes = insert-IsMap n (insert u a (units_of s n)) s.holdings v.nodes;
      amounts = AllValues-insert AreUnits n (insert u a (units_of s n)) s.holdings v.amounts (
        insert-IsMap u a (units_of s n) distinct,
        AllValues-insert IsAmount u a (units_of s n) amounts h,
      );
    }

pub ensure_node-IsValid : (s : InventoryState) (n : NodeId) → IsValid s → IsValid (ensure_node s n)
unfolding ensure_node
ensure_node-IsValid s n v = elim (Bool-cases (has n s.holdings)) [
  | inl there ↦ rw there v
  | inr missing ↦ rw missing (record {
    nodes = insert-IsMap n [] s.holdings v.nodes;
    amounts = AllValues-insert AreUnits n [] s.holdings v.amounts (tt, tt);
  })
]
