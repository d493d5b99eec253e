-- ===== src/Model/Inventory/Total.antt =====
-- How much of a unit all nodes of an inventory (core/model/protocol.go) hold together.
use web4_v.Base.{
  ◌≡◌, refl, sym, ap, ◌∙◌, [], ◌∷◌, Bool, true, false, if◌then◌else◌, ◌==◌, ==_iff, arith, nat_eq,
  inl, inr, Bool-cases, Option-cases,
}
use web4_v.Base.Int.{ℤ, pos, ◌+ℤ◌, int_laws, +ℤ_zero, +ℤ_assoc, +ℤ_comm}
use web4_v.Base.Dict.{Dict, lookup, get, has, insert, lookup-insert}
use web4_v.Model.Types.{UnitId, NodeId}
use web4_v.Model.Inventory.{InventoryState, Units, units_of, get_amount, put_amount, ensure_node}

abbrev pub total_nodes : UnitId → Dict NodeId Units → ℤ
total_nodes u [] = pos 0
total_nodes u ((n, units) ∷ nodes) = get (pos 0) u units +ℤ total_nodes u nodes

-- The supply of a unit: the sum of its holdings over all nodes.
abbrev pub total : UnitId → InventoryState → ℤ
total u s = total_nodes u s.holdings

swap_ends : (a b c : ℤ) → a +ℤ b +ℤ c ≡ c +ℤ b +ℤ a
swap_ends a b c = omega int_laws

cancel : (x t g : ℤ) → x +ℤ g ≡ t +ℤ g → x ≡ t
cancel x t g h = grind int_laws

total_nodes-insert :
    (u : UnitId) (n : NodeId) (units : Units) (d : Dict NodeId Units)
    → total_nodes u (insert n units d) +ℤ get (pos 0) u (get [] n d)
      ≡ total_nodes u d +ℤ get (pos 0) u units
total_nodes-insert u n units [] =
    +ℤ_zero (get (pos 0) u units +ℤ pos 0) ∙ +ℤ_comm (get (pos 0) u units) (pos 0)
total_nodes-insert u n units ((m, old) ∷ d) = elim (Bool-cases (m == n)) [
  | inl same ↦
      rw (same, get) (swap_ends (get (pos 0) u units) (total_nodes u d) (get (pos 0) u old))
  | inr other ↦
      rw (other, get)
        (+ℤ_assoc (get (pos 0) u old) (total_nodes u (insert n units d)) _
          ∙ ap (λ x. get (pos 0) u old +ℤ x) (total_nodes-insert u n units d)
          ∙ sym (+ℤ_assoc (get (pos 0) u old) (total_nodes u d) (get (pos 0) u units)))
]

put_balance :
    (same : Bool) (x t held new old : ℤ)
    → (same ≡ true → held ≡ old)
    → x +ℤ old ≡ t +ℤ (if same then new else old)
    → x +ℤ (if same then held else pos 0) ≡ t +ℤ (if same then new else pos 0)
put_balance true x t held new old here h = rw (here refl) h
put_balance false x t held new old here h = ap (λ y. y +ℤ pos 0) (cancel x t old h)

pub total-put_amount :
    (w : UnitId) (s : InventoryState) (n : NodeId) (u : UnitId) (a : ℤ)
    → total w (put_amount s n u a) +ℤ (if u == w then get_amount s n u else pos 0)
      ≡ total w s +ℤ (if u == w then a else pos 0)
unfolding put_amount get_amount
total-put_amount w s n u a =
    put_balance (u == w) (total w (put_amount s n u a)) (total w s) (get_amount s n u) a
      (get_amount s n w) (λ e. ground (arith, ==_iff u w))
      (total_nodes-insert w n (insert u a (units_of s n)) s.holdings
        ∙ ap (λ x. total w s +ℤ x) (ground (arith, lookup-insert u w a (units_of s n))))

pub total-ensure_node :
    (w : UnitId) (s : InventoryState) (n : NodeId) → total w (ensure_node s n) ≡ total w s
unfolding ensure_node
total-ensure_node w s n = elim (Option-cases (lookup n s.holdings)) [
  | inr (units, found) ↦ rw (found, has)
  | inl missing ↦
      rw (missing, has)
        (cancel _ _ (pos 0) (rw (missing, get) at (total_nodes-insert w n [] s.holdings)))
]
