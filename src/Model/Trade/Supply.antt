-- ===== src/Model/Trade/Supply.antt =====
-- What the loops of core/model/protocol.go that charge and credit do to the supply of a unit.
use web4_v.Base.{
  ◌≡◌, sym, ap, ◌∙◌, List, [], ◌∷◌, Bool, true, false, ok, if◌then◌else◌, ◌==◌, arith, nat_eq, inl,
  inr, Bool-cases, >>=-eq-ok,
}
use web4_v.Base.Int.{ℤ, pos, ◌+ℤ◌, ◌-ℤ◌, IsI64, int_laws, +ℤ_zero, +ℤ_assoc, ltb_ℤ}
use web4_v.Model.Types.{UnitId, NodeId, Value}
use web4_v.Model.Amount.{valid_amount}
use web4_v.Model.Amount.Exact.{fits}
use web4_v.Model.Inventory.{
  InventoryState, get_amount, put_amount, ensure_node, add_checked, sub_amount,
}
use web4_v.Model.Inventory.Holdings.{IsValid, get_amount-ensure_node}
use web4_v.Model.Inventory.Effects.{add_checked-cases, sub_amount-cases}
use web4_v.Model.Inventory.Total.{total, total-put_amount, total-ensure_node}
use web4_v.Model.Sums.{sum_of, InRange}
use web4_v.Model.Trade.{advance, charge, credit}
use web4_v.Model.Trade.Charges.{add_step, sub_step}

gain :
    (same : Bool) (x t held a : ℤ)
    → x +ℤ (if same then held else pos 0) ≡ t +ℤ (if same then held +ℤ a else pos 0)
    → x ≡ t +ℤ (if same then a else pos 0)
gain true x t held a h = grind int_laws
gain false x t held a h = grind int_laws

loss :
    (same : Bool) (x t held a : ℤ)
    → x +ℤ (if same then held else pos 0) ≡ t +ℤ (if same then held -ℤ a else pos 0)
    → x +ℤ (if same then a else pos 0) ≡ t
loss true x t held a h = grind int_laws
loss false x t held a h = grind int_laws

total-add :
    (w : UnitId) (s : InventoryState) (n : NodeId) (u : UnitId) (a : ℤ) (t : InventoryState)
    → IsI64 a
    → IsValid s
    → advance (add_checked s n u a) ≡ ok t
    → total w t ≡ total w s +ℤ (if u == w then a else pos 0)
total-add w s n u a t h valid e = elim (Bool-cases (valid_amount a)) [
  | inr bad ↦ absurd (ground (arith, add_checked-cases s n u a h valid))
  | inl good ↦ elim (Bool-cases (fits (get_amount s n u +ℤ a))) [
    | inr over ↦ absurd (ground (arith, add_checked-cases s n u a h valid))
    | inl fit ↦
        let same : t ≡ put_amount (ensure_node s n) n u (get_amount s n u +ℤ a) =
          ground (arith, add_checked-cases s n u a h valid) in
        rw same (
          gain (u == w) _ (total w s) (get_amount s n u) a (
            rw (get_amount-ensure_node s n n u, total-ensure_node w s n) at
              (total-put_amount w (ensure_node s n) n u (get_amount s n u +ℤ a))))
  ]
]

total-sub :
    (w : UnitId) (s : InventoryState) (n : NodeId) (u : UnitId) (a : ℤ) (t : InventoryState)
    → IsI64 a
    → IsValid s
    → advance (sub_amount s n u a) ≡ ok t
    → total w t +ℤ (if u == w then a else pos 0) ≡ total w s
total-sub w s n u a t h valid e = elim (Bool-cases (valid_amount a)) [
  | inr bad ↦ absurd (ground (arith, sub_amount-cases s n u a h valid))
  | inl good ↦ elim (Bool-cases (ltb_ℤ (get_amount s n u) a)) [
    | inl short ↦ absurd (ground (arith, sub_amount-cases s n u a h valid))
    | inr enough ↦
        let same : t ≡ put_amount s n u (get_amount s n u -ℤ a) =
          ground (arith, sub_amount-cases s n u a h valid) in
        rw same (
          loss (u == w) _ (total w s) (get_amount s n u) a
            (total-put_amount w s n u (get_amount s n u -ℤ a)))
  ]
]

-- Crediting outputs raises the supply of each unit by their sum.
pub total-credit :
    (w : UnitId) (s : InventoryState) (vs : List Value) (t : InventoryState)
    → IsValid s
    → InRange vs
    → credit s vs ≡ ok t
    → total w t ≡ total w s +ℤ sum_of w vs
unfolding credit
total-credit w s [] t valid r e =
    let same : t ≡ s = ground arith in rw same (sym (+ℤ_zero (total w s)))
total-credit w s (v ∷ vs) t valid r e =
    let (next, e1, e2) = >>=-eq-ok (advance (add_checked s v.owner v.unit v.amount)) _ e in
    let (valid', _) = add_step s v next r.0 valid e1 in
    total-credit w next vs t valid' r.1 e2
    ∙ ap (λ x. x +ℤ sum_of w vs) (total-add w s v.owner v.unit v.amount next r.0 valid e1)
    ∙ +ℤ_assoc (total w s) (if v.unit == w then v.amount else pos 0) (sum_of w vs)

back : (t a sum s n : ℤ) → t +ℤ sum ≡ n → n +ℤ a ≡ s → t +ℤ (a +ℤ sum) ≡ s
back t a sum s n h k = grind int_laws

-- Charging inputs lowers the supply of each unit by their sum.
pub total-charge :
    (w : UnitId) (party : NodeId) (s : InventoryState) (vs : List Value) (t : InventoryState)
    → IsValid s
    → InRange vs
    → charge party s vs ≡ ok t
    → total w t +ℤ sum_of w vs ≡ total w s
unfolding charge
total-charge w party s [] t valid r e =
    let same : t ≡ s = ground arith in rw same (+ℤ_zero (total w s))
total-charge w party s (v ∷ vs) t valid r e =
    let (next, e1, e2) = >>=-eq-ok (advance (sub_amount s party v.unit v.amount)) _ e in
    let (valid', _) = sub_step s party v next r.0 valid e1 in
    back (total w t) (if v.unit == w then v.amount else pos 0) (sum_of w vs) (total w s)
      (total w next) (total-charge w party next vs t valid' r.1 e2)
      (total-sub w s party v.unit v.amount next r.0 valid e1)
