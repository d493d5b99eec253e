-- ===== src/Model/Inventory/Effects.antt =====
-- `AddChecked` and `Sub` of core/model/protocol.go, on every branch.
use web4_v.Base.{
  ◌≡◌, ◌⊎◌, refl, inl, inr, true, false, ◌&&◌, Result, ok, err, if◌then◌else◌, ◌==◌, arith, nat_eq,
  Error, Bool-cases, amount_not_positive, amount_overflow, insufficient_inventory,
}
use web4_v.Base.Int.{ℤ, pos, ◌+ℤ◌, ◌-ℤ◌, ◌≤ℤ◌, IsI64, ltb_ℤ, -ℤ_parts, +ℤ_parts}
use web4_v.Model.Types.{UnitId, NodeId}
use web4_v.Model.Amount.{valid_amount}
use web4_v.Model.Amount.Exact.{fits, fits_iff, checked_add_exact, sub_exact, sub-IsI64}
use web4_v.Model.Inventory.{
  InventoryState, get_amount, put_amount, ensure_node, add_to, add_checked, sub_amount,
}
use web4_v.Model.Inventory.Holdings.{
  IsValid, IsAmount, get_amount-put_amount, get_amount-ensure_node, get_amount-IsAmount,
  put_amount-IsValid, ensure_node-IsValid,
}

-- The state after one holding is set: every other holding is as it was.
abbrev pub Sets : InventoryState → NodeId → UnitId → ℤ → InventoryState → Type 0
Sets s n u a t =
    IsValid t
    × ((m : NodeId) (w : UnitId)
        → get_amount t m w ≡ (if n == m && u == w then a else get_amount s m w))

-- The state with every holding as it was.
abbrev pub Keeps : InventoryState → InventoryState → Type 0
Keeps s t = IsValid t × ((m : NodeId) (w : UnitId) → get_amount t m w ≡ get_amount s m w)

sum-IsAmount : (x a : ℤ) → IsAmount x → pos 0 ≤ℤ a → fits (x +ℤ a) ≡ true → IsAmount (x +ℤ a)
sum-IsAmount x a hx ha f = ((fits_iff _).0 f, omega (arith, +ℤ_parts x a))

put-Sets :
    (s : InventoryState) (n : NodeId) (u : UnitId) (a : ℤ)
    → IsValid s
    → IsAmount a
    → Sets s n u a (put_amount s n u a)
put-Sets s n u a v h = (put_amount-IsValid s n u a v h, λ m w. get_amount-put_amount s n m u w a)

add_to-cases :
    (s : InventoryState) (n : NodeId) (u : UnitId) (a : ℤ)
    → IsI64 a
    → IsValid s
    → add_to s n u a ≡ (
        if fits (get_amount s n u +ℤ a)
        then (ok tt, put_amount s n u (get_amount s n u +ℤ a))
        else (err amount_overflow, s))
unfolding add_to
add_to-cases s n u a ha v =
    ground (arith, checked_add_exact (get_amount s n u) a (get_amount-IsAmount s n u v).0 ha)

pub add_checked-cases :
    (s : InventoryState) (n : NodeId) (u : UnitId) (a : ℤ)
    → IsI64 a
    → IsValid s
    → add_checked s n u a ≡ (
        if valid_amount a
        then if fits (get_amount s n u +ℤ a)
          then (ok tt, put_amount (ensure_node s n) n u (get_amount s n u +ℤ a))
          else (err amount_overflow, ensure_node s n)
        else (err amount_not_positive, s))
unfolding add_checked
add_checked-cases s n u a ha v =
    rw (add_to-cases (ensure_node s n) n u a ha (ensure_node-IsValid s n v))
      (rw (get_amount-ensure_node s n n u) refl)

-- How a call that began at `s` ended: with one holding set, or with an error and nothing changed.
abbrev pub Succeeds :
    InventoryState → NodeId → UnitId → ℤ → Result (Unit {0}) × InventoryState → Type 0
Succeeds s n u a (r, t) = (r ≡ ok tt) × Sets s n u a t

abbrev pub Fails : InventoryState → Error → Result (Unit {0}) × InventoryState → Type 0
Fails s e (r, t) = (r ≡ err e) × Keeps s t

-- `AddChecked` of an int64 amount on a well-formed inventory: a positive amount whose sum with the
-- holding is an int64 is added to it, and no other holding changes; any other amount fails with the
-- error of the guard that it does not pass, and no holding changes. The inventory stays well formed.
pub add_checked_effect :
    (s : InventoryState) (n : NodeId) (u : UnitId) (a : ℤ)
    → IsI64 a
    → IsValid s
    → let sum = get_amount s n u +ℤ a in
      ((pos 1 ≤ℤ a) × (fits sum ≡ true) × Succeeds s n u sum (add_checked s n u a))
      ⊎ ((pos 1 ≤ℤ a) × (fits sum ≡ false) × Fails s amount_overflow (add_checked s n u a))
      ⊎ ((a ≤ℤ pos 0) × Fails s amount_not_positive (add_checked s n u a))
add_checked_effect s n u a ha v = elim (Bool-cases (valid_amount a)) [
  | inr bad ↦
      inr (inr (ground arith, rw (add_checked-cases s n u a ha v, bad) (refl, (v, λ m w. refl))))
  | inl good ↦ elim (Bool-cases (fits (get_amount s n u +ℤ a))) [
    | inl f ↦ inl (
      ground arith,
      f,
      rw (add_checked-cases s n u a ha v, good, f) (refl, added (ground arith) f),
    )
    | inr f ↦ inr (
        inl (
          ground arith,
          f,
          rw (add_checked-cases s n u a ha v, good, f)
              (refl, (made, λ m w. get_amount-ensure_node s n m w)),
        ))
  ]
]
  where
    made : IsValid (ensure_node s n)
    made = ensure_node-IsValid s n v

    added :
        pos 0 ≤ℤ a
        → fits (get_amount s n u +ℤ a) ≡ true
        → Sets s n u
            (get_amount s n u +ℤ a)
            (put_amount (ensure_node s n) n u (get_amount s n u +ℤ a))
    added h f =
        let (valid, sets) =
          put-Sets (ensure_node s n) n u (get_amount s n u +ℤ a) made
            (sum-IsAmount _ a (get_amount-IsAmount s n u v) h f) in
        (valid, λ m w. rw (← get_amount-ensure_node s n m w) (sets m w))

pub sub_amount-cases :
    (s : InventoryState) (n : NodeId) (u : UnitId) (a : ℤ)
    → IsI64 a
    → IsValid s
    → sub_amount s n u a ≡ (
        if valid_amount a
        then if ltb_ℤ (get_amount s n u) a
          then (err insufficient_inventory, s)
          else (ok tt, put_amount s n u (get_amount s n u -ℤ a))
        else (err amount_not_positive, s))
unfolding sub_amount
sub_amount-cases s n u a ha v =
    ground (arith, sub_exact (get_amount s n u) a (get_amount-IsAmount s n u v).0 ha)

-- `Sub` of an int64 amount on a well-formed inventory: a positive amount that the holding covers is
-- taken from it, and no other holding changes; any other amount fails, and nothing changes. The
-- inventory stays well formed, so that no holding falls below zero.
pub sub_amount_effect :
    (s : InventoryState) (n : NodeId) (u : UnitId) (a : ℤ)
    → IsI64 a
    → IsValid s
    → let held = get_amount s n u in
      ((pos 1 ≤ℤ a) × (a ≤ℤ held) × Succeeds s n u (held -ℤ a) (sub_amount s n u a))
      ⊎ ((pos 1 ≤ℤ a) × ¬ (a ≤ℤ held) × (sub_amount s n u a ≡ (err insufficient_inventory, s)))
      ⊎ ((a ≤ℤ pos 0) × (sub_amount s n u a ≡ (err amount_not_positive, s)))
sub_amount_effect s n u a ha v = elim (Bool-cases (valid_amount a)) [
  | inr bad ↦ inr (inr (ground arith, rw (sub_amount-cases s n u a ha v, bad)))
  | inl good ↦ elim (Bool-cases (ltb_ℤ (get_amount s n u) a)) [
    | inl f ↦ inr (inl (ground arith, ground arith, rw (sub_amount-cases s n u a ha v, good, f)))
    | inr f ↦ inl (
      ground arith,
      ground arith,
      rw (sub_amount-cases s n u a ha v, good, f)
          (refl, put-Sets s n u (get_amount s n u -ℤ a) v (taken (ground arith) (ground arith))),
    )
  ]
]
  where
    taken : pos 0 ≤ℤ a → a ≤ℤ get_amount s n u → IsAmount (get_amount s n u -ℤ a)
    taken h k = (
      sub-IsI64 (get_amount s n u) a (get_amount-IsAmount s n u v).0 h k,
      omega (arith, -ℤ_parts (get_amount s n u) a),
    )
