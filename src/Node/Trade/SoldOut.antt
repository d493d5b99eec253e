-- ===== src/Node/Trade/SoldOut.antt =====
-- A node that has sold all that it held of a unit, in `combinedInventory` of core/node/trade.go.
use web4_v.Base.{
  ◌≡◌, refl, sym, ◌∙◌, ap, true, false, [], ◌∷◌, Option, none, some, Result, ok, err, ◌>>=◌, ◌==◌,
  nat_eq, arith, inl, inr, Bool-cases, Error, panicked, amount_not_positive,
}
use mathlib.Core.Path.{subst}
use web4_v.Base.Int.{ℤ, pos, ◌≤ℤ◌, ◌-ℤ◌, ltb_ℤ, int_laws}
use web4_v.Base.Dict.{lookup, insert, lookup-insert_self}
use web4_v.Model.Types.{UnitId, NodeId}
use web4_v.Model.Amount.{valid_amount}
use web4_v.Model.Inventory.{
  InventoryState, Units, Outcome, units_of, get_amount, put_amount, add_checked, sub_amount,
  new_inventory_state,
}
use web4_v.Model.Inventory.Holdings.{IsValid, get_amount-IsAmount}
use web4_v.Model.Inventory.Effects.{sub_amount-cases}
use web4_v.Model.Trade.{advance}
use web4_v.Node.State.{Node, balance}
use web4_v.Node.Trade.{or_panicked, gather, combined_inventory}

then_panics :
    (o : Outcome) (rest : InventoryState → Result InventoryState)
    → ((s : InventoryState) → rest s ≡ err panicked)
    → (or_panicked (advance o) >>= rest) ≡ err panicked
then_panics (ok _, s) rest h = h s
then_panics (err _, s) rest h = refl

add_checked-refuses :
    (s : InventoryState) (n : NodeId) (u : UnitId) (x : ℤ)
    → valid_amount x ≡ false
    → add_checked s n u x ≡ (err amount_not_positive, s)
unfolding add_checked
add_checked-refuses s n u x bad = rw bad refl

same_value : (a b : ℤ) → Option.some a ≡ some b → a ≡ b
same_value a b e = cc

-- A holding that is not positive stops the loop, wherever it stands.
gather-panics :
    (id : NodeId) (units : Units) (out : InventoryState) (u : UnitId) (x : ℤ)
    → lookup u units ≡ some x
    → valid_amount x ≡ false
    → gather id units out ≡ err panicked
unfolding gather
gather-panics id [] out u x found bad = absurd (cc)
gather-panics id ((unit, amount) ∷ units) out u x found bad = elim (Bool-cases (unit == u)) [
  | inl here ↦
      let same : amount ≡ x = same_value _ _ (sym (rw here refl) ∙ found) in
      rw (same, add_checked-refuses out id unit x bad) refl
  | inr away ↦
      then_panics (add_checked out id unit amount) _
        (λ s. gather-panics id units s u x (sym (rw away refl) ∙ found) bad)
]

followed_by_panic :
    (r : Result InventoryState) (rest : InventoryState → Result InventoryState)
    → ((e : Error) → r ≡ err e → e ≡ panicked)
    → ((s : InventoryState) → rest s ≡ err panicked)
    → (r >>= rest) ≡ err panicked
followed_by_panic (ok s) rest only h = h s
followed_by_panic (err e) rest only h = ap err (only e refl)

only_panics :
    (o : Outcome) (rest : InventoryState → Result InventoryState) (e : Error)
    → ((s : InventoryState) → rest s ≡ err e → e ≡ panicked)
    → (or_panicked (advance o) >>= rest) ≡ err e
    → e ≡ panicked
only_panics (ok _, s) rest e h k = h s k
only_panics (err _, s) rest e h k = cc

gather-only :
    (id : NodeId) (units : Units) (out : InventoryState) (e : Error)
    → gather id units out ≡ err e
    → e ≡ panicked
unfolding gather
gather-only id [] out e h = absurd (cc)
gather-only id ((unit, amount) ∷ units) out e h =
    only_panics (add_checked out id unit amount) _ e (λ s k. gather-only id units s e k) h

lookup-put_amount :
    (s : InventoryState) (n : NodeId) (u : UnitId) (a : ℤ)
    → lookup u (units_of (put_amount s n u a) n) ≡ some a
unfolding put_amount
lookup-put_amount s n u a =
    subst (λ d. lookup u (elim d [ none ↦ [] | some v ↦ v ]) ≡ some a)
      (sym (lookup-insert_self n (insert u a (units_of s n)) s.holdings))
      (lookup-insert_self u a (units_of s n))

-- A call of `Sub` for the whole of a positive holding leaves an entry of zero.
sell_all :
    (s : InventoryState) (n : NodeId) (u : UnitId)
    → IsValid s
    → pos 1 ≤ℤ get_amount s n u
    → sub_amount s n u (get_amount s n u) ≡ (ok tt, put_amount s n u (pos 0))
sell_all s n u valid some_left =
    let x = get_amount s n u in
    let positive : valid_amount x ≡ true = ground arith in
    let covered : ltb_ℤ x x ≡ false = ground arith in
    let nothing : x -ℤ x ≡ pos 0 = grind int_laws in
    rw
      (
        sub_amount-cases s n u x (get_amount-IsAmount s n u valid).0 valid,
        positive,
        covered,
        nothing,
      )
      refl

module _ {F : Type 0} where
  abbrev emptied : Node F → UnitId → Node F
  emptied n u = record n { inventory = (sub_amount n.inventory n.id u (balance n u)).1 }

  -- At a node with a well-formed inventory, a call of `Sub` for the whole of a positive holding
  -- succeeds, and `combinedInventory` panics on the node after it, as the seller and as the buyer and
  -- whatever the other node holds.
  pub sold_out-panics :
      (n other : Node F) (u : UnitId)
      → IsValid n.inventory
      → pos 1 ≤ℤ balance n u
      → ((sub_amount n.inventory n.id u (balance n u)).0 ≡ ok tt)
        × (combined_inventory (emptied n u) other ≡ err panicked)
        × (combined_inventory other (emptied n u) ≡ err panicked)
  unfolding combined_inventory
  sold_out-panics n other u valid held =
      let sold = sell_all n.inventory n.id u valid held in
      let left : lookup u (units_of (emptied n u).inventory n.id) ≡ some (pos 0) =
        rw (ap (λ r. r.1) sold) (lookup-put_amount n.inventory n.id u (pos 0)) in
      (
        ap (λ r. r.0) sold,
        rw
            (gather-panics n.id (units_of (emptied n u).inventory n.id) new_inventory_state u
              (pos 0) left refl)
            refl,
        followed_by_panic (gather other.id (units_of other.inventory other.id) new_inventory_state)
            _ (gather-only other.id (units_of other.inventory other.id) new_inventory_state)
            (λ s. gather-panics n.id (units_of (emptied n u).inventory n.id) s u (pos 0) left refl),
      )
