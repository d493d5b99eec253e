-- ===== src/Model/Trade/Coverage.antt =====
-- `checkTradeInventoryCoverage` of core/model/protocol.go is enough for the charges that follow it.
use web4_v.Base.{
  ◌≡◌, refl, sym, ◌∙◌, List, [], ◌∷◌, some, ◌&&◌, ok, err, if◌then◌else◌, ◌==◌, ==_iff, arith,
  nat_eq, inl, inr, >>=-eq-ok, Option-cases,
}
use web4_v.Base.Int.{ℤ, pos, ◌-ℤ◌, ◌≤ℤ◌, IsI64, int_laws, zero_+ℤ, +ℤ_parts}
use web4_v.Base.Dict.{Dict, lookup, get}
use web4_v.Model.Types.{UnitId, NodeId, Value}
use web4_v.Model.Inventory.{InventoryState, Outcome, get_amount, sub_amount}
use web4_v.Model.Inventory.Holdings.{IsValid, get_amount-IsAmount}
use web4_v.Model.Inventory.Effects.{Succeeds, sub_amount_effect}
use web4_v.Model.Sums.{tally, sum_of, sum_of_nonneg, InRange, ArePositive, tally-sum}
use web4_v.Model.Trade.{advance, charge, covers, check_trade_inventory_coverage}

covers-le :
    (s : InventoryState) (n : NodeId) (required : Dict UnitId ℤ) (u : UnitId) (a : ℤ)
    → covers s n required ≡ ok tt
    → lookup u required ≡ some a
    → a ≤ℤ get_amount s n u
unfolding covers
covers-le s n [] u a e found = cc
covers-le s n ((w, b) ∷ required) u a e found =
    ground (arith, covers-le s n required u a, ==_iff w u)

-- A party of a well-formed inventory that passes the check on inputs of int64 amounts holds at
-- least their exact sum of every unit.
pub coverage_sound :
    (s : InventoryState) (n : NodeId) (vs : List Value) (u : UnitId)
    → IsValid s
    → InRange vs
    → check_trade_inventory_coverage s n vs ≡ ok tt
    → sum_of u vs ≤ℤ get_amount s n u
unfolding check_trade_inventory_coverage
coverage_sound s n vs u valid r e =
    let (required, e1, e2) = >>=-eq-ok (tally [] vs) _ e in
    let sum : get (pos 0) u required ≡ sum_of u vs =
      tally-sum [] vs required tt r e1 u ∙ zero_+ℤ (sum_of u vs) in
    elim (Option-cases (lookup u required)) [
      | inl missing ↦
          let zero_sum : sum_of u vs ≡ pos 0 = sym sum ∙ rw (missing, get) in
          rw zero_sum ((get_amount-IsAmount s n u valid).1)
      | inr (a, found) ↦
          let same : sum_of u vs ≡ a = sym sum ∙ rw (found, get) in
          rw same (covers-le s n required u a e2 found)
    ]

Succeeds-advance :
    (s : InventoryState) (n : NodeId) (u : UnitId) (a : ℤ) (o : Outcome)
    → Succeeds s n u a o
    → advance o ≡ ok o.1
Succeeds-advance s n u a (ok _, t) h = refl
Succeeds-advance s n u a (err _, t) h = absurd (cc)

sub_covered :
    (s : InventoryState) (n : NodeId) (v : Value)
    → IsValid s
    → IsI64 v.amount
    → pos 1 ≤ℤ v.amount
    → v.amount ≤ℤ get_amount s n v.unit
    → Succeeds s n v.unit (get_amount s n v.unit -ℤ v.amount) (sub_amount s n v.unit v.amount)
sub_covered s n v valid r p h = elim (sub_amount_effect s n v.unit v.amount r valid) [
  | inl (_, _, done) ↦ done
  | inr (inl (_, short, _)) ↦ absurd (short h)
  | inr (inr (negative, _)) ↦ absurd (omega arith)
]

first-le :
    (u : UnitId) (v : Value) (vs : List Value) (x : ℤ)
    → ArePositive (v ∷ vs)
    → sum_of v.unit (v ∷ vs) ≤ℤ x
    → v.amount ≤ℤ x
first-le u v vs x p h =
    ground (arith, +ℤ_parts v.amount (sum_of v.unit vs), sum_of_nonneg v.unit vs p.1)

-- A party of a well-formed inventory that holds the sums of positive int64 inputs can be charged
-- all of them.
pub charge_covered :
    (n : NodeId) (s : InventoryState) (vs : List Value)
    → IsValid s
    → InRange vs
    → ArePositive vs
    → ((u : UnitId) → sum_of u vs ≤ℤ get_amount s n u)
    → (t : InventoryState) × (charge n s vs ≡ ok t)
unfolding charge
charge_covered n s [] valid r p h = (s, refl)
charge_covered n s (v ∷ vs) valid r p h =
    let done =
      sub_covered s n v valid r.0 p.0 (first-le v.unit v vs (get_amount s n v.unit) p (h v.unit)) in
    let (t, e) =
      charge_covered n (sub_amount s n v.unit v.amount).1 vs done.1.0 r.1 p.1
        (λ u. left u (get_amount (sub_amount s n v.unit v.amount).1 n u) (done.1.1 n u)) in
    (t, rw (Succeeds-advance s n v.unit _ (sub_amount s n v.unit v.amount) done) e)
  where
    left :
        (u : UnitId) (x : ℤ)
        → x
          ≡ (if n == n && v.unit == u then get_amount s n v.unit -ℤ v.amount else get_amount s n u)
        → sum_of u vs ≤ℤ x
    left u x e = grind (int_laws, h u, ==_iff v.unit u)
