-- ===== src/Model/Trade/Charges.antt =====
-- The loops of `ApplyTradeTx` and `ApplyStructuralIssueTx` (core/model/protocol.go) that take inputs
-- from a party and give outputs to their owners.
use web4_v.Base.{
  ℕ, ◌≡◌, sym, ap, ◌∙◌, List, [], ◌∷◌, ◌&&◌, ok, err, Error, if◌then◌else◌, ◌==◌, ==_iff, arith,
  nat_eq, inl, inr, >>=-eq-ok,
}
use mathlib.Core.Path.{subst}
use web4_v.Base.Int.{ℤ, pos, ◌+ℤ◌, ◌-ℤ◌, IsI64, int_laws, +ℤ_assoc, +ℤ_zero}
use web4_v.Model.Types.{UnitId, NodeId, Value}
use web4_v.Model.Inventory.{InventoryState, Outcome, get_amount, add_checked, sub_amount}
use web4_v.Model.Inventory.Holdings.{IsValid}
use web4_v.Model.Inventory.Effects.{Sets, Succeeds, add_checked_effect, sub_amount_effect}
use web4_v.Model.Sums.{sum_of, InRange}
use web4_v.Model.Trade.{advance, charge, credit}

-- The exact sum of the amounts of one unit that go to one owner.
abbrev pub sum_to : NodeId → UnitId → List Value → ℤ
sum_to n u [] = pos 0
sum_to n u (v ∷ vs) = (if v.owner == n && v.unit == u then v.amount else pos 0) +ℤ sum_to n u vs

advance-Succeeds :
    (s : InventoryState) (n : NodeId) (u : UnitId) (a : ℤ) (o : Outcome) (t : InventoryState)
    → Succeeds s n u a o
    → advance o ≡ ok t
    → Sets s n u a t
advance-Succeeds s n u a (ok _, t') t h e = subst (λ x. Sets s n u a x) (ground arith) h.1
advance-Succeeds s n u a (err _, t') t h e = absurd (cc)

advance-err : (o : Outcome) (x : Error) (t : InventoryState) → o.0 ≡ err x → advance o ≡ ok t → ⊥
advance-err (ok _, t') x t h e = cc
advance-err (err _, t') x t h e = cc

pub add_step :
    (s : InventoryState) (v : Value) (t : InventoryState)
    → IsI64 v.amount
    → IsValid s
    → advance (add_checked s v.owner v.unit v.amount) ≡ ok t
    → Sets s v.owner v.unit (get_amount s v.owner v.unit +ℤ v.amount) t
add_step s v t h valid e = elim (add_checked_effect s v.owner v.unit v.amount h valid) [
  | inl (_, _, done) ↦ advance-Succeeds s v.owner v.unit _ _ t done e
  | inr (inl (_, _, failed)) ↦ absurd (advance-err _ _ t failed.0 e)
  | inr (inr (_, failed)) ↦ absurd (advance-err _ _ t failed.0 e)
]

pub sub_step :
    (s : InventoryState) (party : NodeId) (v : Value) (t : InventoryState)
    → IsI64 v.amount
    → IsValid s
    → advance (sub_amount s party v.unit v.amount) ≡ ok t
    → Sets s party v.unit (get_amount s party v.unit -ℤ v.amount) t
sub_step s party v t h valid e = elim (sub_amount_effect s party v.unit v.amount h valid) [
  | inl (_, _, done) ↦ advance-Succeeds s party v.unit _ _ t done e
  | inr (inl (_, _, failed)) ↦ absurd (advance-err _ _ t (ap (λ o. o.0) failed) e)
  | inr (inr (_, failed)) ↦ absurd (advance-err _ _ t (ap (λ o. o.0) failed) e)
]

-- Every output that was credited is in the holding of its owner, and nothing else is.
pub credit_effect :
    (s : InventoryState) (vs : List Value) (t : InventoryState)
    → IsValid s
    → InRange vs
    → credit s vs ≡ ok t
    → IsValid t × ((n : NodeId) (u : UnitId) → get_amount t n u ≡ get_amount s n u +ℤ sum_to n u vs)
unfolding credit
credit_effect s [] t valid r e =
    let same : t ≡ s = ground arith in rw same (valid, λ n u. sym (+ℤ_zero (get_amount s n u)))
credit_effect s (v ∷ vs) t valid r e =
    let (next, e1, e2) = >>=-eq-ok (advance (add_checked s v.owner v.unit v.amount)) _ e in
    let (valid', sets) = add_step s v next r.0 valid e1 in
    let (valid'', rest) = credit_effect next vs t valid' r.1 e2 in
    (
      valid'',
      λ n u.
          rest n u
          ∙ ap (λ x. x +ℤ sum_to n u vs) (sets n u ∙ added n u)
          ∙ +ℤ_assoc (get_amount s n u) _ (sum_to n u vs),
    )
  where
    added :
        (n : NodeId) (u : UnitId)
        → (if v.owner == n && v.unit == u
            then get_amount s v.owner v.unit +ℤ v.amount
            else get_amount s n u)
          ≡ get_amount s n u +ℤ (if v.owner == n && v.unit == u then v.amount else pos 0)
    added n u = ground (arith, ==_iff v.owner n, ==_iff v.unit u, +ℤ_zero (get_amount s n u))

taken :
    (party n w u : ℕ) (a sum x y final mid : ℤ)
    → (party ≡ n → w ≡ u → y ≡ x)
    → final +ℤ (if party == n then sum else pos 0) ≡ mid
    → mid ≡ (if party == n && w == u then y -ℤ a else x)
    → final +ℤ (if party == n then (if w == u then a else pos 0) +ℤ sum else pos 0) ≡ x
taken party n w u a sum x y final mid here h k = grind (int_laws, ==_iff party n, ==_iff w u, here)

-- What a party was charged has gone from its holdings, and from no other node's.
pub charge_effect :
    (party : NodeId) (s : InventoryState) (vs : List Value) (t : InventoryState)
    → IsValid s
    → InRange vs
    → charge party s vs ≡ ok t
    → IsValid t
      × ((n : NodeId) (u : UnitId)
          → get_amount t n u +ℤ (if party == n then sum_of u vs else pos 0) ≡ get_amount s n u)
unfolding charge
charge_effect party s [] t valid r e =
    let same : t ≡ s = ground arith in
    rw same (valid, λ n u. ground (arith, +ℤ_zero (get_amount s n u)))
charge_effect party s (v ∷ vs) t valid r e =
    let (next, e1, e2) = >>=-eq-ok (advance (sub_amount s party v.unit v.amount)) _ e in
    let (valid', sets) = sub_step s party v next r.0 valid e1 in
    let (valid'', rest) = charge_effect party next vs t valid' r.1 e2 in
    (
      valid'',
      λ n u.
          taken party n v.unit u v.amount (sum_of u vs) (get_amount s n u)
            (get_amount s party v.unit) (get_amount t n u) (get_amount next n u) (λ p q. rw (p, q))
            (rest n u) (sets n u),
    )
