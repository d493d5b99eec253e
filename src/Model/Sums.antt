-- ===== src/Model/Sums.antt =====
-- The map of amounts by unit that core/model/protocol.go adds up three times (for the inputs and the
-- outputs of a trade, and for what a party has to cover), and the sums that it stands for.
use web4_v.Base.{
  sym, ap, ◌∙◌, ==_iff, ◌≡◌, List, [], ◌∷◌, ◌++◌, Result, ok, ◌>>=◌, if◌then◌else◌, ◌==◌, arith,
  nat_eq, Bool-cases, inl, inr, >>=-eq-ok, All,
}
use web4_v.Base.Int.{ℤ, pos, ◌+ℤ◌, ◌≤ℤ◌, IsI64, int_laws, +ℤ_parts, +ℤ_assoc, +ℤ_zero, zero_+ℤ}
use web4_v.Base.Dict.{
  Dict, get, insert, IsMap, insert-IsMap, lookup-insert, AllValues, AllValues-insert, AllValues-get,
}
use web4_v.Model.Types.{UnitId, Value}
use web4_v.Model.Amount.{checked_add}
use web4_v.Model.Amount.Exact.{fits, fits_iff, checked_add_exact}

-- `for _, v := range values { m[v.Unit] = CheckedAdd(m[v.Unit], v.Amount) }`
unfoldable pub tally : Dict UnitId ℤ → List Value → Result (Dict UnitId ℤ)
tally m [] = ok m
tally m (v ∷ vs) = do
  next ← checked_add (get (pos 0) v.unit m) v.amount
  tally (insert v.unit next m) vs

-- The exact sum of the amounts of one unit.
abbrev pub sum_of : UnitId → List Value → ℤ
sum_of u [] = pos 0
sum_of u (v ∷ vs) = (if v.unit == u then v.amount else pos 0) +ℤ sum_of u vs

-- What the Go type of an amount says, and what `validAmount` tests besides.
abbrev pub InRange : List Value → Type 0
InRange vs = All (λ v. IsI64 v.amount) vs

abbrev pub ArePositive : List Value → Type 0
ArePositive vs = All (λ v. pos 1 ≤ℤ v.amount) vs

pub sum_of-append :
    (u : UnitId) (vs ws : List Value) → sum_of u (vs ++ ws) ≡ sum_of u vs +ℤ sum_of u ws
sum_of-append u [] ws = sym (zero_+ℤ (sum_of u ws))
sum_of-append u (v ∷ vs) ws =
    rw (sum_of-append u vs ws) (sym (+ℤ_assoc _ (sum_of u vs) (sum_of u ws)))

pub sum_of_nonneg : (u : UnitId) (vs : List Value) → ArePositive vs → pos 0 ≤ℤ sum_of u vs
sum_of_nonneg u [] h = omega arith
sum_of_nonneg u (v ∷ vs) h = grind (int_laws, sum_of_nonneg u vs h.1)

pub checked_add-ok :
    (a b c : ℤ) → IsI64 a → IsI64 b → checked_add a b ≡ ok c → IsI64 c × (c ≡ a +ℤ b)
checked_add-ok a b c ha hb e = elim (Bool-cases (fits (a +ℤ b))) [
  | inl f ↦
      let same : c ≡ a +ℤ b = ground (arith, checked_add_exact a b ha hb) in
      (rw same ((fits_iff (a +ℤ b)).0 f), same)
  | inr f ↦ absurd (ground (arith, checked_add_exact a b ha hb))
]

tally_step :
    (m : Dict UnitId ℤ) (v : Value) (next : ℤ) (u : UnitId)
    → next ≡ get (pos 0) v.unit m +ℤ v.amount
    → get (pos 0) u (insert v.unit next m)
      ≡ get (pos 0) u m +ℤ (if v.unit == u then v.amount else pos 0)
tally_step m v next u e =
    ground (arith, lookup-insert v.unit u next m, +ℤ_zero (get (pos 0) u m), ==_iff v.unit u)

sum_positive : (a b : ℤ) → pos 0 ≤ℤ a → pos 1 ≤ℤ b → pos 1 ≤ℤ a +ℤ b
sum_positive a b h k = omega (arith, +ℤ_parts a b)

abbrev pub IsPositive : ℤ → Type 0
IsPositive a = IsI64 a × (pos 1 ≤ℤ a)

abbrev IsHeld : ℤ → Type 0
IsHeld a = IsI64 a × (pos 0 ≤ℤ a)

AllValues-IsHeld : (m : Dict UnitId ℤ) → AllValues IsPositive m → AllValues IsHeld m
AllValues-IsHeld [] h = tt
AllValues-IsHeld ((u, a) ∷ m) h = ((h.0.0, omega (arith, h.0.1)), AllValues-IsHeld m h.1)

-- A map that was added up without overflow has the exact sum of each unit on top of what it had, and
-- int64 values under keys that stand once.
pub tally-sum :
    (m : Dict UnitId ℤ) (vs : List Value) (t : Dict UnitId ℤ)
    → AllValues IsI64 m
    → InRange vs
    → tally m vs ≡ ok t
    → (u : UnitId) → get (pos 0) u t ≡ get (pos 0) u m +ℤ sum_of u vs
unfolding tally
tally-sum m [] t hm hv e u = let same : t ≡ m = ground arith in rw (same, +ℤ_zero)
tally-sum m (v ∷ vs) t hm hv e u =
    let (next, e1, e2) = >>=-eq-ok (checked_add (get (pos 0) v.unit m) v.amount) _ e in
    let (fit, exact) =
      checked_add-ok (get (pos 0) v.unit m) v.amount next
        (AllValues-get IsI64 (pos 0) v.unit m hm (omega arith)) hv.0 e1 in
    tally-sum (insert v.unit next m) vs t (AllValues-insert IsI64 v.unit next m hm fit) hv.1 e2 u
    ∙ ap (λ x. x +ℤ sum_of u vs) (tally_step m v next u exact)
    ∙ +ℤ_assoc (get (pos 0) u m) (if v.unit == u then v.amount else pos 0) (sum_of u vs)

pub tally-IsMap :
    (m : Dict UnitId ℤ) (vs : List Value) (t : Dict UnitId ℤ)
    → IsMap m
    → tally m vs ≡ ok t
    → IsMap t
unfolding tally
tally-IsMap m [] t hm e = let same : t ≡ m = ground arith in rw same hm
tally-IsMap m (v ∷ vs) t hm e =
    let (next, _, e2) = >>=-eq-ok (checked_add (get (pos 0) v.unit m) v.amount) _ e in
    tally-IsMap (insert v.unit next m) vs t (insert-IsMap v.unit next m hm) e2

-- Positive amounts add up to positive sums.
pub tally-IsPositive :
    (m : Dict UnitId ℤ) (vs : List Value) (t : Dict UnitId ℤ)
    → AllValues IsPositive m
    → InRange vs
    → ArePositive vs
    → tally m vs ≡ ok t
    → AllValues IsPositive t
unfolding tally
tally-IsPositive m [] t hm hv hp e = let same : t ≡ m = ground arith in rw same hm
tally-IsPositive m (v ∷ vs) t hm hv hp e =
    let (next, e1, e2) = >>=-eq-ok (checked_add (get (pos 0) v.unit m) v.amount) _ e in
    let (i64, nonneg) =
      AllValues-get IsHeld (pos 0) v.unit m (AllValues-IsHeld m hm) (omega arith, omega arith) in
    let (fit, exact) = checked_add-ok (get (pos 0) v.unit m) v.amount next i64 hv.0 e1 in
    tally-IsPositive (insert v.unit next m) vs t
      (AllValues-insert IsPositive v.unit next m hm
        (fit, rw exact (sum_positive (get (pos 0) v.unit m) v.amount nonneg hp.0)))
      hv.1 hp.1 e2
