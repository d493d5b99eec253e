-- ===== src/Node/Trade/Step.antt =====
-- Steps on the two nodes of a trade and the stores: a step returns a value or an error, and leaves the
-- world as it is then.
use web4_v.Base.{Result, ok, err}
use web4_v.Node.Trade.{World}

abbrev pub Step : Type 0 → Type 0 → Type 0 → Type 0
Step F S A = World F S → Result A × World F S

module _ {F S : Type 0} where
  infixl 5 ◌>>=◌ ◌>>◌
  abbrev pub follow :
      {A B : Type 0} → Result A × World F S → (A → Step F S B) → Result B × World F S
  follow (ok a, w) next = next a w
  follow (err e, w) next = (err e, w)

  abbrev pub ◌>>=◌ : {A B : Type 0} → Step F S A → (A → Step F S B) → Step F S B
  ◌>>=◌ step next w = follow (step w) next

  abbrev pub ◌>>◌ : {B : Type 0} → Step F S (Unit {0}) → Step F S B → Step F S B
  ◌>>◌ step next w = follow (step w) (λ _. next)

  -- A computation that changes nothing.
  abbrev pub lift : {A : Type 0} → Result A → Step F S A
  lift r w = (r, w)

  abbrev pub current : Step F S (World F S)
  current w = (ok w, w)
