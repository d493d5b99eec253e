-- ===== src/Handler/Tasks/Ends.antt =====
-- How a task of core/handler/handler.go that returned a value ran: what each of its steps gave.
use web4_v.Base.{◌≡◌, refl, sym, ap, Option, none, some, Result, ok, err, Error}
use web4_v.Handler.Session.{Session}
use web4_v.Handler.Tasks.{Handler}
use web4_v.Handler.Tasks.Steps.{
  Task, follow, ◌>>=◌, ◌>>◌, lift, current, update_session, on_result, on_option,
}

module _ {F S B : Type 0} where
  follow-done :
      {A : Type 0} (r : Result A × Handler F S) (next : A → Task F S B) (b : B) (g : Handler F S)
      → follow r next ≡ (ok b, g)
      → (a : A) × (r.0 ≡ ok a) × (next a r.1 ≡ (ok b, g))
  follow-done (ok a, h) next b g e = (a, refl, e)
  follow-done (err why, h) next b g e = absurd (cc)

  pub bind-done :
      {A : Type 0} (task : Task F S A) (next : A → Task F S B) (h : Handler F S) (b : B)
      (g : Handler F S)
      → (task >>= next) h ≡ (ok b, g)
      → (a : A) × ((task h).0 ≡ ok a) × (next a (task h).1 ≡ (ok b, g))
  unfolding ◌>>=◌
  bind-done task next h b g e = follow-done (task h) next b g e

  pub then-done :
      {A : Type 0} (task : Task F S A) (next : Task F S B) (h : Handler F S) (b : B)
      (g : Handler F S)
      → (task >> next) h ≡ (ok b, g)
      → (a : A) × ((task h).0 ≡ ok a) × (next (task h).1 ≡ (ok b, g))
  unfolding ◌>>◌
  then-done task next h b g e = follow-done (task h) (λ _. next) b g e

  pub current-done :
      (next : Handler F S → Task F S B) (h : Handler F S) (z : Result B × Handler F S)
      → (current >>= next) h ≡ z
      → next h h ≡ z
  unfolding ◌>>=◌ current
  current-done next h z e = e

  pub update-done :
      (f : Session F → Session F) (next : Task F S B) (h : Handler F S) (z : Result B × Handler F S)
      → (update_session f >> next) h ≡ z
      → next (record h { session = f h.session }) ≡ z
  unfolding ◌>>◌ update_session
  update-done f next h z e = e

  pub lift_bind-done :
      {A : Type 0} (r : Result A) (next : A → Task F S B) (h : Handler F S) (b : B)
      (g : Handler F S)
      → (lift r >>= next) h ≡ (ok b, g)
      → (a : A) × (r ≡ ok a) × (next a h ≡ (ok b, g))
  unfolding ◌>>=◌ lift
  lift_bind-done r next h b g e = follow-done (r, h) next b g e

  pub lift_then-done :
      (r : Result (Unit {0})) (next : Task F S B) (h : Handler F S) (b : B) (g : Handler F S)
      → (lift r >> next) h ≡ (ok b, g)
      → (r ≡ ok tt) × (next h ≡ (ok b, g))
  unfolding ◌>>◌ lift
  lift_then-done (ok tt) next h b g e = (refl, e)
  lift_then-done (err why) next h b g e = absurd (cc)

  pub lift-done :
      (r : Result B) (h : Handler F S) (b : B) (g : Handler F S)
      → lift r h ≡ (ok b, g)
      → (r ≡ ok b) × (g ≡ h)
  unfolding lift
  lift-done r h b g e = (ap (λ z. z.0) e, sym (ap (λ z. z.1) e))

  -- A failure in the missing case leaves the other.
  pub on_option-done :
      {A : Type 0} (o : Option A) (why : Error) (next : A → Task F S B) (h : Handler F S) (b : B)
      (g : Handler F S)
      → on_option o (lift (err why)) next h ≡ (ok b, g)
      → (a : A) × (o ≡ some a) × (next a h ≡ (ok b, g))
  unfolding on_option lift
  on_option-done none why next h b g e = absurd (cc)
  on_option-done (some a) why next h b g e = (a, refl, e)

  -- A check that runs a clean-up and fails, before the rest.
  pub check-done :
      {A : Type 0} (r : Result A) (clean : Error → Task F S (Unit {0})) (why : Error → Error)
      (next : Task F S B) (h : Handler F S) (b : B) (g : Handler F S)
      → (on_result r (λ e. clean e >> lift {A = Unit} (err (why e))) (λ _. lift (ok tt)) >> next) h
        ≡ (ok b, g)
      → ((a : A) × (r ≡ ok a)) × (next h ≡ (ok b, g))
  unfolding on_result lift ◌>>◌
  check-done (ok a) clean why next h b g e = ((a, refl), e)
  check-done (err x) clean why next h b g e = absurd (never (clean x h) e)
    where
      never :
          (r : Result (Unit {0}) × Handler F S)
          → follow (follow r (λ _ h'. (err (why x), h'))) (λ (_ : Unit). next) ≡ (ok b, g)
          → ⊥
      never (ok u, h') e' = cc
      never (err y, h') e' = cc
