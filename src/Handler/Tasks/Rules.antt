-- ===== src/Handler/Tasks/Rules.antt =====
-- Invariants of the tasks of core/handler/handler.go, one rule for each way to build a task.
use web4_v.Base.{◌≡◌, refl, Bool, true, false, Option, none, some, Result, ok, err, Error}
use web4_v.Handler.Session.{Session}
use web4_v.Message.{MessageType}
use web4_v.Message.Payloads.{Payload}
use web4_v.Model.Types.{Bytes, TxId}
use web4_v.Handler.Tasks.{Services, Handler}
use web4_v.Handler.Tasks.Steps.{
  Task, follow, ◌>>=◌, ◌>>◌, lift, current, update_session, on_result, on_option, guard_that,
  sign_response, respond, reject,
}

-- A task keeps `P`, whether it returns or fails.
pub record Keeps {F S A : Type 0} (P : Handler F S → Type 0) (task : Task F S A) : Type 0 where
  pub at : (h : Handler F S) → P h → P (task h).1

module _ {F S A : Type 0} {P : Handler F S → Type 0} where
  pub Keeps-lift : (r : Result A) → Keeps P (lift r)
  unfolding lift
  Keeps-lift r = record { at = λ h p. p }

  pub Keeps-on_option :
      {B : Type 0} (o : Option B) (missing : Task F S A) (next : B → Task F S A)
      → (o ≡ none → Keeps P missing)
      → ((b : B) → o ≡ some b → Keeps P (next b))
      → Keeps P (on_option o missing next)
  unfolding on_option
  Keeps-on_option none missing next km kn = km refl
  Keeps-on_option (some b) missing next km kn = kn b refl

  pub Keeps-on_result :
      {B : Type 0} (r : Result B) (failed : Error → Task F S A) (next : B → Task F S A)
      → ((why : Error) → r ≡ err why → Keeps P (failed why))
      → ((b : B) → r ≡ ok b → Keeps P (next b))
      → Keeps P (on_result r failed next)
  unfolding on_result
  Keeps-on_result (ok b) failed next kf kn = kn b refl
  Keeps-on_result (err why) failed next kf kn = kf why refl

  pub Keeps-guard_that :
      (bad : Bool) (refuse next : Task F S A)
      → (bad ≡ true → Keeps P refuse)
      → (bad ≡ false → Keeps P next)
      → Keeps P (guard_that bad refuse next)
  unfolding guard_that
  Keeps-guard_that true refuse next kr kn = kr refl
  Keeps-guard_that false refuse next kr kn = kn refl

  follow-kept :
      {B : Type 0} (r : Result B × Handler F S) (next : B → Task F S A)
      → P r.1
      → ((b : B) → r.0 ≡ ok b → Keeps P (next b))
      → P (follow r next).1
  follow-kept (ok b, h) next p kn = (kn b refl).at h p
  follow-kept (err why, h) next p kn = p

  pub Keeps-bind :
      {B : Type 0} (task : Task F S B) (next : B → Task F S A)
      → Keeps P task
      → ((b : B) → Keeps P (next b))
      → Keeps P (task >>= next)
  unfolding ◌>>=◌
  Keeps-bind task next kt kn = record {
    at = λ h p. follow-kept (task h) next (kt.at h p) (λ b _. kn b);
  }

  -- The rest of the block may use that `r` did not fail.
  pub Keeps-bind_lift :
      {B : Type 0} (r : Result B) (next : B → Task F S A)
      → ((b : B) → r ≡ ok b → Keeps P (next b))
      → Keeps P (lift r >>= next)
  unfolding ◌>>=◌ lift
  Keeps-bind_lift r next kn = record { at = λ h p. follow-kept (r, h) next p kn }

  pub Keeps-then :
      {B : Type 0} (task : Task F S B) (next : Task F S A)
      → Keeps P task
      → Keeps P next
      → Keeps P (task >> next)
  unfolding ◌>>◌
  Keeps-then task next kt kn = record {
    at = λ h p. follow-kept (task h) (λ _. next) (kt.at h p) (λ b _. kn);
  }

module _ {F S : Type 0} {P : Handler F S → Type 0} where
  pub Keeps-current : Keeps P current
  unfolding current
  Keeps-current = record { at = λ h p. p }

  pub Keeps-update :
      (f : Session F → Session F)
      → ((h : Handler F S) → P h → P (record h { session = f h.session }))
      → Keeps P (update_session f)
  unfolding update_session
  Keeps-update f k = record { at = k }

  pub Keeps-sign_response :
      (x : Services F S) (t : MessageType) (p : Payload F) → Keeps P (sign_response x t p)
  unfolding sign_response
  Keeps-sign_response x t p = record { at = λ h k. k }

  pub Keeps-respond : (x : Services F S) (t : MessageType) (p : Payload F) → Keeps P (respond x t p)
  unfolding respond
  Keeps-respond x t p = Keeps-bind _ _ (Keeps-sign_response x t p) (λ m. Keeps-lift _)

  pub Keeps-reject :
      (x : Services F S) (ref : TxId) (code reason : Bytes) → Keeps P (reject x ref code reason)
  unfolding reject
  Keeps-reject x ref code reason = Keeps-respond x _ _

pub ruleset keeps_rules = (
  Keeps-lift, Keeps-on_option, Keeps-on_result, Keeps-guard_that, Keeps-bind, Keeps-then,
  Keeps-current, Keeps-sign_response, Keeps-respond, Keeps-reject,
)
