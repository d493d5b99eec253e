-- ===== src/Handler/Tasks/Steps.antt =====
-- The steps that the handlers of core/handler/handler.go are made of. A task returns a value or an error,
-- and what it has changed stays changed either way, as in Go's methods.
use web4_v.Base.{Bool, Option, none, some, Result, ok, err, Error, if◌then◌else◌}
use web4_v.Canonical.{ascii}
use web4_v.Model.Types.{Bytes, TxId}
use web4_v.Message.{MessageType}
use web4_v.Message.Payloads.{Payload, rejection}
use web4_v.Handler.Session.{Session}
use web4_v.Handler.Tasks.{Services, SignedMessage, Handler, Reply, answer, signed_message}

abbrev pub Task : Type 0 → Type 0 → Type 0 → Type 0
Task F S A = Handler F S → Result A × Handler F S

module _ {F S : Type 0} where
  abbrev pub follow :
      {A B : Type 0} → Result A × Handler F S → (A → Task F S B) → Result B × Handler F S
  follow (ok a, h) next = next a h
  follow (err e, h) next = (err e, h)

  infixl 5 ◌>>=◌ ◌>>◌
  unfoldable pub ◌>>=◌ : {A B : Type 0} → Task F S A → (A → Task F S B) → Task F S B
  ◌>>=◌ task next h = follow (task h) next

  unfoldable pub ◌>>◌ : {A B : Type 0} → Task F S A → Task F S B → Task F S B
  ◌>>◌ task next h = follow (task h) (λ _. next)

  -- A value or an error that changes nothing.
  unfoldable pub lift : {A : Type 0} → Result A → Task F S A
  lift r h = (r, h)

  unfoldable pub current : Task F S (Handler F S)
  current h = (ok h, h)

  unfoldable pub update_session : (Session F → Session F) → Task F S (Unit {0})
  update_session f h = (ok tt, record h { session = f h.session })

  unfoldable pub on_result :
      {A B : Type 0} → Result A → (Error → Task F S B) → (A → Task F S B) → Task F S B
  on_result (ok a) failed next = next a
  on_result (err e) failed next = failed e

  unfoldable pub on_option : {A B : Type 0} → Option A → Task F S B → (A → Task F S B) → Task F S B
  on_option none missing next = missing
  on_option (some a) missing next = next a

  unfoldable pub guard_that : {B : Type 0} → Bool → Task F S B → Task F S B → Task F S B
  guard_that bad refuse next = if bad then refuse else next

  module _ (x : Services F S) where
    unfoldable pub sign_response : MessageType → Payload F → Task F S SignedMessage
    sign_response msg_type payload h = (signed_message x h.node h.random msg_type payload, h)

    unfoldable pub respond : MessageType → Payload F → Task F S Reply
    respond msg_type payload = do m ← sign_response msg_type payload; lift (ok (answer m))

    unfoldable pub reject : TxId → Bytes → Bytes → Task F S Reply
    reject ref code reason = respond (ascii "REJECT") (rejection ref code reason)
