-- ===== src/Handler/Session/Seen.antt =====
-- The messages that a session has seen (core/handler/session.go).
use web4_v.Base.{
  ◌≡◌, ◌≢◌, true, false, Result, ok, err, nat_eq, duplicate_message, refl, ap, Bool-cases, inl, inr,
}
use mathlib.Core.Path.{subst}
use web4_v.Base.Dict.{get, insert, lookup-insert_self, lookup-insert_ne}
use web4_v.Model.Types.{TxId}
use web4_v.Handler.Session.{Session, has_seen, mark_seen}

module _ {Float : Type 0} where
  -- What marking a message does to a session.
  abbrev pub Marks : Session Float → TxId → Session Float → Type 0
  Marks s id next =
      (has_seen s id ≡ false)
      × (has_seen next id ≡ true)
      × (mark_seen next id ≡ (err duplicate_message, next))
      × ((j : TxId) → id ≢ j → has_seen next j ≡ has_seen s j)

  abbrev marked : Session Float → TxId → Session Float
  marked s id = record s { seen_messages = insert id true s.seen_messages }

  marked-seen : (s : Session Float) (id : TxId) → has_seen (marked s id) id ≡ true
  marked-seen s id = rw (get, has_seen, lookup-insert_self id true s.seen_messages) refl

  fresh-Marks : (s : Session Float) (id : TxId) → has_seen s id ≡ false → Marks s id (marked s id)
  unfolding mark_seen
  fresh-Marks s id fresh = (
    fresh,
    marked-seen s id,
    rw (marked-seen s id) refl,
    λ j other. rw (get, has_seen, lookup-insert_ne id j true s.seen_messages other) refl,
  )

  -- A message that is marked was not seen before and is seen after; a second mark of it is refused as
  -- a duplicate and changes nothing; whether any other message was seen stays the same.
  pub mark_seen_effect :
      (s : Session Float) (id : TxId) (next : Session Float)
      → mark_seen s id ≡ (ok tt, next)
      → Marks s id next
  unfolding mark_seen
  mark_seen_effect s id next e = elim (Bool-cases (has_seen s id)) [
    | inl seen ↦ absurd (refused (ap (λ x. x.0) (rw seen at e)))
    | inr fresh ↦ subst (Marks s id) (ap (λ x. x.1) (rw fresh at e)) (fresh-Marks s id fresh)
  ]
    where
      refused : ◌≡◌ {A = Result (Unit {0})} (err duplicate_message) (ok tt) → ⊥
      refused h = cc
