-- ===== src/Handler/Messages/Once.antt =====
-- No message is handled twice (core/handler/handler.go), whatever messages come in between.
use web4_v.Base.{
  ◌≡◌, refl, sym, ◌∙◌, ap, ◌⊎◌, inl, inr, Bool, true, false, List, [], ◌∷◌, Result, ok, err, Error,
  Result-cases, if◌then◌else◌, ◌==◌, ==_iff, ==_refl, nat_eq, fail_if-false, Bool-cases, arith,
  sender_not_session_peer, duplicate_message, invalid_peer,
}
use mathlib.Core.Path.{subst}
use web4_v.Base.Dict.{get, insert, lookup-insert}
use web4_v.Model.Types.{Bytes, TxId}
use web4_v.Message.{verify_envelope}
use web4_v.Handler.Session.{Session, has_seen, mark_seen}
use web4_v.Handler.Tasks.{Services, Handler, SignedMessage, Reply, codec_of}
use web4_v.Handler.Tasks.Steps.{◌>>=◌, ◌>>◌, lift, current}
use web4_v.Handler.Messages.{
  admit, mark_message, process, handle_message, Delivery, at_arrival, deliver, deliver_all,
}
use web4_v.Handler.Messages.Inbox.{HasInbox, process-HasInbox}

-- The session with the message marked.
abbrev marked : {F : Type 0} → TxId → Session F → Session F
marked id s = record s { seen_messages = insert id true s.seen_messages }

-- A message that a handler lets in.
pub record IsLetIn {F S : Type 0} (x : Services F S) (m : SignedMessage) (key : Bytes)
    (s : Session F) : Type 0 where
  pub verified : verify_envelope x.crypto (codec_of x) m.envelope m.payload_bytes key ≡ ok tt
  pub from_peer : m.envelope.sender ≡ s.peer_id
  pub unseen : has_seen s m.envelope.message_id ≡ false

module _ {F : Type 0} where
  admit-parts :
      (m : SignedMessage) (s : Session F)
      → admit m s ≡ ok tt
      → (m.envelope.sender ≡ s.peer_id) × (has_seen s m.envelope.message_id ≡ false)
  unfolding admit
  admit-parts m s e = elim (Bool-cases (m.envelope.sender == s.peer_id)) [
    | inl same ↦ (
      (==_iff m.envelope.sender s.peer_id).0 same,
      fail_if-false (has_seen s m.envelope.message_id) duplicate_message (rw same at e),
    )
    | inr other ↦ absurd (refused (rw other at e))
  ]
    where
      refused : ◌≡◌ {A = Result (Unit {0})} (err sender_not_session_peer) (ok tt) → ⊥
      refused h = cc

  mark_seen-fresh :
      (s : Session F) (id : TxId) → has_seen s id ≡ false → mark_seen s id ≡ (ok tt, marked id s)
  unfolding mark_seen
  mark_seen-fresh s id fresh = rw fresh refl

  -- A mark that is there stays.
  seen-marked :
      (s : Session F) (id j : TxId) → has_seen s j ≡ true → has_seen (marked id s) j ≡ true
  seen-marked s id j h = ground (arith, lookup-insert id j true s.seen_messages)

module _ {F S : Type 0} (x : Services F S) where
  entered :
      (m : SignedMessage) (key : Bytes) (h : Handler F S) (v : Result (Unit {0}))
      → v ≡ verify_envelope x.crypto (codec_of x) m.envelope m.payload_bytes key
      → ((why : Error) × (handle_message x m key h ≡ (err why, h)))
        ⊎ (IsLetIn x m key h.session
            × (handle_message x m key h
                ≡ process x m key (record h { session = marked m.envelope.message_id h.session })))
  unfolding handle_message ◌>>=◌ ◌>>◌ lift current mark_message
  entered m key h (err why) e = inl (invalid_peer why, rw (sym e) refl)
  entered m key h (ok u) e = elim (Result-cases (admit m h.session)) [
    | inr (why, refused) ↦ inl (why, rw (sym e, refused) refl)
    | inl (_, passed) ↦
        let (same, fresh) = admit-parts m h.session passed in
        inr (
          record { verified = sym e; from_peer = same; unseen = fresh },
          rw (sym e, passed, mark_seen-fresh h.session m.envelope.message_id fresh) refl,
        )
  ]

  -- A handler was changed by a message that it let in: the message is marked, and no other mark has
  -- changed.
  abbrev pub LetIn : SignedMessage → Bytes → Handler F S → Handler F S → Type 0
  LetIn m key h next =
      IsLetIn x m key h.session
      × (next.session.peer_id ≡ h.session.peer_id)
      × ((j : TxId)
          → has_seen next.session j
            ≡ (if m.envelope.message_id == j then true else has_seen h.session j))

  processed :
      (m : SignedMessage) (key : Bytes) (h : Handler F S)
      → let s = marked m.envelope.message_id h.session in
        HasInbox s (process x m key (record h { session = s })).1
  processed m key h =
      (process-HasInbox x m key).at _ (record { same_peer = refl; same_seen = refl })

  inbox-LetIn :
      (m : SignedMessage) (key : Bytes) (h next : Handler F S)
      → IsLetIn x m key h.session
      → HasInbox (marked m.envelope.message_id h.session) next
      → LetIn m key h next
  inbox-LetIn m key h next entry inbox = (
    entry,
    inbox.same_peer,
    λ j.
        ap (λ d. get false j d) inbox.same_seen
        ∙ ground (arith, lookup-insert m.envelope.message_id j true h.session.seen_messages),
  )

  -- A message either is refused with an error and changes nothing, or its envelope verifies under the
  -- given key, its sender is the peer of the session and it was not seen before; then it is seen after,
  -- however its handler ends, the peer is the same, and whether any other message was seen too.
  pub handle_message-LetIn :
      (m : SignedMessage) (key : Bytes) (h : Handler F S)
      → ((why : Error) × (handle_message x m key h ≡ (err why, h)))
        ⊎ LetIn m key h (handle_message x m key h).1
  handle_message-LetIn m key h =
      elim (entered m key h (verify_envelope x.crypto (codec_of x) m.envelope m.payload_bytes key)
        refl) [
          | inl refused ↦ inl refused
          | inr (entry, runs) ↦ inr (
              subst (λ r. LetIn m key h r.1) (sym runs)
                (inbox-LetIn m key h _ entry (processed m key h)))
        ]

  LetIn-seen :
      (m : SignedMessage) (key : Bytes) (h next : Handler F S) (j : TxId)
      → LetIn m key h next
      → has_seen h.session j ≡ true
      → has_seen next.session j ≡ true
  LetIn-seen m key h next j entry seen =
      entry.2 j ∙ rw seen (same_branches (m.envelope.message_id == j))
    where
      same_branches : (b : Bool) → (if b then true else true) ≡ true
      same_branches true = refl
      same_branches false = refl

  deliver-seen :
      (d : Delivery) (h : Handler F S) (j : TxId)
      → has_seen h.session j ≡ true
      → has_seen (deliver x d h).1.session j ≡ true
  deliver-seen d h j seen = elim (handle_message-LetIn d.message d.peer_pub (at_arrival d h)) [
    | inl (why, same) ↦ ap (λ r. has_seen r.1.session j) same ∙ seen
    | inr entry ↦ LetIn-seen d.message d.peer_pub (at_arrival d h) (deliver x d h).1 j entry seen
  ]

  deliver_all-seen :
      (ds : List Delivery) (h : Handler F S) (j : TxId)
      → has_seen h.session j ≡ true
      → has_seen (deliver_all x ds h).session j ≡ true
  deliver_all-seen [] h j seen = seen
  deliver_all-seen (d ∷ ds) h j seen =
      deliver_all-seen ds (deliver x d h).1 j (deliver-seen d h j seen)

  accepted-seen :
      (d : Delivery) (h : Handler F S) (r : Reply)
      → (deliver x d h).0 ≡ ok r
      → has_seen (deliver x d h).1.session d.message.envelope.message_id ≡ true
  accepted-seen d h r done = elim (handle_message-LetIn d.message d.peer_pub (at_arrival d h)) [
    | inl (why, refused) ↦ absurd (cc)
    | inr entry ↦
        entry.2 d.message.envelope.message_id ∙ rw (==_refl d.message.envelope.message_id) refl
  ]

  -- A message that a handler has answered or taken without an error is never handled again: after any
  -- further messages, a message with the same ID is refused with an error and changes nothing.
  pub deliver-once :
      (first : Delivery) (h : Handler F S) (r : Reply) (between : List Delivery) (again : Delivery)
      → (deliver x first h).0 ≡ ok r
      → again.message.envelope.message_id ≡ first.message.envelope.message_id
      → let after = deliver_all x between (deliver x first h).1 in
        (why : Error) × (deliver x again after ≡ (err why, at_arrival again after))
  deliver-once first h r between again done same =
      let after = deliver_all x between (deliver x first h).1 in
      elim (handle_message-LetIn again.message again.peer_pub (at_arrival again after)) [
        | inl refused ↦ refused
        | inr entry ↦
            let seen =
              deliver_all-seen between (deliver x first h).1 first.message.envelope.message_id
                (accepted-seen first h r done) in
            let fresh = entry.0.unseen in absurd (cc)
      ]
