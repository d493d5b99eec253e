-- ===== src/Handler/Messages.antt =====
-- `HandleMessage` of core/handler/handler.go with the handlers that change little, and `NewHandler`.
pub mod Inbox
pub mod Once
use web4_v.Base.{
  ℕ, Bool, true, false, not, ◌||◌, List, [], ◌∷◌, Option, none, some, Result, ok, err, Error,
  fail_if, if◌then◌else◌, ◌==◌, nat_eq, duplicate_message, sender_not_session_peer,
  hello_peer_mismatch, unknown_trade_result, session_local_mismatch, invalid_peer, invalid_payload,
}
use web4_v.Base.Int.{ℤ}
use web4_v.Base.Dict.{has}
use web4_v.Canonical.{ascii}
use web4_v.Model.Types.{Bytes, TxId}
use web4_v.Model.Ids.{node_id_from_public_key}
use web4_v.Node.State.{Node}
use web4_v.Message.{MessageType, verify_envelope}
use web4_v.Message.Payloads.{
  Hello, Payload, hello, quote_request, quote_response, signed_intent, authorized_trade,
  trade_result, rejection, ping, pong, validate_payload_semantics,
}
use web4_v.Message.Encode.{decode_payload}
use web4_v.Handler.Session.{Session, has_seen, mark_seen}
use web4_v.Handler.Tasks.{Services, SignedMessage, Handler, Reply, silence, codec_of}
use web4_v.Handler.Tasks.Steps.{Task, ◌>>=◌, ◌>>◌, lift, current, update_session, respond}
use web4_v.Handler.Negotiation.{handle_quote_request, handle_quote_response, handle_signed_intent}
use web4_v.Handler.Settlement.{handle_authorized_trade}

-- `NewHandler`, with the stores and the outcome of the next `rand.Read`.
unfoldable pub new_handler :
    {F S : Type 0} → Node F → Session F → (ℕ → S) → Result Bytes → Result (Handler F S)
new_handler n s stores random =
    if s.local_id == n.id
    then ok (record { node = n; session = s; stores = stores; random = random })
    else err session_local_mismatch

-- `fmt.Errorf("%w: %v", kind, err)`
abbrev pub as_kind : {A : Type 0} → (Error → Error) → Result A → Result A
as_kind kind (ok a) = ok a
as_kind kind (err why) = err (kind why)

abbrev pub record_seen : {F : Type 0} → ℤ → Session F → Session F
record_seen time s = record s { last_seen_unix = time }

module _ {F S : Type 0} where
  -- `h.Session.MarkSeen(id)`
  unfoldable pub mark_message : TxId → Task F S (Unit {0})
  mark_message id h = let (r, s) = mark_seen h.session id in (r, record h { session = s })

  unfoldable pub handle_hello : Hello → Bytes → Task F S Reply
  handle_hello p peer_pub = do
    peer_id ← lift (node_id_from_public_key peer_pub)
    h ← current
    lift (
        fail_if (not (p.node_id == h.session.peer_id) || not (p.node_id == peer_id))
          hello_peer_mismatch)
    lift (ok silence)

  unfoldable pub handle_trade_result : TxId → Task F S Reply
  handle_trade_result auth_id = do
    h ← current
    lift (fail_if (not (has auth_id h.session.pending_trades)) unknown_trade_result)
    lift (ok silence)

  unfoldable pub handle_reject : Task F S Reply
  handle_reject = lift (ok silence)

  unfoldable pub handle_pong : ℤ → Task F S Reply
  handle_pong time = update_session (record_seen time) >> lift (ok silence)

-- What `HandleMessage` checks before it marks a message.
unfoldable pub admit : {F : Type 0} → SignedMessage → Session F → Result (Unit {0})
admit m s =
    if not (m.envelope.sender == s.peer_id)
    then err sender_not_session_peer
    else fail_if (has_seen s m.envelope.message_id) duplicate_message

module _ {F S : Type 0} (x : Services F S) where
  unfoldable pub handle_ping : ℤ → Task F S Reply
  handle_ping time = do h ← current; respond x (ascii "PONG") (pong time h.node.now_unix)

  -- The switch over the type of the message, of which the payload is: `ValidatePayloadSemantics` has
  -- refused any other.
  unfoldable pub dispatch : TxId → Bytes → Payload F → Task F S Reply
  dispatch ref peer_pub (hello p) = handle_hello p peer_pub
  dispatch ref peer_pub (quote_request p) = handle_quote_request x ref p
  dispatch ref peer_pub (quote_response p) = handle_quote_response x ref p
  dispatch ref peer_pub (signed_intent id signed) = handle_signed_intent x ref id signed
  dispatch ref peer_pub (authorized_trade auth id) = handle_authorized_trade x auth id
  dispatch ref peer_pub (trade_result id status reason) = handle_trade_result id
  dispatch ref peer_pub (rejection id code reason) = handle_reject
  dispatch ref peer_pub (ping time) = handle_ping time
  dispatch ref peer_pub (pong ping_time time) = handle_pong time

  -- Of a message that is marked.
  unfoldable pub process : SignedMessage → Bytes → Task F S Reply
  process m peer_pub = do
    payload ←
        lift (as_kind invalid_payload (decode_payload x.json m.envelope.msg_type m.payload_bytes))
    lift (
        as_kind invalid_payload
          (validate_payload_semantics x.floats x.crypto m.envelope.msg_type payload))
    update_session (record_seen m.envelope.timestamp)
    dispatch m.envelope.message_id peer_pub payload

  unfoldable pub handle_message : SignedMessage → Bytes → Task F S Reply
  handle_message m peer_pub = do
    lift (
        as_kind invalid_peer
          (verify_envelope x.crypto (codec_of x) m.envelope m.payload_bytes peer_pub))
    h ← current
    lift (admit m h.session)
    mark_message m.envelope.message_id
    process m peer_pub

-- A message that arrives, with the key that it is checked under, the clock and the outcome of
-- `rand.Read` by then.
pub record Delivery : Type 0 where
  pub message : SignedMessage
  pub peer_pub : Bytes
  pub now : ℤ
  pub random : Result Bytes

module _ {F S : Type 0} where
  -- The handler when the message arrives.
  abbrev pub at_arrival : Delivery → Handler F S → Handler F S
  at_arrival d h = record h { node = record h.node { now_unix = d.now }; random = d.random }

  abbrev pub deliver : Services F S → Delivery → Handler F S → Result Reply × Handler F S
  deliver x d h = handle_message x d.message d.peer_pub (at_arrival d h)

  -- One message after the other, those that are refused included.
  abbrev pub deliver_all : Services F S → List Delivery → Handler F S → Handler F S
  deliver_all x [] h = h
  deliver_all x (d ∷ ds) h = deliver_all x ds (deliver x d h).1
