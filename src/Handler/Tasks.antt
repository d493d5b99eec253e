-- ===== src/Handler/Tasks.antt =====
-- What the handlers of core/handler/handler.go work on, and the steps that they are made of. A task
-- returns a value or an error and leaves what it has changed either way, as Go's methods do. A nil
-- handler, node, session or clock is not modelled.
pub mod Steps
pub mod Rules
pub mod Ends
use web4_v.Base.{
  ℕ, Bool, List, Result, ok, err, ◌>>=◌, ◌>>◌, fail_if, Error, ◌==◌, length,
  node_without_private_key,
}
use web4_v.Crypto.{Primitives}
use web4_v.Floats.{Floats}
use web4_v.Model.Types.{Bytes}
use web4_v.Node.State.{Node}
use web4_v.Node.Trade.{StoreOps}
use web4_v.Message.{MessageType, Envelope, PayloadCodec, sign_envelope}
use web4_v.Message.Payloads.{Payload}
use web4_v.Message.Encode.{Json, encode_payload, decode_payload}
use web4_v.Handler.Session.{Session}

-- What a handler calls: the primitives, the floats, the stores, encoding/json, and the text
-- of an error, which a rejection and a result quote.
pub record Services (F S : Type 0) : Type 0 where
  pub crypto : Primitives
  pub floats : Floats F
  pub store_ops : StoreOps F S
  pub json : Json F
  pub error_text : Error → Bytes

-- `EncodePayload` and `DecodePayload`
abbrev pub codec_of : {F S : Type 0} → Services F S → PayloadCodec
codec_of {F} x = record {
  Payload = Payload F;
  encode = encode_payload x.json;
  decode = decode_payload x.json;
}

pub record SignedMessage : Type 0 where
  pub envelope : Envelope
  pub payload_bytes : Bytes

-- A handler with every store by its number. `random` is what the next call of `rand.Read` gives: a
-- message has one at most.
pub record Handler (F S : Type 0) : Type 0 where
  pub node : Node F
  pub session : Session F
  pub stores : ℕ → S
  pub random : Result Bytes

-- What a handler returns with a nil error: nothing or a message. The last is a message that comes with
-- an error.
pub data Reply : Type 0 where
  silence : Reply
  answer : SignedMessage → Reply
  answer_failed : SignedMessage → Error → Reply

module _ {F S : Type 0} (x : Services F S) where
  -- The message that `SignResponse` returns.
  unfoldable pub signed_message :
      Node F → Result Bytes → MessageType → Payload F → Result SignedMessage
  signed_message n random msg_type payload = do
    fail_if (length n.private_key == 0) node_without_private_key
    nonce ← random
    sealed ← sign_envelope x.crypto (codec_of x) n.private_key msg_type payload n.now_unix nonce
    ok (record { envelope = sealed.0; payload_bytes = sealed.1 })
