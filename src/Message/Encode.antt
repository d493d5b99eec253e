-- ===== src/Message/Encode.antt =====
-- `EncodePayload` and `DecodePayload` of core/message/encode.go, over encoding/json, which the record
-- `Json` stands for.
pub mod Survival
use web4_v.Base.{
  ℕ, not, ◌==◌, nat_eq, length, Result, ok, err, ◌>>=◌, ◌>>◌, fail_if, same_bytes,
  invalid_message_type, payload_required, payload_type_mismatch,
}
use web4_v.Model.Types.{Bytes}
use web4_v.Message.{MessageType, is_valid_message_type}
use web4_v.Message.Payloads.{Payload, normalized, normalize_payload}

-- `json.Marshal` of a payload and of a frame, which is a type and the JSON of a payload; and a
-- `json.Decoder` that takes no unknown field and no trailing data (`decodeStrict`), into a frame and
-- into the struct for a message type.
pub record Json (F : Type 0) : Type 0 where
  pub marshal_payload : Payload F → Result Bytes
  pub marshal_frame : MessageType → Bytes → Result Bytes
  pub read_frame : Bytes → Result (MessageType × Bytes)
  pub read_payload : MessageType → Bytes → Result (Payload F)

module _ {F : Type 0} (json : Json F) where
  unfoldable pub encode_payload : MessageType → Payload F → Result Bytes
  encode_payload t payload = do
    fail_if (not (is_valid_message_type t)) invalid_message_type
    p ← normalize_payload t payload
    body ← json.marshal_payload p
    json.marshal_frame t body

  unfoldable pub decode_payload : MessageType → Bytes → Result (Payload F)
  decode_payload t bytes = do
    fail_if (not (is_valid_message_type t)) invalid_message_type
    fail_if (length bytes == 0) payload_required
    frame ← json.read_frame bytes
    fail_if (not (same_bytes frame.0 t)) payload_type_mismatch
    fail_if (length frame.1 == 0) payload_required
    p ← json.read_payload t frame.1
    ok (normalized p)
