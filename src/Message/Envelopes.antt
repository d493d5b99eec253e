-- ===== src/Message/Envelopes.antt =====
-- The preimage of an envelope (core/message/envelope.go).
use web4_v.Base.{◌^◌, ◌<◌, ◌≡◌, ok, arith, length}
use web4_v.Base.Int.{IsI64}
use web4_v.Canonical.Supported.{IsPlainField}
use web4_v.Canonical.Injective.{encode_fields-inj}
use web4_v.Base.{All}
use web4_v.Model.Types.{Bytes}
use web4_v.Model.Ids.Arrays.{array32-inj, length-array32}
use web4_v.Message.{Envelope, envelope_fields, envelope_preimage}

-- What the Go types of the fields say, and a type of less than 2 ^ 64 bytes.
pub record IsTypedEnvelope (env : Envelope) : Type 0 where
  pub version_u16 : env.version < 2 ^ 16
  pub type_size : length env.msg_type < 2 ^ 64
  pub message_id_32 : env.message_id < 2 ^ 256
  pub sender_32 : env.sender < 2 ^ 256
  pub timestamp_i64 : IsI64 env.timestamp
  pub nonce_24 : length env.nonce ≡ 24
  pub hash_32 : env.payload_hash < 2 ^ 256

envelope_fields-plain :
    (env : Envelope) → IsTypedEnvelope env → All IsPlainField (envelope_fields env)
envelope_fields-plain env h = ground (
  arith,
  length-array32 env.message_id,
  length-array32 env.sender,
  length-array32 env.payload_hash,
  h.version_u16,
  h.type_size,
  h.timestamp_i64,
  h.nonce_24,
)

-- Envelopes with the ranges of their Go types that have one preimage are the same but for their
-- signatures, so that a signature of one binds every other field.
pub envelope_preimage-inj :
    (d e : Envelope) (b : Bytes)
    → IsTypedEnvelope d
    → IsTypedEnvelope e
    → envelope_preimage d ≡ ok b
    → envelope_preimage e ≡ ok b
    → d ≡ record e { signature = d.signature }
unfolding envelope_preimage
envelope_preimage-inj d e b hd he ed ee =
    let same : envelope_fields d ≡ envelope_fields e =
      encode_fields-inj (envelope_fields d) (envelope_fields e) b (envelope_fields-plain d hd)
        (envelope_fields-plain e he) (omega arith) (omega arith) ed ee in
    ground (
      arith,
      array32-inj d.message_id e.message_id hd.message_id_32 he.message_id_32,
      array32-inj d.sender e.sender hd.sender_32 he.sender_32,
      array32-inj d.payload_hash e.payload_hash hd.hash_32 he.hash_32,
    )
