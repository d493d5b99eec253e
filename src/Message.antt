-- ===== src/Message.antt =====
-- core/message: types.go, envelope.go and sign.go, the signed envelopes of the messages between peers.
-- What encodes a payload (encode.go) is the interface `PayloadCodec`, which Encode fills.
pub mod Envelopes
pub mod Signed
pub mod Payloads
pub mod Encode
use web4_v.Base.{
  ℕ, zero, suc, Bool, true, false, not, ◌||◌, List, [], ◌∷◌, Result, ok, err, ◌>>=◌, ◌>>◌, fail_if,
  ◌==◌, same_bytes, ◌≡◌, unsupported_message_version, invalid_message_type, timestamp_required,
  nonce_required, sender_mismatch, payload_not_canonical, payload_hash_mismatch,
  message_id_mismatch, invalid_envelope_signature,
}
use web4_v.Base.Int.{ℤ, pos, ltb_ℤ}
use web4_v.Canonical.{str, bytes, int, uint, Field, ascii, encode_fields}
use web4_v.Crypto.{Primitives, hash_bytes, sign, verify}
use web4_v.Model.Types.{Bytes, TxId, NodeId}
use web4_v.Model.Ids.{text_field, node_id_from_public_key, public_key_from_private}
use web4_v.Model.Ids.Arrays.{array32}

-- A `MessageType` is a string.
abbrev pub MessageType : Type 0
MessageType = Bytes

abbrev pub message_types : List MessageType
message_types =
    ascii "HELLO"
    ∷ ascii "QUOTE_REQUEST"
    ∷ ascii "QUOTE_RESPONSE"
    ∷ ascii "SIGNED_INTENT"
    ∷ ascii "AUTHORIZED_TRADE"
    ∷ ascii "TRADE_RESULT"
    ∷ ascii "REJECT"
    ∷ ascii "PING"
    ∷ ascii "PONG"
    ∷ []

abbrev pub among : MessageType → List MessageType → Bool
among t [] = false
among t (s ∷ ss) = same_bytes t s || among t ss

unfoldable pub is_valid_message_type : MessageType → Bool
is_valid_message_type t = among t message_types

abbrev pub current_version : ℕ
current_version = 1

-- The nonce is its 24 bytes.
pub record Envelope : Type 0 where
  pub version : ℕ
  pub msg_type : MessageType
  pub message_id : TxId
  pub sender : NodeId
  pub timestamp : ℤ
  pub nonce : Bytes
  pub payload_hash : ℕ
  pub signature : Bytes

abbrev pub zeros : ℕ → Bytes
zeros zero = []
zeros (suc n) = 0 ∷ zeros n

-- `isZeroNonce`
abbrev pub is_zero_nonce : Bytes → Bool
is_zero_nonce nonce = same_bytes nonce (zeros 24)

abbrev pub envelope_fields : Envelope → List Field
envelope_fields env =
    text_field "kind" "message_envelope"
    ∷ (ascii "version", uint env.version)
    ∷ (ascii "type", str env.msg_type)
    ∷ (ascii "message_id", bytes (array32 env.message_id))
    ∷ (ascii "sender", bytes (array32 env.sender))
    ∷ (ascii "timestamp", int env.timestamp)
    ∷ (ascii "nonce", bytes env.nonce)
    ∷ (ascii "payload_hash", bytes (array32 env.payload_hash))
    ∷ []

unfoldable pub envelope_preimage : Envelope → Result Bytes
envelope_preimage env = encode_fields (envelope_fields env)

-- `EncodePayload` and `DecodePayload`, whatever the payloads are.
pub record PayloadCodec : Type 1 where
  pub Payload : Type 0
  pub encode : MessageType → Payload → Result Bytes
  pub decode : MessageType → Bytes → Result Payload

module _ (c : Primitives) where
  -- `MessageID`
  unfoldable pub new_message_id : ℕ → MessageType → NodeId → ℤ → Bytes → ℕ → Result TxId
  new_message_id version msg_type sender timestamp nonce payload_hash = do
    fail_if (version == 0) unsupported_message_version
    fail_if (not (is_valid_message_type msg_type)) invalid_message_type
    fail_if (not (ltb_ℤ (pos 0) timestamp)) timestamp_required
    fail_if (is_zero_nonce nonce) nonce_required
    preimage ← encode_fields (
        text_field "kind" "message_id"
        ∷ (ascii "version", uint version)
        ∷ (ascii "type", str msg_type)
        ∷ (ascii "sender", bytes (array32 sender))
        ∷ (ascii "timestamp", int timestamp)
        ∷ (ascii "nonce", bytes nonce)
        ∷ (ascii "payload_hash", bytes (array32 payload_hash))
        ∷ [])
    ok (hash_bytes c preimage)

  -- The end of `SignEnvelope`: the envelope gets its signature.
  unfoldable pub seal : Bytes → Envelope → Result Envelope
  seal priv draft = do
    preimage ← envelope_preimage draft
    signature ← sign c priv preimage
    ok (record draft { signature = signature })

  module _ (codec : PayloadCodec) where
    unfoldable pub sign_envelope :
        Bytes → MessageType → codec.Payload → ℤ → Bytes → Result (Envelope × Bytes)
    sign_envelope priv msg_type payload timestamp nonce = do
      fail_if (not (is_valid_message_type msg_type)) invalid_message_type
      fail_if (not (ltb_ℤ (pos 0) timestamp)) timestamp_required
      fail_if (is_zero_nonce nonce) nonce_required
      key ← public_key_from_private c priv
      sender ← node_id_from_public_key key
      payload_bytes ← codec.encode msg_type payload
      msg_id ←
          new_message_id current_version msg_type sender timestamp nonce
            (hash_bytes c payload_bytes)
      env ← seal priv (record {
        version = current_version;
        msg_type = msg_type;
        message_id = msg_id;
        sender = sender;
        timestamp = timestamp;
        nonce = nonce;
        payload_hash = hash_bytes c payload_bytes;
        signature = [];
      })
      ok (env, payload_bytes)

    unfoldable pub verify_envelope : Envelope → Bytes → Bytes → Result (Unit {0})
    verify_envelope env payload_bytes key = do
      fail_if (not (env.version == current_version)) unsupported_message_version
      fail_if (not (is_valid_message_type env.msg_type)) invalid_message_type
      fail_if (not (ltb_ℤ (pos 0) env.timestamp)) timestamp_required
      fail_if (is_zero_nonce env.nonce) nonce_required
      sender ← node_id_from_public_key key
      fail_if (not (sender == env.sender)) sender_mismatch
      payload ← codec.decode env.msg_type payload_bytes
      canonical_bytes ← codec.encode env.msg_type payload
      fail_if (not (same_bytes payload_bytes canonical_bytes)) payload_not_canonical
      fail_if (not (env.payload_hash == hash_bytes c payload_bytes)) payload_hash_mismatch
      expected ←
          new_message_id env.version env.msg_type env.sender env.timestamp env.nonce
            env.payload_hash
      fail_if (not (expected == env.message_id)) message_id_mismatch
      preimage ← envelope_preimage env
      fail_if (not (verify c key preimage env.signature)) invalid_envelope_signature
