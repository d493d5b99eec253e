-- ===== src/Examples/Messages.antt =====
-- The theorems on envelopes at a concrete message.
use web4_v.Base.{
  ◌≡◌, refl, sym, Result, ok, err, [], ◌∷◌, arith, invalid_message_type, payload_not_canonical,
  ok-inj, ap,
}
use web4_v.Base.Int.{pos}
use web4_v.Canonical.{
  ascii, encode_fields, encode_value, encode_string, encode_bytes, encode_int, encode_uint,
}
use web4_v.Canonical.Varint.{uvarint}
use web4_v.Crypto.{sign}
use web4_v.Model.Types.{Bytes}
use web4_v.Model.Ids.{node_id_from_public_key, public_key_from_private}
use web4_v.Model.Ids.Arrays.{array32, of_bytes}
use web4_v.Message.{
  MessageType, Envelope, PayloadCodec, is_valid_message_type, envelope_preimage, new_message_id,
  seal, sign_envelope, verify_envelope,
}
use web4_v.Message.Envelopes.{IsTypedEnvelope, envelope_preimage-inj}
use web4_v.Message.Signed.{Survives, verify-sign_envelope}
use web4_v.Examples.Keys.{toy, toy-IsSound, toy-IsKey}
use web4_v.Examples.Transfers.{private_key, replicate}

-- A codec that writes a payload of bytes behind a one.
abbrev unwrap : MessageType → Bytes → Result Bytes
unwrap t [] = err payload_not_canonical
unwrap t (b ∷ bs) = ok bs

abbrev bytes_codec : PayloadCodec
bytes_codec = record { Payload = Bytes; encode = λ t p. ok (1 ∷ p); decode = unwrap }

ping-Survives : Survives bytes_codec (ascii "PING") (7 ∷ [])
ping-Survives b e = (7 ∷ [], ap (unwrap (ascii "PING")) (sym (ok-inj (1 ∷ 7 ∷ []) b e)), e)

abbrev ping : Result (Envelope × Bytes)
ping = sign_envelope toy bytes_codec private_key (ascii "PING") (7 ∷ []) (pos 1000) (replicate 24 9)

abbrev pub blank_envelope : Envelope
blank_envelope = record {
  version = 1;
  msg_type = ascii "PONG";
  message_id = 5;
  sender = 6;
  timestamp = pos 7;
  nonce = replicate 24 9;
  payload_hash = 8;
  signature = [];
}

abbrev pinged : Envelope × Bytes
pinged = elim ping [ ok p ↦ p | err _ ↦ (blank_envelope, []) ]

unknown_type :
    sign_envelope toy bytes_codec private_key (ascii "SHOUT") (7 ∷ []) (pos 1000) (replicate 24 9)
    ≡ err invalid_message_type
unfolding sign_envelope is_valid_message_type
unknown_type = refl

ping_signed : ping ≡ ok pinged
unfolding sign_envelope is_valid_message_type new_message_id seal envelope_preimage encode_fields
    encode_value encode_string encode_bytes encode_int encode_uint uvarint array32 of_bytes toy sign
    node_id_from_public_key public_key_from_private
ping_signed = refl

verify-sign_envelope_example :
    verify_envelope toy bytes_codec pinged.0 pinged.1 (toy.public_part private_key) ≡ ok tt
verify-sign_envelope_example =
    verify-sign_envelope toy bytes_codec toy-IsSound private_key (ascii "PING") (7 ∷ []) (pos 1000)
      (replicate 24 9) pinged.0 pinged.1 (toy-IsKey (replicate 32 3) refl) ping-Survives ping_signed

abbrev envelope_bytes : Bytes
envelope_bytes = elim (envelope_preimage blank_envelope) [ ok b ↦ b | err _ ↦ [] ]

abbrev signed_envelope : Envelope
signed_envelope = record blank_envelope { signature = 1 ∷ 2 ∷ [] }

blank_envelope-IsTypedEnvelope : IsTypedEnvelope blank_envelope
blank_envelope-IsTypedEnvelope = ground arith

signed_envelope-IsTypedEnvelope : IsTypedEnvelope signed_envelope
signed_envelope-IsTypedEnvelope = ground arith

blank_preimage : envelope_preimage blank_envelope ≡ ok envelope_bytes
unfolding envelope_preimage encode_fields encode_value encode_string encode_bytes encode_int
    encode_uint uvarint array32
blank_preimage = refl

signed_preimage : envelope_preimage signed_envelope ≡ ok envelope_bytes
unfolding envelope_preimage encode_fields encode_value encode_string encode_bytes encode_int
    encode_uint uvarint array32
signed_preimage = refl

envelope_preimage-inj_example :
    signed_envelope ≡ record blank_envelope { signature = signed_envelope.signature }
envelope_preimage-inj_example =
    envelope_preimage-inj signed_envelope blank_envelope envelope_bytes
      signed_envelope-IsTypedEnvelope blank_envelope-IsTypedEnvelope signed_preimage blank_preimage
