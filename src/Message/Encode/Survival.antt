-- ===== src/Message/Encode/Survival.antt =====
-- What `EncodePayload` of core/message/encode.go writes, `DecodePayload` reads, in the normal form.
use web4_v.Base.{
  ◌≡◌, refl, sym, ap, ◌∙◌, true, false, not, ◌==◌, nat_eq, length, ok, fail_if, same_bytes,
  same_bytes_iff, >>=-eq-ok, >>-eq-ok, ok-inj, fail_if-not-true, fail_if-false, ◌>>◌,
  invalid_message_type, payload_type_mismatch,
}
use mathlib.Core.Path.{subst}
use web4_v.Model.Types.{Bytes}
use web4_v.Message.{MessageType, is_valid_message_type}
use web4_v.Message.Payloads.{Payload, hello, type_of, normalized, normalize_payload}
use web4_v.Message.Payloads.Sorted.{normalized_idem}
use web4_v.Message.Encode.{Json, encode_payload, decode_payload}

-- encoding/json reads what it has written of this payload, and of a frame around it; a JSON text is
-- not empty.
pub record IsReadable {F : Type 0} (json : Json F) (t : MessageType) (p : Payload F) : Type 0 where
  pub payload_back :
      (body : Bytes) → json.marshal_payload p ≡ ok body → json.read_payload t body ≡ ok p
  pub frame_back :
      (body frame : Bytes)
      → json.marshal_payload p ≡ ok body
      → json.marshal_frame t body ≡ ok frame
      → json.read_frame frame ≡ ok (t, body)
  pub payload_text : (body : Bytes) → json.marshal_payload p ≡ ok body → (length body == 0) ≡ false
  pub frame_text :
      (body frame : Bytes) → json.marshal_frame t body ≡ ok frame → (length frame == 0) ≡ false

normalized-type_of : {F : Type 0} (p : Payload F) → type_of (normalized p) ≡ type_of p
normalized-type_of (hello p) = refl
normalized-type_of p = refl

module _ {F : Type 0} (json : Json F) where
  normalize-parts :
      (t : MessageType) (p q : Payload F)
      → normalize_payload t p ≡ ok q
      → (same_bytes t (type_of p) ≡ true) × (q ≡ normalized p)
  unfolding normalize_payload
  normalize-parts t p q e =
      let valid = fail_if (not (is_valid_message_type t)) invalid_message_type in
      let right = fail_if (not (same_bytes t (type_of p))) payload_type_mismatch in
      let (both, e2) = >>-eq-ok (valid >> right) _ e in
      let (_, typed) = >>-eq-ok valid _ both in
      (
        fail_if-not-true (same_bytes t (type_of p)) payload_type_mismatch typed,
        sym (ok-inj (normalized p) q e2),
      )

  decode-parts :
      (t : MessageType) (p : Payload F) (body frame : Bytes)
      → (not (is_valid_message_type t)) ≡ false
      → json.read_frame frame ≡ ok (t, body)
      → (length frame == 0) ≡ false
      → (length body == 0) ≡ false
      → json.read_payload t body ≡ ok p
      → decode_payload json t frame ≡ ok (normalized p)
  unfolding decode_payload
  decode-parts t p body frame valid framed text inner reads =
      rw (valid, text, framed, (same_bytes_iff t t).1 refl, inner, reads) refl

  encode-parts :
      (t : MessageType) (p : Payload F) (body frame : Bytes)
      → (not (is_valid_message_type t)) ≡ false
      → same_bytes t (type_of p) ≡ true
      → normalized p ≡ p
      → json.marshal_payload p ≡ ok body
      → json.marshal_frame t body ≡ ok frame
      → encode_payload json t p ≡ ok frame
  unfolding encode_payload normalize_payload
  encode-parts t p body frame valid typed normal written framed =
      rw (valid, typed, normal, written) framed

  -- What `EncodePayload` makes of a payload that encoding/json reads as it has written it, in its
  -- normal form, is read by `DecodePayload` as that normal form, which is encoded to the same bytes
  -- again, and is of the type of the message.
  pub decode-encode_payload :
      (t : MessageType) (p : Payload F) (frame : Bytes)
      → IsReadable json t (normalized p)
      → encode_payload json t p ≡ ok frame
      → (decode_payload json t frame ≡ ok (normalized p))
        × (encode_payload json t (normalized p) ≡ ok frame)
        × (type_of p ≡ t)
  unfolding encode_payload normalize_payload
  decode-encode_payload t p frame readable e =
      let (valid, e1) =
        >>-eq-ok (fail_if (not (is_valid_message_type t)) invalid_message_type) _ e in
      let (q, normal, e2) = >>=-eq-ok (normalize_payload t p) _ e1 in
      let (typed, same) = normalize-parts t p q normal in
      let (body, written, framed) = >>=-eq-ok (json.marshal_payload q) _ e2 in
      let there : json.marshal_payload (normalized p) ≡ ok body =
        subst (λ x. json.marshal_payload x ≡ ok body) same written in
      let checked = fail_if-false (not (is_valid_message_type t)) invalid_message_type valid in
      (
        decode-parts t (normalized p) body frame checked
              (readable.frame_back body frame there framed) (readable.frame_text body frame framed)
              (readable.payload_text body there) (readable.payload_back body there)
            ∙ ap ok (normalized_idem p),
        encode-parts t (normalized p) body frame checked
            (subst (λ k. same_bytes t k ≡ true) (sym (normalized-type_of p)) typed)
            (normalized_idem p) there framed,
        sym ((same_bytes_iff t (type_of p)).0 typed),
      )
