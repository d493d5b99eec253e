-- ===== src/Message/Signed.antt =====
-- `SignEnvelope` against `VerifyEnvelope` (core/message/sign.go).
use web4_v.Base.{
  ◌≡◌, refl, sym, ◌∙◌, true, false, not, ◌==◌, ok, fail_if, fail_if-false, fail_if-not-true,
  ==_refl, same_bytes_iff, >>=-eq-ok, >>-eq-ok, ok-inj, [], invalid_message_type,
  timestamp_required, nonce_required,
}
use mathlib.Core.Path.{subst}
use web4_v.Base.Int.{ℤ, pos, ltb_ℤ}
use web4_v.Crypto.{Primitives, IsSound, IsKey, hash_bytes, sign, verify, verify-sign}
use web4_v.Model.Types.{Bytes}
use web4_v.Model.Ids.{node_id_from_public_key, public_key_from_private}
use web4_v.Model.Issue.Signed.{public_key-node_id}
use web4_v.Message.{
  MessageType, Envelope, PayloadCodec, is_valid_message_type, is_zero_nonce, current_version,
  envelope_preimage, new_message_id, seal, sign_envelope, verify_envelope,
}

-- The payload survives the codec: what encodes it is read, and encoded to the same bytes again.
abbrev pub Survives : (codec : PayloadCodec) → MessageType → codec.Payload → Type 0
Survives codec t p =
    (b : Bytes)
    → codec.encode t p ≡ ok b
    → (q : codec.Payload) × (codec.decode t b ≡ ok q) × (codec.encode t q ≡ ok b)

module _ (c : Primitives) (codec : PayloadCodec) where
  envelope_preimage-body :
      (env : Envelope) (sig : Bytes)
      → envelope_preimage (record env { signature = sig }) ≡ envelope_preimage env
  unfolding envelope_preimage
  envelope_preimage-body env sig = refl

  seal-parts :
      (priv : Bytes) (draft env : Envelope)
      → seal c priv draft ≡ ok env
      → (preimage : Bytes) × (sig : Bytes) × (envelope_preimage draft ≡ ok preimage)
        × (sign c priv preimage ≡ ok sig)
        × (env ≡ record draft { signature = sig })
  unfolding seal
  seal-parts priv draft env e =
      let (preimage, ep, e1) = >>=-eq-ok (envelope_preimage draft) _ e in
      let (sig, es, e2) = >>=-eq-ok (sign c priv preimage) _ e1 in
      (preimage, sig, ep, es, sym (ok-inj (record draft { signature = sig }) env e2))

  envelope-finished :
      (env : Envelope) (b key preimage : Bytes) (q : codec.Payload)
      → (env.version == current_version) ≡ true
      → is_valid_message_type env.msg_type ≡ true
      → ltb_ℤ (pos 0) env.timestamp ≡ true
      → is_zero_nonce env.nonce ≡ false
      → node_id_from_public_key key ≡ ok env.sender
      → codec.decode env.msg_type b ≡ ok q
      → codec.encode env.msg_type q ≡ ok b
      → (env.payload_hash == hash_bytes c b) ≡ true
      → new_message_id c env.version env.msg_type env.sender env.timestamp env.nonce
          env.payload_hash
        ≡ ok env.message_id
      → envelope_preimage env ≡ ok preimage
      → verify c key preimage env.signature ≡ true
      → verify_envelope c codec env b key ≡ ok tt
  unfolding verify_envelope
  envelope-finished env b key preimage q version valid timed fresh from reads again hash id signed
        accepted =
      rw
        (
          version,
          valid,
          timed,
          fresh,
          from,
          ==_refl env.sender,
          reads,
          again,
          (same_bytes_iff b b).1 refl,
          hash,
          id,
          ==_refl env.message_id,
          signed,
          accepted,
        )
        refl

  -- If the primitives do what they document (`IsSound`), `VerifyEnvelope` accepts whatever
  -- `SignEnvelope` signs with a key that is made from a seed, of a payload that survives the codec,
  -- under the public part of the key.
  pub verify-sign_envelope :
      IsSound c
      → (priv : Bytes) (t : MessageType) (p : codec.Payload) (timestamp : ℤ) (nonce : Bytes)
        (env : Envelope) (b : Bytes)
      → IsKey c priv
      → Survives codec t p
      → sign_envelope c codec priv t p timestamp nonce ≡ ok (env, b)
      → verify_envelope c codec env b (c.public_part priv) ≡ ok tt
  unfolding sign_envelope
  verify-sign_envelope s priv t p timestamp nonce env b k survives e =
      let (valid, e1) =
        >>-eq-ok (fail_if (not (is_valid_message_type t)) invalid_message_type) _ e in
      let (timed, e2) =
        >>-eq-ok (fail_if (not (ltb_ℤ (pos 0) timestamp)) timestamp_required) _ e1 in
      let (fresh, e3) = >>-eq-ok (fail_if (is_zero_nonce nonce) nonce_required) _ e2 in
      let (key, ek, e4) = >>=-eq-ok (public_key_from_private c priv) _ e3 in
      let (sender, es, e5) = >>=-eq-ok (node_id_from_public_key key) _ e4 in
      let (out, eo, e6) = >>=-eq-ok (codec.encode t p) _ e5 in
      let (id, ei, e7) =
        >>=-eq-ok (new_message_id c current_version t sender timestamp nonce (hash_bytes c out)) _
          e6 in
      let draft : Envelope = record {
        version = current_version;
        msg_type = t;
        message_id = id;
        sender = sender;
        timestamp = timestamp;
        nonce = nonce;
        payload_hash = hash_bytes c out;
        signature = [];
      } in
      let (sealed, el, e8) = >>=-eq-ok (seal c priv draft) _ e7 in
      let (preimage, sig, ep, eg, same) = seal-parts priv draft sealed el in
      let pair = ok-inj (sealed, out) (env, b) e8 in
      let (q, reads, again) = survives out eo in
      let (_, part) = public_key-node_id c s priv key sender ek es in
      let accepted =
        envelope-finished (record draft { signature = sig }) out key preimage q refl
          (fail_if-not-true (is_valid_message_type t) invalid_message_type valid)
          (fail_if-not-true (ltb_ℤ (pos 0) timestamp) timestamp_required timed)
          (fail_if-false (is_zero_nonce nonce) nonce_required fresh) es reads again
          (==_refl (hash_bytes c out)) ei (envelope_preimage-body draft sig ∙ ep)
          (subst (λ q'. verify c q' preimage sig ≡ true) (sym part)
            (verify-sign c s priv preimage sig k eg)) in
      subst (λ x. verify_envelope c codec x.0 x.1 (c.public_part priv) ≡ ok tt) pair
        (subst (λ q'. verify_envelope c codec sealed out q' ≡ ok tt) part
          (subst (λ x. verify_envelope c codec x out key ≡ ok tt) (sym same) accepted))
