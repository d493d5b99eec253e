-- ===== src/Transport/RoundTrip.antt =====
-- The frames of core/transport/frame.go: encoding and decoding.
use web4_v.Base.{
  ℕ, ◌%◌, ◌^◌, ◌≤◌, ◌<◌, ◌≡◌, List, [], ◌∷◌, ok, arith, length, take_all, ltb, >>-eq-ok, ok-inj,
  fail_if-false, ◌==◌, fail_if, empty_frame, frame_too_large,
}
use mathlib.Core.Path.{subst}
use web4_v.Transport.{
  put_uint32, big_endian, encode_payload_frame, decode_frame_header, decode_payload_frame,
}

abbrev pub IsByte : ℕ → Type 0
IsByte b = b < 256

read_uint32 : (n : ℕ) → n ≤ 2 ^ 20 → big_endian 0 (put_uint32 (n % 2 ^ 32)) ≡ n
read_uint32 n h = omega arith

-- A header with the right magic and version, and the length of what follows it.
decode_spine :
    (a b c d : ℕ) (payload : List ℕ)
    → big_endian 0 (a ∷ b ∷ c ∷ d ∷ []) ≡ length payload
    → 0 < length payload
    → length payload ≤ 2 ^ 20
    → decode_payload_frame (87 ∷ 52 ∷ 77 ∷ 49 ∷ 0 ∷ 1 ∷ a ∷ b ∷ c ∷ d ∷ payload) ≡ ok payload
unfolding decode_payload_frame decode_frame_header
decode_spine a b c d payload e low high = ground (arith, take_all (length payload) payload)

-- Every payload that `encodePayloadFrame` frames comes back from `decodePayloadFrame`.
pub decode-encode_payload_frame :
    (payload frame : List ℕ)
    → encode_payload_frame payload ≡ ok frame
    → decode_payload_frame frame ≡ ok payload
unfolding encode_payload_frame
decode-encode_payload_frame payload frame e =
    let (some_bytes, e1) = >>-eq-ok (fail_if (length payload == 0) empty_frame) _ e in
    let (fits, e2) = >>-eq-ok (fail_if (ltb (2 ^ 20) (length payload)) frame_too_large) _ e1 in
    let nonempty = fail_if-false (length payload == 0) empty_frame some_bytes in
    let small = fail_if-false (ltb (2 ^ 20) (length payload)) frame_too_large fits in
    let high : length payload ≤ 2 ^ 20 = ground arith in
    let low : 0 < length payload = ground arith in
    subst (λ f. decode_payload_frame f ≡ ok payload) (ok-inj _ frame e2)
      (decode_spine _ _ _ _ payload (read_uint32 (length payload) high) low high)
