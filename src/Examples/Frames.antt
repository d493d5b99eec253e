-- ===== src/Examples/Frames.antt =====
-- The theorems on frames at a concrete payload.
use web4_v.Base.{ℕ, ◌≡◌, refl, List, [], ◌∷◌, ok, err, empty_frame, truncated_frame}
use web4_v.Transport.{encode_payload_frame, decode_frame_header, decode_payload_frame}
use web4_v.Transport.RoundTrip.{decode-encode_payload_frame}

abbrev framed : List ℕ
framed = 87 ∷ 52 ∷ 77 ∷ 49 ∷ 0 ∷ 1 ∷ 0 ∷ 0 ∷ 0 ∷ 2 ∷ 104 ∷ 105 ∷ []

encode_empty : encode_payload_frame [] ≡ err empty_frame
unfolding encode_payload_frame
encode_empty = refl

encode_hi : encode_payload_frame (104 ∷ 105 ∷ []) ≡ ok framed
unfolding encode_payload_frame
encode_hi = refl

decode_short :
    decode_payload_frame (87 ∷ 52 ∷ 77 ∷ 49 ∷ 0 ∷ 1 ∷ 0 ∷ 0 ∷ 0 ∷ 2 ∷ 104 ∷ [])
    ≡ err truncated_frame
unfolding decode_payload_frame decode_frame_header
decode_short = refl

decode-encode_payload_frame_example : decode_payload_frame framed ≡ ok (104 ∷ 105 ∷ [])
decode-encode_payload_frame_example = decode-encode_payload_frame (104 ∷ 105 ∷ []) framed encode_hi
