-- ===== src/Examples/Payloads.antt =====
-- The theorem on what encodes a payload (core/message/encode.go) at a greeting with two features.
use web4_v.Base.{
  ℕ, suc, arith, nat_eq, length, ◌==◌, false, ◌≡◌, refl, [], ◌∷◌, ◌++◌, List, ok, err, Result,
  ok-inj, unsupported_type,
}
use mathlib.Core.Path.{subst}
use web4_v.Canonical.{ascii, string_lt}
use web4_v.Model.Types.{Bytes}
use web4_v.Message.{is_valid_message_type}
use web4_v.Message.Payloads.{
  Payload, hello, type_of, normalized, insert_string, sorted_strings, normalize_payload,
}
use web4_v.Message.Encode.{Json, encode_payload, decode_payload}
use web4_v.Message.Encode.Survival.{IsReadable, decode-encode_payload}

-- The JSON of a greeting of node 3: its features, which have one byte each.
abbrev greeting : List Bytes → Payload ℕ
greeting fs =
    hello (record { node_id = 3; public_key = []; supported_versions = 1 ∷ []; features = fs })

bytes_of : List Bytes → Bytes
bytes_of [] = []
bytes_of (f ∷ fs) = f ++ bytes_of fs

strings_of : Bytes → List Bytes
strings_of [] = []
strings_of (b ∷ bs) = (b ∷ []) ∷ strings_of bs

abbrev features_of : Payload ℕ → Result Bytes
features_of (hello p) = ok (bytes_of p.features)
features_of p = err unsupported_type

unfoldable json : Json ℕ
unfolding bytes_of strings_of
json = record {
  marshal_payload = features_of;
  marshal_frame = λ t body. ok (7 ∷ body);
  read_frame = λ bytes. elim bytes [ [] ↦ err unsupported_type | b ∷ bs ↦ ok (ascii "HELLO", bs) ];
  read_payload = λ t body. ok (greeting (strings_of body));
}

nonempty : (n : ℕ) → (suc n == 0) ≡ false
nonempty n = ground arith

abbrev unsorted : Payload ℕ
unsorted = greeting ((98 ∷ []) ∷ (97 ∷ []) ∷ [])

abbrev framed : Bytes
framed = 7 ∷ 97 ∷ 98 ∷ []

unsorted-IsReadable : IsReadable json (ascii "HELLO") (normalized unsorted)
unfolding json sorted_strings insert_string string_lt
unsorted-IsReadable = record {
  payload_back = λ body e.
      subst (λ b. json.read_payload (ascii "HELLO") b ≡ ok (normalized unsorted))
        (ok-inj (97 ∷ 98 ∷ []) body e) refl;
  frame_back = λ body frame e k.
      subst (λ b. json.read_frame b ≡ ok (ascii "HELLO", body)) (ok-inj (7 ∷ body) frame k) refl;
  payload_text = λ body e. subst (λ b. (length b == 0) ≡ false) (ok-inj (97 ∷ 98 ∷ []) body e) refl;
  frame_text = λ body frame k.
      subst (λ b. (length b == 0) ≡ false) (ok-inj (7 ∷ body) frame k) (nonempty (length body));
}

encoded : encode_payload json (ascii "HELLO") unsorted ≡ ok framed
unfolding json sorted_strings insert_string string_lt encode_payload normalize_payload
    is_valid_message_type
encoded = refl

decode-encode_payload_example :
    (decode_payload json (ascii "HELLO") framed ≡ ok (normalized unsorted))
    × (encode_payload json (ascii "HELLO") (normalized unsorted) ≡ ok framed)
    × (type_of unsorted ≡ ascii "HELLO")
decode-encode_payload_example =
    decode-encode_payload json (ascii "HELLO") unsorted framed unsorted-IsReadable encoded
