-- ===== src/Canonical/Supported.antt =====
-- The values that core/canonical/encode.go encodes with no failure, and what it writes for them.
use web4_v.Base.{
  ℕ, ◌+◌, ◌≤◌, Bool, true, false, length-append, ◌^◌, ◌<◌, ◌≡◌, refl, List, [], ◌∷◌, ◌++◌, ok,
  length, All, arith,
}
use web4_v.Base.Int.{IsI64}
use web4_v.Canonical.Varint.{uvarint, length-uvarint}
use web4_v.Canonical.{
  Any, str, bytes, int, uint, list, map, other, Items, nil, cons, count, Field, encode_string,
  encode_bytes, encode_int, encode_uint, encode_value, encode_items, encode_each, encode_fields,
}

-- Lengths, integers and bytes in the ranges of their Go types, and no map and no unsupported type
-- inside. Every preimage of the repository is of this kind.
abbrev mutual
  pub IsPlain : Any → Type 0
  IsPlain (str s) = length s < 2 ^ 64
  IsPlain (bytes b) = length b < 2 ^ 64
  IsPlain (int n) = IsI64 n
  IsPlain (uint n) = n < 2 ^ 64
  IsPlain (list xs) = (count xs < 2 ^ 64) × ArePlain xs
  IsPlain (map es) = ⊥
  IsPlain other = ⊥

  pub ArePlain : Items → Type 0
  ArePlain nil = Unit
  ArePlain (cons x xs) = IsPlain x × ArePlain xs

abbrev pub IsPlainField : Field → Type 0
IsPlainField (name, value) = (length name < 2 ^ 64) × IsPlain value

abbrev mutual
  pub encoding : Any → List ℕ
  encoding (str s) = encode_string s
  encoding (bytes b) = encode_bytes b
  encoding (int n) = encode_int n
  encoding (uint n) = encode_uint n
  encoding (list xs) = b'l' ∷ uvarint (count xs) ++ encodings xs
  encoding (map es) = []
  encoding other = []

  pub encodings : Items → List ℕ
  encodings nil = []
  encodings (cons x xs) = encoding x ++ encodings xs

abbrev pub fields_encoding : List Field → List ℕ
fields_encoding [] = []
fields_encoding ((name, value) ∷ fs) = encode_string name ++ (encoding value ++ fields_encoding fs)

mutual
  unfolding encode_value

  encode_value_lem : (v : Any) → IsPlain v → encode_value v ≡ ok (encoding v)
  encode_value_lem (str s) h = refl
  encode_value_lem (bytes b) h = refl
  encode_value_lem (int n) h = refl
  encode_value_lem (uint n) h = refl
  encode_value_lem (list xs) h = rw (encode_items_lem xs h.1)
  encode_value_lem (map es) h = absurd h
  encode_value_lem other h = absurd h

  encode_items_lem : (xs : Items) → ArePlain xs → encode_items xs ≡ ok (encodings xs)
  encode_items_lem nil h = refl
  encode_items_lem (cons x xs) h = rw (encode_value_lem x h.0, encode_items_lem xs h.1)

pub encode_value-encoding : (v : Any) → IsPlain v → encode_value v ≡ ok (encoding v)
encode_value-encoding v h = encode_value_lem v h

encode_each-encoding :
    (fs : List Field) → All IsPlainField fs → encode_each fs ≡ ok (fields_encoding fs)
unfolding encode_each
encode_each-encoding [] h = refl
encode_each-encoding ((name, value) ∷ fs) h =
    rw (encode_value_lem value h.0.1, encode_each-encoding fs h.1)

-- Plain fields are encoded with no failure.
pub encode_fields-encoding :
    (fs : List Field)
    → All IsPlainField fs
    → encode_fields fs ≡ ok (b'f' ∷ uvarint (length fs) ++ fields_encoding fs)
unfolding encode_fields
encode_fields-encoding fs h = rw (encode_each-encoding fs h)

-- How many bytes a field's value takes at most.
abbrev pub room : Any → ℕ
room (str s) = length s + 11
room (bytes b) = length b + 11
room (int n) = 11
room (uint n) = 11
room _ = 0

abbrev pub fields_room : List Field → ℕ
fields_room [] = 0
fields_room ((name, value) ∷ fs) = length name + 11 + room value + fields_room fs

abbrev pub is_flat : Any → Bool
is_flat (str s) = true
is_flat (bytes b) = true
is_flat (int n) = true
is_flat (uint n) = true
is_flat _ = false

length-encoding : (v : Any) → is_flat v ≡ true → length (encoding v) ≤ room v
unfolding encode_string encode_bytes encode_int encode_uint
length-encoding (str s) h =
    omega (arith, length-append (uvarint (length s)) s, length-uvarint (length s))
length-encoding (bytes s) h =
    omega (arith, length-append (uvarint (length s)) s, length-uvarint (length s))
length-encoding (int n) h = omega (arith, length-uvarint)
length-encoding (uint n) h = omega (arith, length-uvarint)
length-encoding (list xs) h = cc
length-encoding (map es) h = cc
length-encoding other h = cc

pub length-fields_encoding :
    (fs : List Field)
    → All (λ f. is_flat f.1 ≡ true) fs
    → length (fields_encoding fs) ≤ fields_room fs
unfolding encode_string
length-fields_encoding [] h = omega arith
length-fields_encoding ((name, value) ∷ fs) h = omega (
  arith,
  length-append (encode_string name) (encoding value ++ fields_encoding fs),
  length-append (uvarint (length name)) name,
  length-append (encoding value) (fields_encoding fs),
  length-uvarint (length name),
  length-encoding value h.0,
  length-fields_encoding fs h.1,
)
