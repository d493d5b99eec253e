-- ===== src/Canonical/Injective.antt =====
-- The encoding of core/canonical/encode.go can be read in one way only.
use web4_v.Base.{ℕ, ◌^◌, ◌<◌, ◌≡◌, refl, ap, List, [], ◌∷◌, ◌++◌, ok, length, All, arith}
use mathlib.Core.List.{append_assoc, tail}
use web4_v.Base.Int.{ℤ, IsI64}
use web4_v.Canonical.Varint.{uvarint, uvarint-inj}
use web4_v.Canonical.{
  Any, str, bytes, int, uint, list, map, other, Items, nil, cons, count, Field, encode_string,
  encode_bytes, encode_int, encode_uint, encode_value, encode_fields, zigzag,
}
use web4_v.Canonical.Supported.{
  IsPlain, ArePlain, IsPlainField, encoding, encodings, fields_encoding, encode_value-encoding,
  encode_fields-encoding,
}

append-inj {ℓ} :
    {A : Type ℓ} (xs ys r s : List A)
    → length xs ≡ length ys
    → xs ++ r ≡ ys ++ s
    → (xs ≡ ys) × (r ≡ s)
append-inj [] [] r s h e = (refl, e)
append-inj [] (y ∷ ys) r s h e = absurd (omega arith)
append-inj (x ∷ xs) [] r s h e = absurd (omega arith)
append-inj (x ∷ xs) (y ∷ ys) r s h e = ground (arith, append-inj xs ys r s)

zigzag-inj : (n m : ℤ) → IsI64 n → IsI64 m → zigzag n ≡ zigzag m → n ≡ m
zigzag-inj n m hn hm e = ground arith

zigzag_bound : (n : ℤ) → zigzag n < 2 ^ 64
zigzag_bound n = ground arith

regroup : (a b r c d s : List ℕ) → a ++ b ++ r ≡ c ++ d ++ s → a ++ (b ++ r) ≡ c ++ (d ++ s)
regroup a b r c d s e = rw (← append_assoc a b r, ← append_assoc c d s) e

counted-inj :
    (x y r s : List ℕ)
    → length x < 2 ^ 64
    → length y < 2 ^ 64
    → uvarint (length x) ++ x ++ r ≡ uvarint (length y) ++ y ++ s
    → (x ≡ y) × (r ≡ s)
counted-inj x y r s hx hy e =
    let (same_length, same_rest) =
      uvarint-inj (length x) (length y) (x ++ r) (y ++ s) hx hy
        (regroup (uvarint (length x)) x r (uvarint (length y)) y s e) in
    append-inj x y r s same_length same_rest

string-inj :
    (x y r s : List ℕ)
    → length x < 2 ^ 64
    → length y < 2 ^ 64
    → encode_string x ++ r ≡ encode_string y ++ s
    → (x ≡ y) × (r ≡ s)
unfolding encode_string
string-inj x y r s hx hy e = counted-inj x y r s hx hy (ap tail e)

mutual
  unfolding encode_string encode_bytes encode_int encode_uint

  value-inj :
      (v w : Any) (r s : List ℕ)
      → IsPlain v
      → IsPlain w
      → encoding v ++ r ≡ encoding w ++ s
      → (v ≡ w) × (r ≡ s)
  value-inj (str x) (str y) r s hv hw e = ground (arith, counted-inj x y r s hv hw (ap tail e))
  value-inj (bytes x) (bytes y) r s hv hw e = ground (arith, counted-inj x y r s hv hw (ap tail e))
  value-inj (int n) (int m) r s hv hw e = ground (
    arith,
    zigzag-inj n m hv hw,
    uvarint-inj (zigzag n) (zigzag m) r s (zigzag_bound n) (zigzag_bound m) (ap tail e),
  )
  value-inj (uint n) (uint m) r s hv hw e = ground (arith, uvarint-inj n m r s hv hw (ap tail e))
  value-inj (list xs) (list ys) r s hv hw e =
      let (same_count, same_rest) =
        uvarint-inj (count xs) (count ys) (encodings xs ++ r) (encodings ys ++ s) hv.0 hw.0 (
          regroup (uvarint (count xs)) (encodings xs) r (uvarint (count ys)) (encodings ys) s
            (ap tail e)) in
      ground (arith, items-inj xs ys r s hv.1 hw.1 same_count same_rest)
  value-inj (map es) _ r s hv hw e = absurd hv
  value-inj other _ r s hv hw e = absurd hv
  value-inj _ (map es) r s hv hw e = absurd hw
  value-inj _ other r s hv hw e = absurd hw
  value-inj _ _ r s hv hw e = ground arith

  items-inj :
      (xs ys : Items) (r s : List ℕ)
      → ArePlain xs
      → ArePlain ys
      → count xs ≡ count ys
      → encodings xs ++ r ≡ encodings ys ++ s
      → (xs ≡ ys) × (r ≡ s)
  items-inj nil nil r s hx hy h e = (refl, e)
  items-inj nil (cons y ys) r s hx hy h e = absurd (omega arith)
  items-inj (cons x xs) nil r s hx hy h e = absurd (omega arith)
  items-inj (cons x xs) (cons y ys) r s hx hy h e =
      let (same_first, same_rest) =
        value-inj x y (encodings xs ++ r) (encodings ys ++ s) hx.0 hy.0
          (regroup (encoding x) (encodings xs) r (encoding y) (encodings ys) s e) in
      ground (arith, items-inj xs ys r s hx.1 hy.1 (omega arith) same_rest)

-- Two values without maps and in the ranges of their types, each with anything behind it, have
-- the same bytes only if the values and what follows are the same.
pub encode_value-inj :
    (v w : Any) (x y r s : List ℕ)
    → IsPlain v
    → IsPlain w
    → encode_value v ≡ ok x
    → encode_value w ≡ ok y
    → x ++ r ≡ y ++ s
    → (v ≡ w) × (r ≡ s)
encode_value-inj v w x y r s hv hw ex ey e =
    value-inj v w r s hv hw (ground (arith, encode_value-encoding v hv, encode_value-encoding w hw))

each-inj :
    (fs gs : List Field) (r s : List ℕ)
    → All IsPlainField fs
    → All IsPlainField gs
    → length fs ≡ length gs
    → fields_encoding fs ++ r ≡ fields_encoding gs ++ s
    → fs ≡ gs
each-inj [] [] r s hf hg h e = refl
each-inj [] (g ∷ gs) r s hf hg h e = absurd (omega arith)
each-inj (f ∷ fs) [] r s hf hg h e = absurd (omega arith)
each-inj ((n, v) ∷ fs) ((m, w) ∷ gs) r s hf hg h e =
    let (same_name, after_name) =
      string-inj n m (encoding v ++ fields_encoding fs ++ r) (encoding w ++ fields_encoding gs ++ s)
        hf.0.0 hg.0.0
        (regroup (encode_string n) (encoding v ++ fields_encoding fs) r (encode_string m)
          (encoding w ++ fields_encoding gs) s e) in
    let (same_value, after_value) =
      value-inj v w (fields_encoding fs ++ r) (fields_encoding gs ++ s) hf.0.1 hg.0.1 (
        regroup (encoding v) (fields_encoding fs) r (encoding w) (fields_encoding gs) s
          after_name) in
    ground (arith, each-inj fs gs r s hf.1 hg.1 (omega arith) after_value)

-- Two lists of plain fields (no maps, sizes and integers in the ranges of their Go types) that are
-- encoded to the same bytes are the same fields, in the same order.
pub encode_fields-inj :
    (fs gs : List Field) (b : List ℕ)
    → All IsPlainField fs
    → All IsPlainField gs
    → length fs < 2 ^ 64
    → length gs < 2 ^ 64
    → encode_fields fs ≡ ok b
    → encode_fields gs ≡ ok b
    → fs ≡ gs
encode_fields-inj fs gs b hf hg lf lg ef eg =
    let same : uvarint (length fs) ++ fields_encoding fs
        ≡ uvarint (length gs) ++ fields_encoding gs =
      ground (arith, encode_fields-encoding fs hf, encode_fields-encoding gs hg) in
    let (same_length, same_body) =
      uvarint-inj (length fs) (length gs) (fields_encoding fs) (fields_encoding gs) lf lg same in
    each-inj fs gs [] [] hf hg same_length (ap (λ b. b ++ []) same_body)
