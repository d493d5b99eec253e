-- ===== src/Model/Ids/Transactions.antt =====
-- What the preimage of a transaction determines (core/model/ids.go).
use web4_v.Base.{
  ℕ, suc, ◌^◌, ◌<◌, ◌≡◌, refl, ap, List, [], ◌∷◌, map, ok, arith, length, All, >>=-eq-ok,
}
use mathlib.Core.Path.{ap₂}
use web4_v.Canonical.{count}
use web4_v.Canonical.Supported.{ArePlain, IsPlainField}
use web4_v.Canonical.Injective.{encode_fields-inj}
use web4_v.Model.Types.{Bytes, Value, IsTyped, TransferTx}
use web4_v.Model.Ids.{
  slices, arrays, value_preimage, value_preimages, transfer_fields, transfer_preimage,
}
use web4_v.Model.Ids.Arrays.{array32-inj, length-array32}
use web4_v.Model.Ids.Preimages.{body, value_preimage-inj, value_preimage_size}

slices-inj : (xs ys : List Bytes) → slices xs ≡ slices ys → xs ≡ ys
slices-inj [] [] e = refl
slices-inj [] (y ∷ ys) e = cc
slices-inj (x ∷ xs) [] e = cc
slices-inj (x ∷ xs) (y ∷ ys) e = ground (arith, slices-inj xs ys)

arrays-inj :
    (xs ys : List ℕ)
    → All (λ n. n < 2 ^ 256) xs
    → All (λ n. n < 2 ^ 256) ys
    → arrays xs ≡ arrays ys
    → xs ≡ ys
arrays-inj [] [] hx hy e = refl
arrays-inj [] (y ∷ ys) hx hy e = cc
arrays-inj (x ∷ xs) [] hx hy e = cc
arrays-inj (x ∷ xs) (y ∷ ys) hx hy e =
    ground (arith, arrays-inj xs ys hx.1 hy.1, array32-inj x y hx.0 hy.0)

slices-plain : (bs : List Bytes) → All (λ b. length b < 2 ^ 64) bs → ArePlain (slices bs)
slices-plain [] h = tt
slices-plain (b ∷ bs) h = (h.0, slices-plain bs h.1)

count-slices : (bs : List Bytes) → count (slices bs) ≡ length bs
count-slices [] = refl
count-slices (b ∷ bs) = omega (arith, count-slices bs)

arrays-small : (ids : List ℕ) → All (λ b. length b < 2 ^ 64) (arrays ids)
arrays-small [] = tt
arrays-small (x ∷ xs) = (omega (arith, length-array32 x), arrays-small xs)

length-arrays : (ids : List ℕ) → length (arrays ids) ≡ length ids
length-arrays [] = refl
length-arrays (x ∷ xs) = ap suc (length-arrays xs)

value_preimages-cons :
    (v : Value) (vs : List Value) (bs : List Bytes)
    → value_preimages (v ∷ vs) ≡ ok bs
    → (b : Bytes) × (rest : List Bytes) × (bs ≡ b ∷ rest)
      × (value_preimage v ≡ ok b)
      × (value_preimages vs ≡ ok rest)
unfolding value_preimages
value_preimages-cons v vs bs e =
    let (b, eb, e') = >>=-eq-ok (value_preimage v) _ e in
    let (rest, er, e'') = >>=-eq-ok (value_preimages vs) _ e' in (b, rest, ground arith, eb, er)

value_preimages-inj :
    (vs ws : List Value) (bs : List Bytes)
    → All IsTyped vs
    → All IsTyped ws
    → value_preimages vs ≡ ok bs
    → value_preimages ws ≡ ok bs
    → map body vs ≡ map body ws
value_preimages-inj [] [] bs hv hw ev ew = refl
value_preimages-inj [] (w ∷ ws) bs hv hw ev ew =
    let (b, rest, e, eb, er) = value_preimages-cons w ws bs ew in
    unfold value_preimages in ground arith
value_preimages-inj (v ∷ vs) [] bs hv hw ev ew =
    let (b, rest, e, eb, er) = value_preimages-cons v vs bs ev in
    unfold value_preimages in ground arith
value_preimages-inj (v ∷ vs) (w ∷ ws) bs hv hw ev ew =
    let (b, rest, e, eb, er) = value_preimages-cons v vs bs ev in
    let (b', rest', e', eb', er') = value_preimages-cons w ws bs ew in
    let same_bytes : b' ≡ b = ground arith in
    let same_rest : rest' ≡ rest = ground arith in
    ap₂ ◌∷◌ (value_preimage-inj v w b hv.0 hw.0 eb (rw same_bytes at eb'))
      (value_preimages-inj vs ws rest hv.1 hw.1 er (rw same_rest at er'))

value_preimages_small :
    (vs : List Value) (bs : List Bytes)
    → All IsTyped vs
    → value_preimages vs ≡ ok bs
    → All (λ b. length b < 2 ^ 64) bs × (length bs ≡ length vs)
value_preimages_small [] bs h e =
    unfold value_preimages in let empty : bs ≡ [] = ground arith in rw empty (tt, refl)
value_preimages_small (v ∷ vs) bs h e =
    let (b, rest, e', eb, er) = value_preimages-cons v vs bs e in
    let (small, same) = value_preimages_small vs rest h.1 er in
    rw e' ((value_preimage_size v b h.0 eb, small), ap suc same)

-- The ranges of the Go types in a transfer.
pub record IsTypedTransfer (tx : TransferTx) : Type 0 where
  pub inputs_32 : All (λ n. n < 2 ^ 256) tx.inputs
  pub inputs_count : length tx.inputs < 2 ^ 64
  pub outputs_typed : All IsTyped tx.outputs
  pub outputs_count : length tx.outputs < 2 ^ 64
  pub author_32 : tx.author < 2 ^ 256

transfer_fields-plain :
    (tx : TransferTx) (outs : List Bytes)
    → IsTypedTransfer tx
    → value_preimages tx.outputs ≡ ok outs
    → All IsPlainField (transfer_fields tx outs)
transfer_fields-plain tx outs h e =
    let (small, same) = value_preimages_small tx.outputs outs h.outputs_typed e in
    (
      omega arith,
      (
        (
          omega arith,
          (
            omega (arith, h.inputs_count, count-slices (arrays tx.inputs), length-arrays tx.inputs),
            slices-plain (arrays tx.inputs) (arrays-small tx.inputs),
          ),
        ),
        (
          (
            omega arith,
            (omega (arith, h.outputs_count, count-slices outs), slices-plain outs small),
          ),
          ((omega arith, omega (arith, length-array32 tx.author)), tt),
        ),
      ),
    )

-- Transfers with the ranges of their Go types that have one preimage have the same inputs in the
-- same order, the same author, and the same outputs but for their IDs.
pub transfer_preimage-inj :
    (t u : TransferTx) (b : Bytes)
    → IsTypedTransfer t
    → IsTypedTransfer u
    → transfer_preimage t ≡ ok b
    → transfer_preimage u ≡ ok b
    → (t.inputs ≡ u.inputs) × (map body t.outputs ≡ map body u.outputs) × (t.author ≡ u.author)
unfolding transfer_preimage
transfer_preimage-inj t u b ht hu et eu =
    let (to, eto, et') = >>=-eq-ok (value_preimages t.outputs) _ et in
    let (uo, euo, eu') = >>=-eq-ok (value_preimages u.outputs) _ eu in
    let same : transfer_fields t to ≡ transfer_fields u uo =
      encode_fields-inj (transfer_fields t to) (transfer_fields u uo) b
        (transfer_fields-plain t to ht eto) (transfer_fields-plain u uo hu euo) (omega arith)
        (omega arith) et' eu' in
    let outs : uo ≡ to = slices-inj uo to (ground arith) in
    (
      arrays-inj t.inputs u.inputs ht.inputs_32 hu.inputs_32
          (slices-inj (arrays t.inputs) (arrays u.inputs) (ground arith)),
      value_preimages-inj t.outputs u.outputs to ht.outputs_typed hu.outputs_typed eto
          (rw outs at euo),
      ground (arith, array32-inj t.author u.author ht.author_32 hu.author_32),
    )
