-- ===== src/Model/Ids/Preimages.antt =====
-- A preimage of core/model/ids.go determines every field that goes into it, so an ID and a signature
-- stand for the whole value or transaction.
use web4_v.Base.{ℕ, ◌^◌, ◌<◌, ◌≡◌, refl, ◌∷◌, ok, arith, length, All, length-append, ◌++◌}
use web4_v.Canonical.Supported.{
  IsPlainField, encode_fields-encoding, fields_encoding, length-fields_encoding,
}
use web4_v.Canonical.Varint.{uvarint, length-uvarint}
use web4_v.Canonical.Injective.{encode_fields-inj}
use web4_v.Crypto.{Primitives}
use web4_v.Model.Types.{Bytes, Value, IsTyped}
use web4_v.Model.Ids.{value_fields, value_preimage, value_id_for}
use web4_v.Model.Ids.Arrays.{array32-inj, length-array32}

value_fields-plain : (v : Value) → IsTyped v → All IsPlainField (value_fields v)
value_fields-plain v h = omega (arith, length-array32)

-- The fields of a value but its ID.
abbrev pub body : Value → Value
body v = record v { id = 0 }

-- Values with the ranges of their Go types that have one preimage differ in their IDs at most.
pub value_preimage-inj :
    (v w : Value) (b : Bytes)
    → IsTyped v
    → IsTyped w
    → value_preimage v ≡ ok b
    → value_preimage w ≡ ok b
    → body v ≡ body w
unfolding value_preimage
value_preimage-inj v w b hv hw ev ew =
    let same : value_fields v ≡ value_fields w =
      encode_fields-inj (value_fields v) (value_fields w) b (value_fields-plain v hv)
        (value_fields-plain w hw) (omega arith) (omega arith) ev ew in
    ground (
      arith,
      same,
      array32-inj v.unit w.unit hv.unit_32 hw.unit_32,
      array32-inj v.owner w.owner hv.owner_32 hw.owner_32,
      array32-inj v.issuer w.issuer hv.issuer_32 hw.issuer_32,
    )

pub value_preimage_size :
    (v : Value) (b : Bytes) → IsTyped v → value_preimage v ≡ ok b → length b < 2 ^ 64
unfolding value_preimage
value_preimage_size v b h e =
    let whole : b ≡ b'f' ∷ uvarint 8 ++ fields_encoding (value_fields v) =
      ground (arith, encode_fields-encoding (value_fields v) (value_fields-plain v h)) in
    rw whole (
      omega (
        arith,
        length-append (uvarint 8) (fields_encoding (value_fields v)),
        length-uvarint 8,
        length-fields_encoding (value_fields v)
            (refl, (refl, (refl, (refl, (refl, (refl, (refl, (refl, tt)))))))),
        length-array32,
      ))

-- An ID stands for all of a value but the ID itself.
pub value_id_for-body :
    (c : Primitives) (v : Value) (id : ℕ) → value_id_for c (record v { id = id }) ≡ value_id_for c v
unfolding value_id_for value_preimage
value_id_for-body c v id = refl
