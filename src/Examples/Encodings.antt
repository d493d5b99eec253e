-- ===== src/Examples/Encodings.antt =====
-- The theorems on encodings and preimages at concrete values.
use web4_v.Base.{ℕ, ◌≡◌, refl, List, [], ◌∷◌, ok, err, map, arith}
use web4_v.Base.Int.{pos, negsuc}
use web4_v.Canonical.{
  Field, str, uint, encode_fields, encode_value, encode_string, encode_bytes, encode_int,
  encode_uint,
}
use web4_v.Canonical.Varint.{uvarint}
use web4_v.Canonical.Injective.{encode_value-inj, encode_fields-inj}
use web4_v.Model.Types.{Bytes, Value, TransferTx, IsTyped}
use web4_v.Model.Ids.{value_preimage, value_preimages, transfer_preimage}
use web4_v.Model.Ids.Arrays.{array32}
use web4_v.Model.Ids.Preimages.{body, value_preimage-inj}
use web4_v.Model.Ids.Transactions.{IsTypedTransfer, transfer_preimage-inj}

-- What an encoding of fields unfolds.
encoded : ℕ
unfolding encode_fields encode_value encode_string encode_bytes encode_int encode_uint uvarint
    array32 value_preimage value_preimages transfer_preimage
encoded = 0

encode_value-inj_example : (str (97 ∷ []) ≡ str (97 ∷ [])) × (◌≡◌ {A = List ℕ} (5 ∷ []) (5 ∷ []))
unfolding encoded
encode_value-inj_example =
    encode_value-inj (str (97 ∷ [])) (str (97 ∷ [])) (115 ∷ 1 ∷ 97 ∷ []) (115 ∷ 1 ∷ 97 ∷ [])
      (5 ∷ []) (5 ∷ []) (omega arith) (omega arith) refl refl refl

abbrev two_fields : List Field
two_fields = (97 ∷ [], str (98 ∷ [])) ∷ (99 ∷ [], uint 300) ∷ []

abbrev two_fields_bytes : List ℕ
two_fields_bytes = elim (encode_fields two_fields) [ ok b ↦ b | err _ ↦ [] ]

encode_fields-inj_example : two_fields ≡ two_fields
unfolding encoded
encode_fields-inj_example =
    encode_fields-inj two_fields two_fields two_fields_bytes (ground arith) (ground arith)
      (omega arith) (omega arith) refl refl

abbrev coin : Value
coin = record {
  id = 3;
  unit = 10;
  amount = pos 5;
  owner = 1;
  created_at = negsuc 99;
  issuer = 8;
  expiry_unix = pos 0;
  depth = 2;
}

-- The same but for its ID.
abbrev named_coin : Value
named_coin = record coin { id = 4 }

coin-IsTyped : IsTyped coin
coin-IsTyped = ground arith

named_coin-IsTyped : IsTyped named_coin
named_coin-IsTyped = ground arith

abbrev coin_bytes : Bytes
coin_bytes = elim (value_preimage coin) [ ok b ↦ b | err _ ↦ [] ]

coin_preimage : value_preimage coin ≡ ok coin_bytes
unfolding encoded
coin_preimage = refl

value_preimage-inj_example : body coin ≡ body named_coin
unfolding encoded
value_preimage-inj_example =
    value_preimage-inj coin named_coin coin_bytes coin-IsTyped named_coin-IsTyped coin_preimage refl

abbrev gift : TransferTx
gift = record { id = 9; inputs = 4 ∷ 5 ∷ []; outputs = coin ∷ []; author = 1; signature = [] }

abbrev named_gift : TransferTx
named_gift = record gift { id = 7; outputs = named_coin ∷ [] }

abbrev gift_bytes : Bytes
gift_bytes = elim (transfer_preimage gift) [ ok b ↦ b | err _ ↦ [] ]

gift_preimage : transfer_preimage gift ≡ ok gift_bytes
unfolding encoded
gift_preimage = refl

gift-IsTypedTransfer : IsTypedTransfer gift
gift-IsTypedTransfer = ground arith

named_gift-IsTypedTransfer : IsTypedTransfer named_gift
named_gift-IsTypedTransfer = ground arith

transfer_preimage-inj_example :
    (gift.inputs ≡ named_gift.inputs)
    × (map body gift.outputs ≡ map body named_gift.outputs)
    × (gift.author ≡ named_gift.author)
unfolding encoded
transfer_preimage-inj_example =
    transfer_preimage-inj gift named_gift gift_bytes gift-IsTypedTransfer named_gift-IsTypedTransfer
      gift_preimage refl
