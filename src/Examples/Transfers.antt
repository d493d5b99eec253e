-- ===== src/Examples/Transfers.antt =====
-- The theorems on transfers at concrete values.
use web4_v.Base.{
  ℕ, ◌≡◌, refl, List, [], ◌∷◌, ok, err, ◌>>=◌, All, arith, zero, suc, exceeds_inputs, not_conserved,
}
use web4_v.Base.Int.{pos, ◌+ℤ◌, ◌-ℤ◌, wrap64}
use web4_v.Crypto.{sign}
use web4_v.Canonical.{
  encode_fields, encode_value, encode_string, encode_bytes, encode_int, encode_uint,
}
use web4_v.Canonical.Varint.{uvarint}
use web4_v.Model.Types.{Bytes, NodeId, Value, TransferTx}
use web4_v.Model.Amount.{checked_add, sub}
use web4_v.Model.Ids.{
  value_id_for, value_preimage, value_preimages, transfer_preimage, transfer_tx_id,
  public_key_from_private, node_id_from_public_key,
}
use web4_v.Model.Ids.Arrays.{array32, of_bytes}
use web4_v.Model.Sums.{sum_of}
use web4_v.Model.Transfer.Checks.{
  pick_inputs, index_inputs, canonical_inputs_for_transfer, next_transfer_depth, fund, spend,
  all_spent, check_conservation, note_expiry, least_expiries, check_expiries,
  check_expiry_propagation, clamp_expiry, clamp_expiries, normalize_transfer_output_expiries,
  ids_of,
}
use web4_v.Model.Transfer.{
  check_owners, validate_transfer_tx, complete_outputs, sign_transfer, new_transfer_tx,
}
use web4_v.Model.Transfer.Conservation.{check_conservation_sound}
use web4_v.Model.Transfer.Issuers.{HasInputKey, check_conservation_issuers}
use web4_v.Model.Transfer.Expiry.{NotOutliving, check_expiry_propagation_sound}
use web4_v.Model.Transfer.Signed.{validate-new_transfer_tx}
use web4_v.Examples.Keys.{toy, toy-IsSound, toy-IsKey}

-- What the creation of a transfer unfolds.
unfoldable pub transferred : ℕ
unfolding new_transfer_tx public_key_from_private node_id_from_public_key
    canonical_inputs_for_transfer index_inputs pick_inputs value_id_for value_preimage
    value_preimages encode_fields encode_value encode_string encode_bytes encode_int encode_uint
    uvarint array32 of_bytes toy check_owners next_transfer_depth complete_outputs
    normalize_transfer_output_expiries clamp_expiries clamp_expiry least_expiries note_expiry
    check_conservation fund spend all_spent checked_add sub wrap64 ◌-ℤ◌ ◌+ℤ◌ sign_transfer
    transfer_tx_id transfer_preimage sign check_expiry_propagation check_expiries
transferred = 0

abbrev pub replicate : ℕ → ℕ → Bytes
replicate zero b = []
replicate (suc n) b = b ∷ replicate n b

abbrev pub private_key : Bytes
private_key = replicate 64 3

abbrev pub author : NodeId
author = elim (public_key_from_private toy private_key >>= node_id_from_public_key) [
  | ok id ↦ id
  | err _ ↦ 0
]

abbrev held : ℕ → ℕ → Value
held amount expiry =
    let blank : Value = record {
      id = 0;
      unit = 10;
      amount = pos amount;
      owner = author;
      created_at = pos 100;
      issuer = 8;
      expiry_unix = pos expiry;
      depth = 2;
    } in
    elim (value_id_for toy blank) [ ok id ↦ record blank { id = id } | err _ ↦ blank ]

abbrev wanted : ℕ → ℕ → Value
wanted amount owner = record {
  id = 0;
  unit = 10;
  amount = pos amount;
  owner = owner;
  created_at = pos 200;
  issuer = 8;
  expiry_unix = pos 0;
  depth = 0;
}

-- Two coins, one of which expires, become two others.
abbrev pub coins : List Value
coins = held 5 900 ∷ held 7 0 ∷ []

abbrev gifts : List Value
gifts = wanted 4 21 ∷ wanted 8 22 ∷ []

abbrev pub transfer : TransferTx
transfer = elim (new_transfer_tx toy private_key coins gifts) [
  | ok tx ↦ tx
  | err _ ↦ record { id = 0; inputs = []; outputs = []; author = 0; signature = [] }
]

new_transfer : new_transfer_tx toy private_key coins gifts ≡ ok transfer
unfolding transferred
new_transfer = refl

validate-new_transfer_tx_example : validate_transfer_tx toy transfer coins ≡ ok tt
validate-new_transfer_tx_example =
    validate-new_transfer_tx toy toy-IsSound private_key coins gifts transfer
      (toy-IsKey (replicate 32 3) refl) new_transfer

gifts_conserved : check_conservation coins gifts ≡ ok tt
unfolding transferred
gifts_conserved = refl

too_much : check_conservation coins (wanted 13 21 ∷ []) ≡ err exceeds_inputs
unfolding transferred
too_much = refl

too_little : check_conservation coins (wanted 11 21 ∷ []) ≡ err not_conserved
unfolding transferred
too_little = refl

check_conservation_sound_example : sum_of 10 coins ≡ sum_of 10 gifts
check_conservation_sound_example =
    check_conservation_sound coins gifts (ground arith) (ground arith) gifts_conserved 10

check_conservation_issuers_example : All (HasInputKey coins) gifts
check_conservation_issuers_example = check_conservation_issuers coins gifts gifts_conserved

transfer_expiries : check_expiry_propagation coins transfer.outputs ≡ ok tt
unfolding transferred
transfer_expiries = refl

check_expiry_propagation_sound_example :
    All (λ v. HasInputKey coins v × All (NotOutliving v) coins) transfer.outputs
check_expiry_propagation_sound_example =
    check_expiry_propagation_sound coins transfer.outputs transfer_expiries

abbrev coins_backwards : List Value
coins_backwards = held 7 0 ∷ held 5 900 ∷ []

sorted_coins : canonical_inputs_for_transfer toy (ids_of coins) coins_backwards ≡ ok coins
unfolding transferred
sorted_coins = refl
