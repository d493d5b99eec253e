-- ===== src/Model/Transfer/Checks.antt =====
-- The checks of core/model/validate.go that a transfer goes through. The rounds of a Go loop over a
-- map come in no order; here they follow the list, and every failing round returns the same error.
use web4_v.Base.{
  ℕ, ◌+◌, ◌-◌, ◌^◌, ◌≡◌, ◌↔◌, Bool, true, false, not, ◌&&◌, ◌||◌, List, [], ◌∷◌, none, some, Result,
  ok, err, ◌>>=◌, ◌>>◌, fail_if, if◌then◌else◌, ◌==◌, ltb, length, Eq, nat_eq, arith,
  value_id_mismatch, duplicate_value_id, duplicate_tx_input, input_id_mismatch, input_set_mismatch,
  depth_overflow, amount_not_positive, issuer_mismatch, unknown_unit, exceeds_inputs, not_conserved,
  unknown_unit_issuer, removes_expiry, extends_expiry,
}
use web4_v.Base.Int.{ℤ, pos, ltb_ℤ, eqb_ℤ}
use web4_v.Base.Dict.{Dict, lookup, get, has, insert}
use web4_v.Crypto.{Primitives}
use web4_v.Model.Types.{UnitId, ValueId, NodeId, Value}
use web4_v.Model.Amount.{checked_add, sub, valid_amount}
use web4_v.Model.Ids.{value_id_for}
use web4_v.Model.Trade.{contains}

abbrev pub ids_of : List Value → List ValueId
ids_of [] = []
ids_of (v ∷ vs) = v.id ∷ ids_of vs

-- The second loop of `canonicalInputsForTransfer`, on the IDs not seen so far.
unfoldable pub pick_inputs : Dict ValueId Value → List ValueId → List ValueId → Result (List Value)
pick_inputs by_id seen [] = ok []
pick_inputs by_id seen (id ∷ ids) = do
  fail_if (contains id seen) duplicate_tx_input
  input ← elim (lookup id by_id) [ none ↦ err input_id_mismatch | some v ↦ ok v ]
  rest ← pick_inputs by_id (id ∷ seen) ids
  ok (input ∷ rest)

module _ (c : Primitives) where
  -- The first loop of `canonicalInputsForTransfer`.
  unfoldable pub index_inputs : Dict ValueId Value → List Value → Result (Dict ValueId Value)
  index_inputs by_id [] = ok by_id
  index_inputs by_id (v ∷ vs) = do
    expected ← value_id_for c v
    fail_if (not (v.id == expected)) value_id_mismatch
    fail_if (has v.id by_id) duplicate_value_id
    index_inputs (insert v.id v by_id) vs

  -- Every ID that the second loop passes is new in `seen`, so their number is that of the IDs.
  unfoldable pub canonical_inputs_for_transfer : List ValueId → List Value → Result (List Value)
  canonical_inputs_for_transfer tx_inputs input_values = do
    by_id ← index_inputs [] input_values
    inputs ← pick_inputs by_id [] tx_inputs
    fail_if (not (length tx_inputs == length by_id)) input_set_mismatch
    ok inputs

  abbrev pub canonical_unique_inputs : List Value → Result (List Value)
  canonical_unique_inputs inputs = canonical_inputs_for_transfer (ids_of inputs) inputs

-- The largest depth of the inputs, from the one found so far.
max_depth : ℕ → List Value → ℕ
max_depth d [] = d
max_depth d (v ∷ vs) = max_depth (if ltb d v.depth then v.depth else d) vs

unfoldable pub next_transfer_depth : List Value → Result ℕ
unfolding max_depth
next_transfer_depth inputs = do
  fail_if (max_depth 0 inputs == (2 ^ 32 - 1)) depth_overflow
  ok (max_depth 0 inputs + 1)

-- `unitBalance`
pub record UnitBalance : Type 0 where
  pub amount : ℤ
  pub issuer : NodeId
  pub is_set : Bool

abbrev pub no_balance : UnitBalance
no_balance = record { amount = pos 0; issuer = 0; is_set = false }

-- The loop of `checkConservation` over the inputs.
unfoldable pub fund : Dict UnitId UnitBalance → List Value → Result (Dict UnitId UnitBalance)
fund balances [] = ok balances
fund balances (v ∷ vs) = do
  fail_if (not (valid_amount v.amount)) amount_not_positive
  let balance = get no_balance v.unit balances
  fail_if (balance.is_set && not (balance.issuer == v.issuer)) issuer_mismatch
  next ← checked_add balance.amount v.amount
  fund (insert v.unit (record { amount = next; issuer = v.issuer; is_set = true }) balances) vs

-- `err` of a `Sub`, in the words of the caller.
abbrev pub or_exceeds : Result ℤ → Result ℤ
or_exceeds (ok a) = ok a
or_exceeds (err _) = err exceeds_inputs

-- The loop over the outputs.
unfoldable pub spend : Dict UnitId UnitBalance → List Value → Result (Dict UnitId UnitBalance)
spend balances [] = ok balances
spend balances (v ∷ vs) = do
  fail_if (not (valid_amount v.amount)) amount_not_positive
  balance ← elim (lookup v.unit balances) [ none ↦ err unknown_unit | some b ↦ ok b ]
  fail_if (not (balance.issuer == v.issuer)) issuer_mismatch
  fail_if (ltb_ℤ balance.amount v.amount) exceeds_inputs
  next ← or_exceeds (sub balance.amount v.amount)
  spend (insert v.unit (record balance { amount = next }) balances) vs

-- The loop over what is left.
unfoldable pub all_spent : Dict UnitId UnitBalance → Result (Unit {0})
all_spent [] = ok tt
all_spent ((unit, balance) ∷ balances) = do
  fail_if (not (eqb_ℤ balance.amount (pos 0))) not_conserved
  all_spent balances

unfoldable pub check_conservation : List Value → List Value → Result (Unit {0})
check_conservation inputs outputs = do
  funded ← fund [] inputs
  left ← spend funded outputs
  all_spent left

-- `unitIssuerKey`
abbrev pub UnitIssuerKey : Type 0
UnitIssuerKey = UnitId × NodeId

abbrev pub same_key : UnitIssuerKey → UnitIssuerKey → Bool
same_key (u, i) (v, j) = u == v && i == j

pub same_key_iff : (k l : UnitIssuerKey) → (same_key k l ≡ true) ↔ (k ≡ l)
same_key_iff (u, i) (v, j) = ground arith

instance abbrev pub key_eq : Eq UnitIssuerKey
key_eq = record { beq = same_key; beq_iff = same_key_iff }

abbrev pub key_of : Value → UnitIssuerKey
key_of v = (v.unit, v.issuer)

-- The least expiry of the inputs of each unit and issuer; 0 stands for none.
unfoldable pub note_expiry : Dict UnitIssuerKey ℤ → Value → Dict UnitIssuerKey ℤ
note_expiry least v =
    let known = get (pos 0) (key_of v) least in
    if eqb_ℤ v.expiry_unix (pos 0)
    then least
    else if eqb_ℤ known (pos 0) || ltb_ℤ v.expiry_unix known
    then insert (key_of v) v.expiry_unix least
    else least

unfoldable pub least_expiries : Dict UnitIssuerKey ℤ → List Value → Dict UnitIssuerKey ℤ
least_expiries least [] = least
least_expiries least (v ∷ vs) = least_expiries (note_expiry least v) vs

-- `_, ok := seen[key]`, where `seen` has the keys of the inputs.
abbrev pub is_input_key : UnitIssuerKey → List Value → Bool
is_input_key key [] = false
is_input_key key (v ∷ vs) = same_key (key_of v) key || is_input_key key vs

-- The loop of `checkExpiryPropagation` over the outputs.
unfoldable pub check_expiries : Dict UnitIssuerKey ℤ → List Value → List Value → Result (Unit {0})
check_expiries least inputs [] = ok tt
check_expiries least inputs (v ∷ vs) = do
  fail_if (not (is_input_key (key_of v) inputs)) unknown_unit_issuer
  let expiry = get (pos 0) (key_of v) least
  let bound = not (eqb_ℤ expiry (pos 0))
  fail_if (bound && eqb_ℤ v.expiry_unix (pos 0)) removes_expiry
  fail_if (bound && ltb_ℤ expiry v.expiry_unix) extends_expiry
  check_expiries least inputs vs

unfoldable pub check_expiry_propagation : List Value → List Value → Result (Unit {0})
check_expiry_propagation inputs outputs = check_expiries (least_expiries [] inputs) inputs outputs

unfoldable pub clamp_expiry : Dict UnitIssuerKey ℤ → Value → Value
clamp_expiry least v =
    let expiry = get (pos 0) (key_of v) least in
    if eqb_ℤ expiry (pos 0)
    then v
    else if eqb_ℤ v.expiry_unix (pos 0) || ltb_ℤ expiry v.expiry_unix
    then record v { expiry_unix = expiry }
    else v

unfoldable pub clamp_expiries : Dict UnitIssuerKey ℤ → List Value → List Value
clamp_expiries least [] = []
clamp_expiries least (v ∷ vs) = clamp_expiry least v ∷ clamp_expiries least vs

unfoldable pub normalize_transfer_output_expiries : List Value → List Value → List Value
normalize_transfer_output_expiries inputs outputs =
    clamp_expiries (least_expiries [] inputs) outputs
