-- ===== src/Base/Outcome.antt =====
-- Go's (value, error) pairs. An error text is a constructor of its own, but texts that differ only in
-- whether they name the seller or the buyer, or in a message type, may share one; the indices that a
-- text prints and the words that a wrapping `fmt.Errorf("…: %w")` puts in front of its cause are left
-- out, but for the four kinds of core/handler/errors.go that hold a cause.
use mathlib.Core.Path.{◌≡◌, refl}
use mathlib.Core.Logic.{◌⊎◌, inl, inr}
use mathlib.Core.Bool.{Bool, true, false, not}

pub data Error : Type 0 where
  amount_overflow amount_negative insufficient_amount amount_not_positive : Error
  insufficient_inventory not_in_inventory : Error
  inputs_required outputs_required parties_required parties_must_differ : Error
  unit_name_required owner_required : Error
  tx_id_mismatch value_id_mismatch unit_mismatch owner_mismatch issuer_mismatch : Error
  duplicate_value_id duplicate_tx_input input_count_mismatch input_id_mismatch : Error
  input_set_mismatch not_owned_by_author depth_overflow depth_mismatch : Error
  unknown_unit unknown_unit_issuer exceeds_inputs not_conserved unit_set_changed : Error
  removes_expiry extends_expiry invalid_signature bad_key_length : Error
  one_output_required output_differs output_mismatch : Error
  unsupported_type : Error
  unsupported_message_version invalid_message_type timestamp_required nonce_required : Error
  sender_mismatch payload_not_canonical payload_hash_mismatch message_id_mismatch : Error
  invalid_envelope_signature : Error
  duplicate_message : Error
  invalid_amount panicked : Error
  intent_timestamp_required party_key_mismatch quote_not_executable not_quote_party : Error
  private_key_required quote_timestamp_required quote_not_accepted : Error
  quote_parties_mismatch invalid_seller_authorization invalid_buyer_authorization : Error
  authorization_party_mismatch authorization_key_mismatch node_key_mismatch : Error
  intent_quote_mismatch authorization_terms_mismatch authorization_timestamp_mismatch : Error
  authorization_in_future authorization_expired one_sided_store store_required : Error
  seller_rejected buyer_rejected split_stores trade_replay : Error
  quote_request_expired quote_removes_expiry quote_extends_expiry quote_expired : Error
  quote_differs_from_request spread_limit_invalid quote_prices_not_positive : Error
  bid_below_ask spread_limit_exceeded : Error
  payload_required payload_type_mismatch hello_node_id_mismatch hello_versions_required
        hello_version_zero :
      Error
  request_id_required request_parties_required request_parties_equal : Error
  request_amount_not_positive request_spread_invalid request_expiry_negative : Error
  response_request_id_required response_quote_id_required response_parties_required : Error
  response_sell_amount_not_positive response_buy_amount_not_positive : Error
  response_prices_invalid response_expiry_negative : Error
  intent_quote_id_required intent_invalid : Error
  authorized_id_required authorized_id_mismatch : Error
  result_id_required unknown_result_status : Error
  reject_reference_required reject_code_required : Error
  ping_time_not_positive pong_times_not_positive : Error
  sender_not_session_peer hello_peer_mismatch session_peer_not_buyer : Error
  session_peer_not_seller local_node_not_quote_party local_node_not_trade_party : Error
  invalid_trade_intent intent_party_mismatch authorized_id_not_negotiated : Error
  pending_trade_mismatch no_negotiation unknown_trade_result : Error
  missing_local_authorization missing_peer_authorization : Error
  local_authorization_not_negotiated peer_authorization_differs : Error
  peer_authorization_not_negotiated session_local_mismatch node_without_private_key : Error
  invalid_peer invalid_payload unexpected_message trade_execution_failed : Error → Error
  execution_in_progress disk_error unreadable_manifest missing_manifest : Error
  manifest_id_mismatch manifest_without_targets target_missing manifest_without_trade : Error
  incomplete_transaction unknown_phase stored_id_mismatch stored_node_mismatch : Error
  unexpected_target : Error
  empty_frame frame_too_large truncated_frame bad_magic unsupported_version invalid_frame : Error

pub data Result {ℓ} (A : Type ℓ) : Type ℓ where
  ok : A → Result A
  err : Error → Result A

infixl 5 ◌>>=◌ ◌>>◌
-- `x, err := …; if err != nil { return …, err }`
abbrev pub ◌>>=◌ {ℓ κ} : {X : Type ℓ} {Y : Type κ} (r : Result X) (next : X → Result Y) → Result Y
ok x >>= next = next x
err why >>= next = err why

-- The same of a function that returns an error only.
abbrev pub ◌>>◌ {ℓ} : {Y : Type ℓ} (check : Result (Unit {0})) (rest : Result Y) → Result Y
check >> rest = check >>= λ passed. rest

-- `if bad { return …, e }`
abbrev pub fail_if : Bool → Error → Result (Unit {0})
fail_if true e = err e
fail_if false e = ok tt

pub Result-cases {ℓ} :
    {X : Type ℓ} (r : Result X) → ((x : X) × (r ≡ ok x)) ⊎ ((why : Error) × (r ≡ err why))
Result-cases (err why) = inr (why, refl)
Result-cases (ok x) = inl (x, refl)

-- What a successful bind ran through.
pub >>=-eq-ok {ℓ κ} :
    {X : Type ℓ} {Y : Type κ} (r : Result X) (next : X → Result Y) {y : Y} (e : (r >>= next) ≡ ok y)
    → (x : X) × (r ≡ ok x) × (next x ≡ ok y)
>>=-eq-ok (ok x) next e = (x, refl, e)
>>=-eq-ok (err why) next e = cc

pub >>-eq-ok {ℓ} :
    {Y : Type ℓ} (check : Result (Unit {0})) (rest : Result Y) {y : Y} (e : (check >> rest) ≡ ok y)
    → (check ≡ ok tt) × (rest ≡ ok y)
>>-eq-ok (ok tt) rest e = (refl, e)
>>-eq-ok (err why) rest e = cc

pub ok-inj {ℓ} : {A : Type ℓ} (a b : A) → Result.ok a ≡ Result.ok b → a ≡ b
ok-inj a b e = cc

pub fail_if-false : (b : Bool) (x : Error) → fail_if b x ≡ ok tt → b ≡ false
fail_if-false false x h = refl
fail_if-false true x h = cc

pub fail_if-not-true : (b : Bool) (x : Error) → fail_if (not b) x ≡ ok tt → b ≡ true
fail_if-not-true true x h = refl
fail_if-not-true false x h = cc
