-- ===== src/Message/Payloads.antt =====
-- core/message/payload.go and validate.go, and `normalizePayload` of encode.go: the payloads of the
-- messages, and what a payload must say to be one of its type. A payload that is none of the types of
-- payload.go is not modelled, as no message type takes it.
pub mod Validated
pub mod Sorted
use web4_v.Base.{
  ℕ, Bool, true, false, not, ◌&&◌, ◌||◌, List, [], ◌∷◌, Result, ok, err, ◌>>=◌, ◌>>◌, fail_if,
  if◌then◌else◌, ◌==◌, length, same_bytes, invalid_message_type, payload_type_mismatch,
  hello_node_id_mismatch, hello_versions_required, hello_version_zero, request_id_required,
  request_parties_required, request_parties_equal, request_amount_not_positive,
  request_spread_invalid, request_expiry_negative, response_request_id_required,
  response_quote_id_required, response_parties_required, response_sell_amount_not_positive,
  response_buy_amount_not_positive, response_prices_invalid, response_expiry_negative,
  intent_quote_id_required, intent_invalid, authorized_id_required, authorized_id_mismatch,
  result_id_required, unknown_result_status, reject_reference_required, reject_code_required,
  ping_time_not_positive, pong_times_not_positive,
}
use web4_v.Base.Int.{ℤ, pos, ltb_ℤ}
use web4_v.Canonical.{ascii, string_lt}
use web4_v.Crypto.{Primitives}
use web4_v.Floats.{Floats}
use web4_v.Model.Types.{Bytes, TxId, NodeId}
use web4_v.Model.Ids.{node_id_from_public_key}
use web4_v.Node.{SignedTradeIntent, AuthorizedTradeTx}
use web4_v.Node.Intents.{verify_trade_intent, authorized_trade_id}
use web4_v.Handler.Session.{QuoteRequest, QuoteResponse}
use web4_v.Message.{MessageType, is_valid_message_type, among}

pub record Hello : Type 0 where
  pub node_id : NodeId
  pub public_key : Bytes
  pub supported_versions : List ℕ
  pub features : List Bytes

pub data Payload (F : Type 0) : Type 0 where
  hello : Hello → Payload F
  quote_request : QuoteRequest F → Payload F
  quote_response : QuoteResponse F → Payload F
  signed_intent : TxId → SignedTradeIntent → Payload F
  authorized_trade : AuthorizedTradeTx → TxId → Payload F
  -- The ID of the trade, a status and a reason.
  trade_result : TxId → Bytes → Bytes → Payload F
  -- The ID of a message, a code and a reason.
  rejection : TxId → Bytes → Bytes → Payload F
  ping : ℤ → Payload F
  pong : ℤ → ℤ → Payload F

abbrev pub type_of : {F : Type 0} → Payload F → MessageType
type_of (hello _) = ascii "HELLO"
type_of (quote_request _) = ascii "QUOTE_REQUEST"
type_of (quote_response _) = ascii "QUOTE_RESPONSE"
type_of (signed_intent _ _) = ascii "SIGNED_INTENT"
type_of (authorized_trade _ _) = ascii "AUTHORIZED_TRADE"
type_of (trade_result _ _ _) = ascii "TRADE_RESULT"
type_of (rejection _ _ _) = ascii "REJECT"
type_of (ping _) = ascii "PING"
type_of (pong _ _) = ascii "PONG"

unfoldable pub insert_string : Bytes → List Bytes → List Bytes
insert_string s [] = s ∷ []
insert_string s (t ∷ ts) =
    let rest = insert_string s ts in if string_lt t s then t ∷ rest else s ∷ t ∷ ts

unfoldable pub sorted_strings : List Bytes → List Bytes
unfolding insert_string
sorted_strings [] = []
sorted_strings (s ∷ ss) = insert_string s (sorted_strings ss)

abbrev pub normalized : {F : Type 0} → Payload F → Payload F
normalized (hello p) = hello (record p { features = sorted_strings p.features })
normalized p = p

unfoldable pub normalize_payload : {F : Type 0} → MessageType → Payload F → Result (Payload F)
normalize_payload t p =
    fail_if (not (is_valid_message_type t)) invalid_message_type
    >> fail_if (not (same_bytes t (type_of p))) payload_type_mismatch
    >> ok (normalized p)

-- The loop over the supported versions.
unfoldable pub check_versions : List ℕ → Result (Unit {0})
check_versions [] = ok tt
check_versions (v ∷ vs) = do fail_if (v == 0) hello_version_zero; check_versions vs

abbrev pub result_statuses : List Bytes
result_statuses = ascii "ACCEPTED" ∷ ascii "REJECTED" ∷ ascii "FAILED" ∷ []

abbrev is_positive : ℤ → Bool
is_positive a = ltb_ℤ (pos 0) a

module _ {F : Type 0} (fl : Floats F) where
  -- `invalidPrice`, which is also the test of a spread limit.
  abbrev pub invalid_price : F → Bool
  invalid_price v = fl.lt v (fl.of_int (pos 0)) || fl.is_nan v || fl.is_inf v

  unfoldable pub validate_request : QuoteRequest F → Result (Unit {0})
  validate_request p = do
    fail_if (p.request_id == 0) request_id_required
    fail_if (p.seller == 0 || p.buyer == 0) request_parties_required
    fail_if (p.seller == p.buyer) request_parties_equal
    fail_if (not (is_positive p.sell_amount)) request_amount_not_positive
    fail_if (invalid_price p.spread_limit) request_spread_invalid
    fail_if (ltb_ℤ p.expiry_unix (pos 0)) request_expiry_negative

  unfoldable pub validate_response : QuoteResponse F → Result (Unit {0})
  validate_response p = do
    fail_if (p.request_id == 0) response_request_id_required
    fail_if (p.quote_id == 0) response_quote_id_required
    fail_if (p.seller == 0 || p.buyer == 0) response_parties_required
    fail_if (not (is_positive p.sell_amount)) response_sell_amount_not_positive
    fail_if (p.executable && not (is_positive p.buy_amount)) response_buy_amount_not_positive
    fail_if (invalid_price p.seller_ask || invalid_price p.buyer_bid) response_prices_invalid
    fail_if (ltb_ℤ p.expiry_unix (pos 0)) response_expiry_negative

  module _ (c : Primitives) where
    unfoldable pub validate_hello : Hello → Result (Unit {0})
    validate_hello p = do
      id ← node_id_from_public_key p.public_key
      fail_if (not (p.node_id == id)) hello_node_id_mismatch
      fail_if (length p.supported_versions == 0) hello_versions_required
      check_versions p.supported_versions

    unfoldable pub validate_authorized : AuthorizedTradeTx → TxId → Result (Unit {0})
    validate_authorized trade given = do
      fail_if (given == 0) authorized_id_required
      id ← authorized_trade_id c trade
      fail_if (not (id == given)) authorized_id_mismatch

    unfoldable pub validate_content : Payload F → Result (Unit {0})
    validate_content (hello p) = validate_hello p
    validate_content (quote_request p) = validate_request p
    validate_content (quote_response p) = validate_response p
    validate_content (signed_intent id s) =
        fail_if (id == 0) intent_quote_id_required
        >> fail_if (not (verify_trade_intent c s)) intent_invalid
    validate_content (authorized_trade trade id) = validate_authorized trade id
    validate_content (trade_result id status reason) =
        fail_if (id == 0) result_id_required
        >> fail_if (not (among status result_statuses)) unknown_result_status
    validate_content (rejection id code reason) =
        fail_if (id == 0) reject_reference_required
        >> fail_if (length code == 0) reject_code_required
    validate_content (ping time) = fail_if (not (is_positive time)) ping_time_not_positive
    validate_content (pong ping_time time) =
        fail_if (not (is_positive ping_time) || not (is_positive time)) pong_times_not_positive

    unfoldable pub validate_payload_semantics : MessageType → Payload F → Result (Unit {0})
    validate_payload_semantics t payload = do
      fail_if (not (is_valid_message_type t)) invalid_message_type
      p ← normalize_payload t payload
      validate_content p
