-- ===== src/Model/Ids.antt =====
-- core/model/ids.go, and the node IDs of core/model/protocol.go: preimages and the IDs that they
-- hash to.
pub mod Arrays
pub mod Preimages
pub mod Transactions
use web4_v.Base.{
  ℕ, ◌≡◌, Bool, not, ◌||◌, List, [], ◌∷◌, Result, ok, err, ◌>>=◌, ◌>>◌, fail_if, length, ◌==◌,
  bad_key_length,
}
use web4_v.Canonical.{str, bytes, int, uint, list, Items, nil, cons, Field, ascii, encode_fields}
use web4_v.Crypto.{Primitives, hash_bytes}
use web4_v.Model.Types.{Bytes, UnitId, ValueId, TxId, NodeId, Value, IssueTx, TradeTx, TransferTx}
use Arrays.{array32, of_bytes}
use Prim.Native.String.{String}

-- A `[][]byte` is a list of byte slices to the encoder.
abbrev pub slices : List Bytes → Items
slices [] = nil
slices (b ∷ bs) = cons (bytes b) (slices bs)

abbrev pub text_field : String → String → Field
text_field name value = (ascii name, str (ascii value))

abbrev pub value_fields : Value → List Field
value_fields v =
    text_field "kind" "value"
    ∷ (ascii "amount", int v.amount)
    ∷ (ascii "unit", bytes (array32 v.unit))
    ∷ (ascii "owner", bytes (array32 v.owner))
    ∷ (ascii "created_at", int v.created_at)
    ∷ (ascii "issuer", bytes (array32 v.issuer))
    ∷ (ascii "expiry_unix", int v.expiry_unix)
    ∷ (ascii "depth", uint v.depth)
    ∷ []

unfoldable pub value_preimage : Value → Result Bytes
value_preimage v = encode_fields (value_fields v)

unfoldable pub value_preimages : List Value → Result (List Bytes)
value_preimages [] = ok []
value_preimages (v ∷ vs) = do
  preimage ← value_preimage v
  rest ← value_preimages vs
  ok (preimage ∷ rest)

abbrev pub issue_fields : IssueTx → List Bytes → List Field
issue_fields tx outputs =
    text_field "kind" "issue_tx"
    ∷ (ascii "unit_name", str tx.unit_name)
    ∷ (ascii "unit", bytes (array32 tx.unit))
    ∷ (ascii "amount", int tx.amount)
    ∷ (ascii "outputs", list (slices outputs))
    ∷ (ascii "issuer", bytes (array32 tx.issuer))
    ∷ (ascii "owner", bytes (array32 tx.owner))
    ∷ (ascii "expiry_unix", int tx.expiry_unix)
    ∷ (ascii "timestamp", int tx.timestamp)
    ∷ []

unfoldable pub issue_preimage : IssueTx → Result Bytes
issue_preimage tx = do outputs ← value_preimages tx.outputs; encode_fields (issue_fields tx outputs)

abbrev pub arrays : List ValueId → List Bytes
arrays [] = []
arrays (id ∷ ids) = array32 id ∷ arrays ids

abbrev pub transfer_fields : TransferTx → List Bytes → List Field
transfer_fields tx outputs =
    text_field "kind" "transfer_tx"
    ∷ (ascii "inputs", list (slices (arrays tx.inputs)))
    ∷ (ascii "outputs", list (slices outputs))
    ∷ (ascii "author", bytes (array32 tx.author))
    ∷ []

unfoldable pub transfer_preimage : TransferTx → Result Bytes
transfer_preimage tx = do
  outputs ← value_preimages tx.outputs
  encode_fields (transfer_fields tx outputs)

abbrev pub trade_fields : TradeTx → List Bytes → List Bytes → List Bytes → List Bytes → List Field
trade_fields tx inputs_a inputs_b outputs_a outputs_b =
    text_field "kind" "trade_tx"
    ∷ (ascii "inputs_a", list (slices inputs_a))
    ∷ (ascii "inputs_b", list (slices inputs_b))
    ∷ (ascii "outputs_a", list (slices outputs_a))
    ∷ (ascii "outputs_b", list (slices outputs_b))
    ∷ (ascii "party_a", bytes (array32 tx.party_a))
    ∷ (ascii "party_b", bytes (array32 tx.party_b))
    ∷ (ascii "timestamp", int tx.timestamp)
    ∷ []

unfoldable pub trade_preimage : TradeTx → Result Bytes
trade_preimage tx = do
  inputs_a ← value_preimages tx.inputs_a
  inputs_b ← value_preimages tx.inputs_b
  outputs_a ← value_preimages tx.outputs_a
  outputs_b ← value_preimages tx.outputs_b
  encode_fields (trade_fields tx inputs_a inputs_b outputs_a outputs_b)

-- `NodeIDFromPublicKey`
unfoldable pub node_id_from_public_key : Bytes → Result NodeId
node_id_from_public_key key = do fail_if (not (length key == 32)) bad_key_length; ok (of_bytes key)

-- `NodeID.PublicKey`
abbrev pub public_key : NodeId → Bytes
public_key id = array32 id

module _ (c : Primitives) where
  -- `NewUnitID`
  unfoldable pub new_unit_id : Bytes → Bytes → Result UnitId
  new_unit_id issuer unit_name = do
    preimage ← encode_fields (
        text_field "kind" "unit"
        ∷ (ascii "issuer", bytes issuer)
        ∷ (ascii "unit_name", str unit_name)
        ∷ [])
    ok (hash_bytes c preimage)

  -- `NewUnitIDFromMetadata`
  unfoldable pub new_unit_id_from_metadata : NodeId → Bytes → Result UnitId
  new_unit_id_from_metadata issuer metadata = do
    preimage ← encode_fields (
        text_field "kind" "unit"
        ∷ (ascii "issuer", bytes (array32 issuer))
        ∷ (ascii "metadata", bytes metadata)
        ∷ [])
    ok (hash_bytes c preimage)

  unfoldable pub value_id_for : Value → Result ValueId
  value_id_for v = do preimage ← value_preimage v; ok (hash_bytes c preimage)

  unfoldable pub issue_tx_id : IssueTx → Result TxId
  issue_tx_id tx = do preimage ← issue_preimage tx; ok (hash_bytes c preimage)

  unfoldable pub transfer_tx_id : TransferTx → Result TxId
  transfer_tx_id tx = do preimage ← transfer_preimage tx; ok (hash_bytes c preimage)

  unfoldable pub trade_tx_id : TradeTx → Result TxId
  trade_tx_id tx = do preimage ← trade_preimage tx; ok (hash_bytes c preimage)

  -- `publicKeyFromPrivate`
  unfoldable pub public_key_from_private : Bytes → Result Bytes
  public_key_from_private priv = do
    fail_if (not (length priv == 64)) bad_key_length
    let key = c.public_part priv
    fail_if (not (length key == 32)) bad_key_length
    ok key
