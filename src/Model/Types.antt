-- ===== src/Model/Types.antt =====
-- core/model/types.go. A [32]byte (an ID, a unit, a node's public key) is the number below 2 ^ 256
-- that its bytes spell, the lowest byte first; strings, keys and signatures are lists of bytes.
use web4_v.Base.{ℕ, ◌^◌, ◌<◌, Bool, ◌&&◌, List, ◌==◌}
use web4_v.Base.Int.{ℤ, eqb_ℤ, IsI64}

abbrev pub UnitId : Type 0
UnitId = ℕ

abbrev pub ValueId : Type 0
ValueId = ℕ

abbrev pub TxId : Type 0
TxId = ℕ

abbrev pub NodeId : Type 0
NodeId = ℕ

-- A string or a []byte, by its bytes.
abbrev pub Bytes : Type 0
Bytes = List ℕ

pub record Value : Type 0 where
  pub id : ValueId
  pub unit : UnitId
  pub amount : ℤ
  pub owner : NodeId
  pub created_at : ℤ
  pub issuer : NodeId
  pub expiry_unix : ℤ
  pub depth : ℕ

pub record IssueTx : Type 0 where
  pub id : TxId
  pub unit : UnitId
  pub outputs : List Value
  pub issuer : NodeId
  pub timestamp : ℤ
  pub unit_name : Bytes
  pub amount : ℤ
  pub owner : NodeId
  pub expiry_unix : ℤ
  pub signature : Bytes

pub record TradeTx : Type 0 where
  pub id : TxId
  pub inputs_a : List Value
  pub inputs_b : List Value
  pub outputs_a : List Value
  pub outputs_b : List Value
  pub party_a : NodeId
  pub party_b : NodeId
  pub timestamp : ℤ

pub record TransferTx : Type 0 where
  pub id : TxId
  pub inputs : List ValueId
  pub outputs : List Value
  pub author : NodeId
  pub signature : Bytes

-- Go's `==` on two values compares every field.
abbrev pub value_eqb : Value → Value → Bool
value_eqb v w =
    v.id == w.id
    && v.unit == w.unit
    && eqb_ℤ v.amount w.amount
    && v.owner == w.owner
    && eqb_ℤ v.created_at w.created_at
    && v.issuer == w.issuer
    && eqb_ℤ v.expiry_unix w.expiry_unix
    && v.depth == w.depth

-- What the Go types of the fields say.
pub record IsTyped (v : Value) : Type 0 where
  pub id_32 : v.id < 2 ^ 256
  pub unit_32 : v.unit < 2 ^ 256
  pub owner_32 : v.owner < 2 ^ 256
  pub issuer_32 : v.issuer < 2 ^ 256
  pub depth_u32 : v.depth < 2 ^ 32
  pub amount_i64 : IsI64 v.amount
  pub created_at_i64 : IsI64 v.created_at
  pub expiry_i64 : IsI64 v.expiry_unix

-- `isZeroNodeID`
abbrev pub is_zero_node_id : NodeId → Bool
is_zero_node_id id = id == 0
