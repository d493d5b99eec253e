-- ===== src/Store.antt =====
-- core/store/json.go: what a JSON store keeps on the disk, and the documents that it writes. A path
-- below the root is its directory and the ID in its name, or one of the four files that a trade has
-- while it is written; the name of every other file is its own. The JSON text of a document is of a
-- type of its own, which encoding/json makes and reads.
pub mod Commands
pub mod Files
pub mod Persist
pub mod Recovery
pub mod Atomic
use web4_v.Base.{
  ℕ, ◌≡◌, ◌↔◌, refl, Bool, true, false, ◌&&◌, ◌||◌, List, [], ◌∷◌, ◌++◌, Option, none, some, Result,
  ok, err, ◌==◌, ==_iff, nat_eq, Eq, arith,
}
use web4_v.Base.Dict.{Dict, has}
use web4_v.Model.Types.{UnitId, TxId, NodeId}
use web4_v.Model.Inventory.{Units, units_of}
use web4_v.Model.Flow.{FlowRecord}
use web4_v.Price.{PriceResult}
use web4_v.Node.{AuthorizedTradeTx}
use web4_v.Node.Trade.{PersistedNodeState}

-- The directories of a store, as numbers: "trades", "inventory", "flow" and "prices".
abbrev pub Directory : Type 0
Directory = ℕ

abbrev pub trades : Directory
trades = 0

abbrev pub inventory : Directory
inventory = 1

abbrev pub flow : Directory
flow = 2

abbrev pub prices : Directory
prices = 3

-- The path of a document: "<directory>/<id>.json".
pub record Target : Type 0 where
  pub directory : Directory
  pub id : ℕ

abbrev target_eqb : Target → Target → Bool
target_eqb a b = a.directory == b.directory && a.id == b.id

pub target_eqb_iff : (a b : Target) → (target_eqb a b ≡ true) ↔ (a ≡ b)
target_eqb_iff a b = ground (arith, ==_iff a.directory b.directory, ==_iff a.id b.id)

instance abbrev pub target_eq : Eq Target
target_eq = record { beq = target_eqb; beq_iff = target_eqb_iff }

-- The values that are written as JSON. The keys of their maps are hexadecimal and read as IDs.
pub data Document (F : Type 0) : Type 0 where
  trade_document : AuthorizedTradeTx → Document F
  inventory_document : NodeId → Units → Document F
  flow_document : NodeId → Dict UnitId FlowRecord → Document F
  price_document : NodeId → Dict UnitId (PriceResult F) → Document F

pub data Phase : Type 0 where
  preparing applying committed_phase other_phase : Phase

-- `transactionManifest`
pub record Manifest : Type 0 where
  pub id : TxId
  pub phase : Phase
  pub targets : List Target

-- The files of a store: which trades have an executed, a committed and a reservation file, the
-- manifests, where `none` is one that cannot be read, and the documents.
pub record Disk (V : Type 0) : Type 0 where
  pub executed : Dict TxId Bool
  pub committed : Dict TxId Bool
  pub reserved : Dict TxId Bool
  pub manifests : Dict TxId (Option Manifest)
  pub documents : Dict Target V

-- The trade has one of the four files that `HasExecutedTrade` looks for.
unfoldable pub has_trade_file : {V : Type 0} → Disk V → TxId → Bool
has_trade_file d id =
    has id d.executed || has id d.committed || has id d.reserved || has id d.manifests

-- A document to write: its JSON or why there is none.
abbrev pub JsonFile : Type 0 → Type 0
JsonFile V = Target × Result V

module _ {F V : Type 0} (marshal : Document F → Result V) where
  unfoldable pub state_files : PersistedNodeState F → List (JsonFile V)
  state_files s =
      (
        record { directory = inventory; id = s.id },
        marshal (inventory_document s.id (units_of s.inventory s.id)),
      )
      ∷ (record { directory = flow; id = s.id }, marshal (flow_document s.id s.flow))
      ∷ (record { directory = prices; id = s.id }, marshal (price_document s.id s.price_state))
      ∷ []

  abbrev pub all_state_files : List (PersistedNodeState F) → List (JsonFile V)
  all_state_files [] = []
  all_state_files (s ∷ ss) = state_files s ++ all_state_files ss

  -- The `files` of `PersistExecutedTrade`.
  unfoldable pub trade_files :
      TxId → AuthorizedTradeTx → List (PersistedNodeState F) → List (JsonFile V)
  trade_files id tx states =
      (record { directory = trades; id = id }, marshal (trade_document tx)) ∷ all_state_files states

abbrev pub targets_of : {V : Type 0} → List (JsonFile V) → List Target
targets_of [] = []
targets_of ((t, _) ∷ fs) = t ∷ targets_of fs
