-- ===== src/Store/Atomic.antt =====
-- The states of a disk (core/store/json.go) between which a trade is written, seen from its ID, its
-- documents and the disk before.
pub mod Writing
pub mod Reopening
pub mod Refused
pub mod Whole
use web4_v.Base.{
  ℕ, ◌≡◌, ◌≢◌, refl, sym, ◌∙◌, ap, Bool, true, false, ◌||◌, ◌⊎◌, inl, inr, List, [], ◌∷◌, ◌++◌,
  Option, some, Result, ok, err, nat_eq,
}
use web4_v.Base.Dict.{Dict, lookup, has, insert}
use web4_v.Model.Types.{TxId}
use web4_v.Store.{Target, target_eq, Phase, applying, Manifest, Disk, has_trade_file, JsonFile}
use web4_v.Store.Commands.{Event, works, fails, crashes}

-- Calls work until the process ends.
abbrev pub IsSteady : Event → Type 0
IsSteady works = Unit
IsSteady fails = ⊥
IsSteady crashes = Unit

-- The same document stands at every target.
pub record SameDocuments {V : Type 0} (a b : Dict Target V) : Type 0 where
  pub same : (t : Target) → lookup t b ≡ lookup t a

-- The documents after all files are written, one after the other.
abbrev pub written_by : {V : Type 0} → List (JsonFile V) → Dict Target V → Dict Target V
written_by [] documents = documents
written_by ((t, ok v) ∷ fs) documents = written_by fs (insert t v documents)
written_by ((t, err _) ∷ fs) documents = written_by fs documents

module _ {V : Type 0} where
  -- No document has changed.
  abbrev pub IsOld : Disk V → Disk V → Type 0
  IsOld old d = SameDocuments old.documents d.documents

  -- All documents are written, and no other has changed.
  abbrev pub IsWritten : Disk V → List (JsonFile V) → Disk V → Type 0
  IsWritten old files d = SameDocuments (written_by files old.documents) d.documents

  -- The trade has neither of the files that say that it is written.
  pub record IsOpen (id : TxId) (d : Disk V) : Type 0 where
    pub not_executed : has id d.executed ≡ false
    pub not_committed : has id d.committed ≡ false

  -- The manifest says that the documents are being moved in.
  pub record IsBlocked (id : TxId) (d : Disk V) : Type 0 where
    pub is_open : IsOpen id d
    pub manifest : Manifest
    pub there : lookup id d.manifests ≡ some (some manifest)
    pub in_phase : manifest.phase ≡ applying

  -- All is written, and the trade has one of the files that `HasExecutedTrade` looks for.
  abbrev pub IsNew : Disk V → TxId → List (JsonFile V) → Disk V → Type 0
  IsNew old id files d = IsWritten old files d × (has_trade_file d id ≡ true)

  -- Where the process may end while it writes.
  abbrev pub IsSafe : Disk V → TxId → List (JsonFile V) → Disk V → Type 0
  IsSafe old id files d = IsOld old d ⊎ IsBlocked id d ⊎ IsNew old id files d
