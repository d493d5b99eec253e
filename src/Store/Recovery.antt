-- ===== src/Store/Recovery.antt =====
-- `recoverTransactions` of core/store/json.go, which `NewJSONStore` runs, and the checks of a manifest.
-- A manifest names its targets by their directory and ID, so that the checks against a path outside of
-- the root, and against a name of another form, have nothing to refuse and are left out.
use web4_v.Base.{
  Bool, true, false, not, ltb, ◌&&◌, ◌||◌, List, [], ◌∷◌, Option, none, some, Result, ok, err,
  fail_if, if◌then◌else◌, length, ◌==◌, nat_eq, manifest_id_mismatch, manifest_without_targets,
  target_missing, manifest_without_trade, incomplete_transaction, unknown_phase, stored_id_mismatch,
  stored_node_mismatch, unexpected_target, unreadable_manifest, missing_manifest,
}
use web4_v.Base.Dict.{lookup, has}
use web4_v.Crypto.{Primitives}
use web4_v.Model.Types.{TxId}
use web4_v.Node.Intents.{authorized_trade_id}
use web4_v.Store.{
  Target, target_eq, trades, Document, trade_document, inventory_document, flow_document,
  price_document, Phase, preparing, applying, committed_phase, Manifest,
}
use web4_v.Store.Commands.{
  Command, ◌>>=◌, ◌>>◌, give, lift, observe, exists, operate, no_change, attempt,
}
use web4_v.Store.Files.{drop_committed, drop_reserved, drop_manifest, write_executed_marker}

-- `readJSONIfExists` of a document, over encoding/json: the JSON at a target is read as the document
-- that belongs into the target's directory.
abbrev pub Reader : Type 0 → Type 0 → Type 0
Reader F V = Target → V → Result (Document F)

-- `sawTrade`
unfoldable pub names_trade : TxId → List Target → Bool
names_trade id [] = false
names_trade id (t ∷ ts) = (t.directory == trades && t.id == id) || names_trade id ts

abbrev pub is_committed : Phase → Bool
is_committed committed_phase = true
is_committed _ = false

-- What is read of a manifest that was found, where `none` would be a file that went in between.
abbrev pub readable : Option (Option Manifest) → Result (Option Manifest)
readable none = ok none
readable (some none) = err unreadable_manifest
readable (some (some m)) = ok (some m)

module _ {V : Type 0} where
  -- The removal of what a trade that is executed has left.
  unfoldable pub clear_artifacts : TxId → Command V (Unit {0})
  clear_artifacts id = do
    attempt (operate (drop_committed id))
    attempt (operate (drop_reserved id))
    attempt (operate (drop_manifest id))

  -- `readTransactionManifest`
  unfoldable pub read_manifest : TxId → Command V (Option Manifest)
  read_manifest id = do
    there ← exists (λ d. has id d.manifests)
    if there
        then (observe (λ d. lookup id d.manifests) >>= λ found. lift (readable found))
        else give none

  -- The phases that are not committed.
  unfoldable pub judge_phase : Phase → Command V (Unit {0})
  judge_phase preparing = give tt
  judge_phase applying = lift (err incomplete_transaction)
  judge_phase _ = lift (err unknown_phase)

module _ {F V : Type 0} (c : Primitives) (read : Reader F V) where
  -- What a target must hold.
  abbrev pub is_document_of : TxId → Target → Document F → Result (Unit {0})
  is_document_of id t (trade_document tx) = elim (authorized_trade_id c tx) [
    | err why ↦ err why
    | ok found ↦ fail_if (not (found == id)) stored_id_mismatch
  ]
  is_document_of id t (inventory_document n _) = fail_if (not (n == t.id)) stored_node_mismatch
  is_document_of id t (flow_document n _) = fail_if (not (n == t.id)) stored_node_mismatch
  is_document_of id t (price_document n _) = fail_if (not (n == t.id)) stored_node_mismatch

  -- What is read from the target, where `none` would be a file that went in between.
  unfoldable pub judge_target : TxId → Target → Option V → Result (Unit {0})
  judge_target id t none = err target_missing
  judge_target id t (some v) = elim (read t v) [
    | err why ↦ err why
    | ok document ↦ is_document_of id t document
  ]

  -- `validateTransactionTarget`
  unfoldable pub validate_target : TxId → Target → Command V (Unit {0})
  validate_target id t = do
    lift
        (fail_if (ltb 3 t.directory || t.directory == trades && not (t.id == id)) unexpected_target)
    found ← observe (λ d. lookup t d.documents)
    lift (judge_target id t found)

  -- The loop of `verifyTransactionManifest`.
  unfoldable pub verify_targets : TxId → List Target → Command V (Unit {0})
  verify_targets id [] = give tt
  verify_targets id (t ∷ ts) = do
    there ← exists (λ d. has t d.documents)
    lift (fail_if (not there) target_missing)
    validate_target id t
    verify_targets id ts

  unfoldable pub verify_manifest : TxId → Manifest → Command V (Unit {0})
  verify_manifest id m = do
    lift (fail_if (not (m.id == id)) manifest_id_mismatch)
    lift (fail_if (length m.targets == 0) manifest_without_targets)
    verify_targets id m.targets
    lift (fail_if (not (names_trade id m.targets)) manifest_without_trade)

  -- A trade that is committed is executed, if its manifest is as it should be.
  unfoldable pub complete_trade : TxId → Manifest → Command V (Unit {0})
  complete_trade id m = do verify_manifest id m; write_executed_marker id; clear_artifacts id

  -- A trade without an executed file: of its manifest, if there is one, and whether it has a commit
  -- record.
  unfoldable pub recover_manifest : TxId → Option Manifest → Bool → Command V (Unit {0})
  recover_manifest id none true = lift (err missing_manifest)
  recover_manifest id none false = give tt
  recover_manifest id (some m) committed =
      if committed || is_committed m.phase then complete_trade id m else judge_phase m.phase

  -- A round of the loop.
  unfoldable pub recover_trade : TxId → Command V (Unit {0})
  recover_trade id = do
    executed ← exists (λ d. has id d.executed)
    if executed then clear_artifacts id else do
      m ← read_manifest id
      committed ← exists (λ d. has id d.committed)
      recover_manifest id m committed

  -- The loop, over the IDs in the names that `ReadDir` lists.
  unfoldable pub recover_all : List TxId → Command V (Unit {0})
  recover_all [] = give tt
  recover_all (id ∷ ids) = do recover_trade id; recover_all ids

  -- `NewJSONStore`: the four directories and the recovery.
  unfoldable pub new_json_store : List TxId → Command V (Unit {0})
  new_json_store ids = do
    operate no_change
    operate no_change
    operate no_change
    operate no_change
    operate no_change
    recover_all ids
