-- ===== src/Store/Persist.antt =====
-- `PersistExecutedTrade` of core/store/json.go.
use web4_v.Base.Dict.{has}
use web4_v.Base.{nat_eq, Bool, true, false, List, err, if◌then◌else◌, trade_replay}
use web4_v.Model.Types.{TxId}
use web4_v.Store.{preparing, Disk, JsonFile, targets_of}
use web4_v.Store.Commands.{
  Command, ◌>>=◌, ◌>>◌, lift, give, exists, operate, attempt, on_failure, deferred,
}
use web4_v.Store.Files.{
  Staged, drop_manifest, drop_committed, drop_reserved, write_executed_marker, write_commit_record,
  reserve_executed_trade, write_manifest, write_batch, rollback, cleanup,
}

module _ {V : Type 0} where
  -- `|| exists(…)`
  abbrev pub or_exists : Bool → (Disk V → Bool) → Command V Bool
  or_exists true f = give true
  or_exists false f = exists f

  -- From the committed batch on. The removals at the end ignore their errors.
  unfoldable pub finish_batch : TxId → List (Staged V) → Command V (Unit {0})
  finish_batch id batch = do
    on_failure (rollback batch) (write_commit_record id)
    write_executed_marker id
    cleanup batch
    attempt (operate (drop_committed id))
    attempt (operate (drop_manifest id))

  -- With the trade reserved. The manifest goes if anything after it fails.
  unfoldable pub persist_reserved : TxId → List (JsonFile V) → Command V (Unit {0})
  persist_reserved id files = do
    write_manifest id preparing (targets_of files)
    on_failure (attempt (operate (drop_manifest id)))
        (write_batch id files >>= λ batch. finish_batch id batch)

  -- The four tests, of which the first that finds a file is the last.
  unfoldable pub has_executed_trade : TxId → Command V Bool
  has_executed_trade id = do
    executed ← exists (λ d. has id d.executed)
    committed ← or_exists executed (λ d. has id d.committed)
    reserved ← or_exists committed (λ d. has id d.reserved)
    or_exists reserved (λ d. has id d.manifests)

  unfoldable pub persist_executed_trade : TxId → List (JsonFile V) → Command V (Unit {0})
  persist_executed_trade id files = do
    seen ← has_executed_trade id
    if seen
        then lift (err trade_replay)
        else (reserve_executed_trade id
            >> deferred (attempt (operate (drop_reserved id))) (persist_reserved id files))
