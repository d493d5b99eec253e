-- ===== src/Store/Files.antt =====
-- The files of core/store/json.go: the exclusive records of a trade, its manifest, and the batch of
-- documents that is staged, moved in and taken back. The name of a temporary or a backup file is known
-- only to the staged file it belongs to, so its content is kept there. What MkdirAll and the opening,
-- writing, syncing and closing of a file do is one call each.
use web4_v.Base.{
  Bool, true, false, List, [], ◌∷◌, ◌++◌, Option, none, some, Error, if◌then◌else◌, nat_eq,
  trade_replay, execution_in_progress,
}
use web4_v.Base.Dict.{lookup, has, insert, erase}
use web4_v.Model.Types.{TxId}
use web4_v.Store.{
  Target, target_eq, Phase, committed_phase, applying, Manifest, Disk, JsonFile, targets_of,
}
use web4_v.Store.Commands.{
  Command, ◌>>=◌, ◌>>◌, give, lift, observe, open_exclusive, operate, no_change, attempt,
  on_failure,
}

-- `stagedJSONFile`. `tmp` says whether there still is a temporary file, which has the content.
pub record Staged (V : Type 0) : Type 0 where
  pub target : Target
  pub content : V
  pub tmp : Bool
  pub backup : Option V
  pub installed : Bool

module _ {V : Type 0} where
  abbrev pub put_executed : TxId → Disk V → Disk V
  put_executed id d = record d { executed = insert id true d.executed }

  abbrev pub drop_executed : TxId → Disk V → Disk V
  drop_executed id d = record d { executed = erase id d.executed }

  abbrev pub put_committed : TxId → Disk V → Disk V
  put_committed id d = record d { committed = insert id true d.committed }

  abbrev pub drop_committed : TxId → Disk V → Disk V
  drop_committed id d = record d { committed = erase id d.committed }

  abbrev pub put_reserved : TxId → Disk V → Disk V
  put_reserved id d = record d { reserved = insert id true d.reserved }

  abbrev pub drop_reserved : TxId → Disk V → Disk V
  drop_reserved id d = record d { reserved = erase id d.reserved }

  abbrev pub put_manifest : Manifest → TxId → Disk V → Disk V
  put_manifest m id d = record d { manifests = insert id (some m) d.manifests }

  abbrev pub drop_manifest : TxId → Disk V → Disk V
  drop_manifest id d = record d { manifests = erase id d.manifests }

  abbrev pub put_document : Target → V → Disk V → Disk V
  put_document t v d = record d { documents = insert t v d.documents }

  abbrev pub drop_document : Target → Disk V → Disk V
  drop_document t d = record d { documents = erase t d.documents }

  -- Once the file is open: it is written, synced and closed, or taken away again.
  unfoldable pub fill_record : (Disk V → Disk V) → Command V (Unit {0})
  fill_record drop = do
    on_failure (attempt (operate drop)) (operate no_change)
    attempt (operate no_change)

  -- The body of `writeTradeRecordExclusive` and `reserveExecutedTrade`, with the error for a file that
  -- is there.
  unfoldable pub create_exclusive :
      (Disk V → Bool) → (Disk V → Disk V) → (Disk V → Disk V) → Error → Command V (Unit {0})
  create_exclusive there put drop why = do
    operate no_change
    open_exclusive there put why
    fill_record drop

  -- `writeExecutedMarkerExclusive`, which is also `MarkExecutedTrade`.
  unfoldable pub write_executed_marker : TxId → Command V (Unit {0})
  write_executed_marker id =
      create_exclusive (λ d. has id d.executed) (put_executed id) (drop_executed id) trade_replay

  unfoldable pub write_commit_record : TxId → Command V (Unit {0})
  write_commit_record id =
      create_exclusive (λ d. has id d.committed) (put_committed id) (drop_committed id) trade_replay

  unfoldable pub reserve_executed_trade : TxId → Command V (Unit {0})
  reserve_executed_trade id =
      create_exclusive (λ d. has id d.reserved) (put_reserved id) (drop_reserved id)
        execution_in_progress

  -- `writeTransactionManifest`: a directory, a temporary file and a renaming.
  unfoldable pub write_manifest : TxId → Phase → List Target → Command V (Unit {0})
  write_manifest id phase targets = do
    operate no_change
    operate no_change
    operate (put_manifest (record { id = id; phase = phase; targets = targets }) id)

  -- `stageJSONFile` after `preflightTarget`, of a file with its JSON.
  unfoldable pub stage_file : JsonFile V → Command V (Staged V)
  stage_file (target, json) = do
    operate no_change
    operate no_change
    content ← lift json
    operate no_change
    operate no_change
    give (record {
      target = target;
      content = content;
      tmp = true;
      backup = none;
      installed = false;
    })

  -- The deferred removal of the temporary files.
  unfoldable pub remove_temps : List (Staged V) → Command V (Unit {0})
  remove_temps [] = give tt
  remove_temps (s ∷ ss) =
      (if s.tmp then attempt (operate no_change) else give tt) >> remove_temps ss

  -- The first loop of `writeJSONBatchAtomic`.
  unfoldable pub stage_all : List (Staged V) → List (JsonFile V) → Command V (List (Staged V))
  stage_all staged [] = give staged
  stage_all staged (f ∷ fs) = do
    s ← on_failure (remove_temps staged) (stage_file f)
    stage_all (staged ++ s ∷ []) fs

  -- A file in the loop of `rollback`.
  unfoldable pub take_back : Staged V → Command V (Unit {0})
  take_back s = do
    if s.installed then attempt (operate (drop_document s.target)) else give tt
    elim s.backup [ none ↦ give tt | some v ↦ attempt (operate (put_document s.target v)) ]
    if s.tmp then attempt (operate no_change) else give tt

  -- `rollback`, from the last file to the first.
  unfoldable pub rollback : List (Staged V) → Command V (Unit {0})
  rollback [] = give tt
  rollback (s ∷ ss) = rollback ss >> take_back s

  -- The rollback and then the deferred removal of the temporary files.
  unfoldable pub undo : List (Staged V) → Command V (Unit {0})
  undo staged = rollback staged >> remove_temps staged

  -- `moveExistingAside`: what was there, if anything was.
  unfoldable pub move_existing_aside : Target → Command V (Option V)
  move_existing_aside t = do
    operate no_change
    found ← observe (λ d. lookup t d.documents)
    elim found [
      | none ↦ give none
      | some v ↦
          operate no_change
          >> operate no_change
          >> attempt (operate no_change)
          >> operate (drop_document t)
          >> give (some v)
    ]

  -- `os.Rename(tmp, path)`
  unfoldable pub move_in : Staged V → Command V (Unit {0})
  move_in s = operate (put_document s.target s.content) >> attempt (operate no_change)

  abbrev pub set_backup : Option V → Staged V → Staged V
  set_backup backup s = record s { backup = backup }

  abbrev pub set_installed : Staged V → Staged V
  set_installed s = record s { tmp = false; installed = true }

  -- The second loop of `writeJSONBatchAtomic`, with the files before it.
  unfoldable pub install_all : List (Staged V) → List (Staged V) → Command V (List (Staged V))
  install_all moved [] = give moved
  install_all moved (s ∷ ss) = do
    backup ← on_failure (undo (moved ++ s ∷ ss)) (move_existing_aside s.target)
    on_failure (undo (moved ++ set_backup backup s ∷ ss)) (move_in s)
    install_all (moved ++ set_installed (set_backup backup s) ∷ []) ss

  unfoldable pub write_batch : TxId → List (JsonFile V) → Command V (List (Staged V))
  write_batch id files = do
    staged ← stage_all [] files
    on_failure (undo staged) (write_manifest id applying (targets_of files))
    moved ← install_all [] staged
    on_failure (undo moved) (write_manifest id committed_phase (targets_of files))
    give moved

  -- `cleanup`
  unfoldable pub cleanup : List (Staged V) → Command V (Unit {0})
  cleanup [] = give tt
  cleanup (s ∷ ss) = do
    elim s.backup [ none ↦ give tt | some _ ↦ attempt (operate no_change) ]
    if s.tmp then attempt (operate no_change) else give tt
    cleanup ss
