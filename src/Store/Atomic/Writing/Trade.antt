-- ===== src/Store/Atomic/Writing/Trade.antt =====
-- The rest of `PersistExecutedTrade` of core/store/json.go, when every call works until the process
-- ends.
use web4_v.Base.{
  ◌≡◌, refl, ◌∙◌, ap, Bool, true, false, inl, inr, List, [], ◌∷◌, Option, none, some, nat_eq,
  if◌then◌else◌, trade_replay,
}
use web4_v.Base.Dict.{Dict, lookup, has, insert, lookup-insert_self}
use web4_v.Model.Types.{TxId}
use web4_v.Store.{target_eq, preparing, Disk, JsonFile, has_trade_file, targets_of}
use web4_v.Store.Commands.{give, operate, no_change, attempt}
use web4_v.Store.Commands.Holds.{
  Holds, Holds-bind, Holds-then, Holds-give, Holds-fact, Holds-attempt, Holds-weaken,
  Holds-on_failure, Holds-deferred, Holds-never,
}
use web4_v.Store.Files.{
  Staged, put_executed, drop_executed, put_committed, drop_committed, put_reserved, drop_reserved,
  drop_manifest, write_executed_marker, write_commit_record, reserve_executed_trade, cleanup,
}
use web4_v.Store.Persist.{finish_batch, persist_reserved, persist_executed_trade}
use web4_v.Store.Atomic.{IsSteady, IsWritten, IsSafe}
use web4_v.Store.Atomic.Writing.{create-Holds, manifest-Holds}
use web4_v.Store.Atomic.Writing.Install.{any_true}
use web4_v.Store.Atomic.Writing.Unseen.{IsBefore, no_files, has_executed_trade-FindsNone}
use web4_v.Store.Atomic.Writing.Batch.{IsFresh, IsStored, write_batch-Holds, stored-IsSafe}

module _ {V : Type 0} (old : Disk V) (id : TxId) (files : List (JsonFile V)) where
  -- The documents are written, and the trade has its executed file.
  abbrev pub IsFinished : Disk V → Type 0
  IsFinished d = IsWritten old files d × (has id d.executed ≡ true)

  finished-IsSafe : (d : Disk V) → IsFinished d → IsSafe old id files d
  unfolding has_trade_file
  finished-IsSafe d p = inr (inr (p.0, rw p.1 refl))

  IsFinished-kept : (d : Disk V) → IsFinished d → IsFinished d
  IsFinished-kept d p = p

  -- The documents are written, but for the executed file.
  abbrev IsCommitted : Disk V → Type 0
  IsCommitted d = IsWritten old files d × (has id d.manifests ≡ true) × (has id d.executed ≡ false)

  committed-IsSafe : (d : Disk V) → IsCommitted d → IsSafe old id files d
  unfolding has_trade_file
  committed-IsSafe d p =
      inr
        (inr (p.0, rw p.1 (any_true (has id d.executed) (has id d.committed) (has id d.reserved))))

  has-insert : (d : Dict TxId Bool) → has id (insert id true d) ≡ true
  has-insert d = rw (has, lookup-insert_self id true d) refl

  module _ {F : Disk V → Type 0} where
    cleanup-Holds :
        (ss : List (Staged V))
        → Holds IsSteady (IsSafe old id files) IsFinished F (λ _. IsFinished) (cleanup ss)
    unfolding cleanup
    cleanup-Holds [] = Holds-give tt IsFinished-kept
    cleanup-Holds (s ∷ ss) =
        Holds-then {R = IsFinished} (of_backup s.backup)
          (Holds-then {R = IsFinished} (of_tmp s.tmp) (cleanup-Holds ss))
      where
        of_backup :
            (o : Option V)
            → Holds IsSteady
                (IsSafe old id files)
                IsFinished
                F
                (λ _. IsFinished)
                (elim o [ none ↦ give tt | some _ ↦ attempt (operate no_change) ])
        of_backup none = Holds-give tt IsFinished-kept
        of_backup (some v) = Holds-attempt no_change finished-IsSafe IsFinished-kept

        of_tmp :
            (b : Bool)
            → Holds IsSteady
                (IsSafe old id files)
                IsFinished
                F
                (λ _. IsFinished)
                (if b then attempt (operate no_change) else give tt)
        of_tmp true = Holds-attempt no_change finished-IsSafe IsFinished-kept
        of_tmp false = Holds-give tt IsFinished-kept

    finish_batch-Holds :
        (batch : List (Staged V))
        → Holds IsSteady
            (IsSafe old id files)
            (IsStored old id files)
            F
            (λ _. IsFinished)
            (finish_batch id batch)
    unfolding finish_batch write_commit_record write_executed_marker
    finish_batch-Holds batch =
        Holds-then {R = IsCommitted}
          (Holds-on_failure {G = λ _. ⊥}
            (create-Holds (λ d. has id d.committed) (put_committed id) (drop_committed id)
              trade_replay (λ d p. p.2.not_committed) (stored-IsSafe old id files)
              (λ d p. (record { same = p.0.same }, p.1, p.2.not_executed)) committed-IsSafe)
            Holds-never)
          (Holds-then {R = IsFinished}
            (create-Holds (λ d. has id d.executed) (put_executed id) (drop_executed id) trade_replay
              (λ d p. p.2) committed-IsSafe
              (λ d p. (record { same = p.0.same }, has-insert d.executed)) finished-IsSafe)
            (Holds-then {R = IsFinished} (cleanup-Holds batch) (
              Holds-then {R = IsFinished}
                (Holds-attempt (drop_committed id) finished-IsSafe
                  (λ d p. (record { same = p.0.same }, p.1)))
                (Holds-attempt (drop_manifest id) finished-IsSafe
                  (λ d p. (record { same = p.0.same }, p.1))))))

  IsFresh-with :
      (d e : Disk V)
      → e.documents ≡ d.documents
      → e.executed ≡ d.executed
      → e.committed ≡ d.committed
      → IsFresh old id files d
      → IsFresh old id files e
  IsFresh-with d e docs executed committed p = (
    record { same = λ t. ap (lookup t) docs ∙ p.0.same t },
    record {
      not_executed = ap (has id) executed ∙ p.1.not_executed;
      not_committed = ap (has id) committed ∙ p.1.not_committed;
    },
  )

  fresh-IsSafe : (d : Disk V) → IsFresh old id files d → IsSafe old id files d
  fresh-IsSafe d p = inl p.0

  persist_reserved-Holds :
      Holds IsSteady
        (IsSafe old id files)
        (IsFresh old id files)
        (IsFresh old id files)
        (λ _. IsFinished)
        (persist_reserved id files)
  unfolding persist_reserved
  persist_reserved-Holds =
      Holds-then {R = IsFresh old id files}
        (manifest-Holds id preparing (targets_of files) fresh-IsSafe
          (λ d p. IsFresh-with d _ refl refl refl p))
        (Holds-on_failure {G = IsFresh old id files}
          (Holds-bind {R = λ _. IsStored old id files} (write_batch-Holds old id files)
            (λ batch. finish_batch-Holds batch))
          (Holds-attempt (drop_manifest id) fresh-IsSafe
            (λ d p. IsFresh-with d _ refl refl refl p)))

  -- Fresh, and not reserved either.
  abbrev IsUnreserved : Disk V → Type 0
  IsUnreserved d = IsFresh old id files d × (has id d.reserved ≡ false)

  before-IsUnreserved : (d : Disk V) → (IsBefore old id files) d → IsUnreserved d
  before-IsUnreserved d p =
      let (executed, committed, reserved, _) = no_files old id files d p in
      (
        (
          record { same = λ t. ap (λ e. lookup t e.documents) p.0 },
          record { not_executed = executed; not_committed = committed },
        ),
        reserved,
      )

  pub persist_executed_trade-Holds :
      Holds IsSteady
        (IsSafe old id files)
        (IsBefore old id files)
        (IsFresh old id files)
        (λ _. IsFinished)
        (persist_executed_trade id files)
  unfolding persist_executed_trade reserve_executed_trade
  persist_executed_trade-Holds = Holds-bind (has_executed_trade-FindsNone old id files) (λ seen.
      Holds-fact (λ none. rw none (
        Holds-weaken before-IsUnreserved (
          Holds-then {R = IsFresh old id files}
            (create-Holds (λ e. has id e.reserved) (put_reserved id) (drop_reserved id) _
              (λ e q. q.1) (λ e q. fresh-IsSafe e q.0) (λ e q. IsFresh-with e _ refl refl refl q.0)
              fresh-IsSafe)
            (Holds-deferred persist_reserved-Holds
              (Holds-attempt (drop_reserved id) fresh-IsSafe
                (λ e q. IsFresh-with e _ refl refl refl q))
              (Holds-attempt (drop_reserved id) finished-IsSafe
                (λ e q. (record { same = q.0.same }, q.1))))))))
