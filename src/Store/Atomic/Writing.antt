-- ===== src/Store/Atomic/Writing.antt =====
-- `PersistExecutedTrade` of core/store/json.go, when every call works until the process ends: wherever
-- that is, the disk is in a state that the recovery can tell.
pub mod Install
pub mod Batch
pub mod Unseen
pub mod Trade
use web4_v.Base.{
  ℕ, ◌≡◌, ◌≢◌, refl, sym, ◌∙◌, ap, Bool, true, false, ◌||◌, ◌==◌, ◌⊎◌, inl, inr, List, [], ◌∷◌,
  ◌++◌, Option, none, some, Option-cases, Bool-cases, Result, ok, err, Error, nat_eq, if◌then◌else◌,
  arith,
}
use mathlib.Core.Path.{subst}
use web4_v.Base.Dict.{
  Dict, lookup, has, insert, erase, lookup-insert, lookup-insert_self, lookup-insert_ne,
  lookup-erase_ne,
}
use web4_v.Model.Types.{TxId}
use web4_v.Store.{
  Target, target_eq, Phase, preparing, applying, committed_phase, Manifest, Disk, has_trade_file,
  JsonFile, targets_of,
}
use web4_v.Store.Commands.{
  Event, works, fails, crashes, Command, ◌>>=◌, ◌>>◌, give, lift, operate, no_change, attempt,
  on_failure, deferred,
}
use web4_v.Store.Commands.Holds.{
  Holds, Holds-bind, Holds-then, Holds-give, Holds-error, Holds-lift, Holds-operate, Holds-attempt,
  Holds-weaken, Holds-on_failure, Holds-deferred, Holds-never,
}
use web4_v.Store.Commands.Holds.Calls.{Holds-open_exclusive}
use web4_v.Store.Files.{
  Staged, put_executed, drop_executed, put_committed, drop_committed, put_reserved, drop_reserved,
  put_manifest, drop_manifest, put_document, drop_document, fill_record, create_exclusive,
  write_executed_marker, write_commit_record, reserve_executed_trade, write_manifest, stage_file,
  remove_temps, stage_all, undo, rollback, move_existing_aside, move_in, set_backup, set_installed,
  install_all, write_batch, cleanup,
}
use web4_v.Store.Persist.{finish_batch, persist_reserved, persist_executed_trade}
use web4_v.Store.Atomic.{
  SameDocuments, written_by, IsOld, IsWritten, IsOpen, IsBlocked, IsNew, IsSafe, IsSteady,
}

module _ {V : Type 0} {J F : Disk V → Type 0} where
  pub change :
      {P Q : Disk V → Type 0} (f : Disk V → Disk V)
      → ((d : Disk V) → P d → J d)
      → ((d : Disk V) → P d → Q (f d))
      → Holds IsSteady J P F (λ _. Q) (operate f)
  change f j q = Holds-operate f j q (λ never d p. absurd never)

  -- A file that is created where none is.
  pub create-Holds :
      {P Q : Disk V → Type 0} (there : Disk V → Bool) (put drop : Disk V → Disk V) (why : Error)
      → ((d : Disk V) → P d → there d ≡ false)
      → ((d : Disk V) → P d → J d)
      → ((d : Disk V) → P d → Q (put d))
      → ((d : Disk V) → Q d → J d)
      → Holds IsSteady J P F (λ _. Q) (create_exclusive there put drop why)
  unfolding create_exclusive fill_record
  create-Holds {P} {Q} there put drop why absent before after safe =
      Holds-then {R = P} (change no_change before (λ d p. p)) (
        Holds-then {R = Q}
          (Holds-open_exclusive there put why before (λ d p e. absurd (let a = absent d p in cc))
            (λ d p _. after d p) (λ never d p. absurd never))
          (Holds-then {R = Q}
            (Holds-on_failure {G = λ _. ⊥}
              (Holds-operate no_change safe (λ d' q. q) (λ never d' q. never)) Holds-never)
            (Holds-attempt no_change safe (λ d' q. q))))

  -- A manifest that is written: what was known before goes through the two calls before it.
  pub manifest-Holds :
      {P Q : Disk V → Type 0} (id : TxId) (phase : Phase) (targets : List Target)
      → ((d : Disk V) → P d → J d)
      → ((d : Disk V)
          → P d
          → Q (put_manifest (record { id = id; phase = phase; targets = targets }) id d))
      → Holds IsSteady J P F (λ _. Q) (write_manifest id phase targets)
  unfolding write_manifest
  manifest-Holds {P} {Q} id phase targets safe after =
      Holds-then {R = P} (change no_change safe (λ d p. p))
        (Holds-then {R = P} (change no_change safe (λ d p. p)) (change _ safe after))
