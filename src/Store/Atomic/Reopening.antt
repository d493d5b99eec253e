-- ===== src/Store/Atomic/Reopening.antt =====
-- What the recovery of core/store/json.go leaves as it is, when every call works until the process
-- ends.
pub mod Evidence
pub mod Loop
use web4_v.Base.{
  ℕ, ◌≡◌, ◌≢◌, refl, sym, ◌∙◌, ap, Bool, true, false, ◌&&◌, ◌||◌, List, [], ◌∷◌, Option, none, some,
  Result, ok, err, Error, nat_eq, if◌then◌else◌, trade_replay,
}
use web4_v.Base.Dict.{Dict, lookup, has, lookup-insert_ne, lookup-erase_ne}
use web4_v.Model.Types.{TxId}
use web4_v.Crypto.{Primitives}
use web4_v.Store.{
  Target, target_eq, Phase, preparing, applying, committed_phase, other_phase, Manifest, Disk,
}
use web4_v.Store.Commands.{
  Event, Command, ◌>>=◌, ◌>>◌, give, lift, observe, exists, operate, no_change, attempt, on_failure,
}
use web4_v.Store.Commands.Holds.{
  Holds, Holds-bind, Holds-then, Holds-give, Holds-error, Holds-lift, Holds-after, Holds-operate,
  Holds-attempt, Holds-weaken, Holds-on_failure,
}
use web4_v.Store.Commands.Holds.Calls.{Holds-observe, Holds-exists, Holds-open_exclusive}
use web4_v.Store.Files.{
  put_executed, drop_executed, drop_committed, drop_reserved, drop_manifest, fill_record,
  create_exclusive, write_executed_marker,
}
use web4_v.Store.Recovery.{
  Reader, readable, judge_target, validate_target, verify_targets, read_manifest, verify_manifest,
  is_committed, clear_artifacts, complete_trade, judge_phase, recover_manifest, recover_trade,
  recover_all, new_json_store,
}
use web4_v.Store.Atomic.{SameDocuments, IsSteady}

-- However a command ends, where every call works until the process ends, `P` still holds.
abbrev pub Keeps : {V A : Type 0} → (Disk V → Type 0) → Command V A → Type 0
Keeps P command = Holds IsSteady P P P (λ _. P) command

-- What the recovery of a trade does to the disk leaves `P` as it is.
pub record IsStable {V : Type 0} (P : Disk V → Type 0) (id : TxId) : Type 0 where
  pub marking : (d : Disk V) → P d → P (put_executed id d)
  pub unmarking : (d : Disk V) → P d → P (drop_executed id d)
  pub uncommitting : (d : Disk V) → P d → P (drop_committed id d)
  pub unreserving : (d : Disk V) → P d → P (drop_reserved id d)
  pub clearing : (d : Disk V) → P d → P (drop_manifest id d)

module _ {V : Type 0} {P : Disk V → Type 0} where
  pub operate-Keeps : (f : Disk V → Disk V) → ((d : Disk V) → P d → P (f d)) → Keeps P (operate f)
  operate-Keeps f k = Holds-operate f (λ d p. p) k (λ _ d p. p)

  attempt-Keeps :
      (f : Disk V → Disk V) → ((d : Disk V) → P d → P (f d)) → Keeps P (attempt (operate f))
  attempt-Keeps f k = Holds-attempt f (λ d p. p) k

  pub clear_artifacts-Keeps : (id : TxId) → IsStable P id → Keeps P (clear_artifacts id)
  unfolding clear_artifacts
  clear_artifacts-Keeps id s = Holds-then (attempt-Keeps (drop_committed id) s.uncommitting) (
      Holds-then (attempt-Keeps (drop_reserved id) s.unreserving)
        (attempt-Keeps (drop_manifest id) s.clearing))

  write_executed_marker-Keeps : (id : TxId) → IsStable P id → Keeps P (write_executed_marker id)
  unfolding write_executed_marker create_exclusive fill_record
  write_executed_marker-Keeps id s = Holds-then (operate-Keeps no_change (λ d p. p)) (
      Holds-then
        (Holds-open_exclusive (λ d. has id d.executed) (put_executed id) trade_replay (λ d p. p)
          (λ d p _. p) (λ d p _. s.marking d p) (λ _ d p. p))
        (Holds-then
          (Holds-on_failure (operate-Keeps no_change (λ d p. p))
            (attempt-Keeps (drop_executed id) s.unmarking))
          (attempt-Keeps no_change (λ d p. p))))

-- What is only read leaves everything as it is.
module _ {V : Type 0} {J P B : Disk V → Type 0} (safe : (d : Disk V) → P d → J d)
    (bad : (d : Disk V) → P d → B d) where
  abbrev Reads : {A : Type 0} → Command V A → Type 0
  Reads command = Holds IsSteady J P B (λ _. P) command

  lift-Reads : {A : Type 0} (r : Result A) → Reads (lift r)
  lift-Reads r = Holds-lift r (λ _ _ d p. p) bad

  observe-Reads : {A : Type 0} (f : Disk V → A) → Reads (observe f)
  observe-Reads f = Holds-after (λ _ d p. p.0) (Holds-observe f safe (λ _. bad))

  pub exists-Reads : (f : Disk V → Bool) → Reads (exists f)
  exists-Reads f = Holds-after (λ _ d p. p.0) (Holds-exists f (λ never. never) safe)

  pub read_manifest-Reads : (id : TxId) → Reads (read_manifest id)
  unfolding read_manifest
  read_manifest-Reads id = Holds-bind (exists-Reads (λ d. has id d.manifests)) found
    where
      found :
          (b : Bool)
          → Reads (
              if b
              then (observe (λ d. lookup id d.manifests) >>= λ m. lift (readable m))
              else give none)
      found true =
          Holds-bind (observe-Reads (λ d. lookup id d.manifests)) (λ m. lift-Reads (readable m))
      found false = Holds-give none (λ d p. p)

  module _ {F : Type 0} (c : Primitives) (read : Reader F V) (id : TxId) where
    validate_target-Reads : (t : Target) → Reads (validate_target c read id t)
    unfolding validate_target
    validate_target-Reads t = Holds-then (lift-Reads _) (
        Holds-bind (observe-Reads (λ d. lookup t d.documents))
          (λ o. lift-Reads (judge_target c read id t o)))

    verify_targets-Reads : (ts : List Target) → Reads (verify_targets c read id ts)
    unfolding verify_targets
    verify_targets-Reads [] = Holds-give tt (λ d p. p)
    verify_targets-Reads (t ∷ ts) = Holds-bind (exists-Reads (λ d. has t d.documents)) (λ b.
        Holds-then (lift-Reads _) (Holds-then (validate_target-Reads t) (verify_targets-Reads ts)))

    pub verify_manifest-Reads : (m : Manifest) → Reads (verify_manifest c read id m)
    unfolding verify_manifest
    verify_manifest-Reads m =
        Holds-then (lift-Reads _)
          (Holds-then (lift-Reads _) (Holds-then (verify_targets-Reads m.targets) (lift-Reads _)))

module _ {V F : Type 0} {P : Disk V → Type 0} (c : Primitives) (read : Reader F V) (id : TxId)
    (s : IsStable P id) where
  complete_trade-Keeps : (m : Manifest) → Keeps P (complete_trade c read id m)
  unfolding complete_trade
  complete_trade-Keeps m =
      Holds-then (verify_manifest-Reads (λ d p. p) (λ d p. p) c read id m)
        (Holds-then (write_executed_marker-Keeps id s) (clear_artifacts-Keeps id s))

  judge_phase-Keeps : (phase : Phase) → Keeps P (judge_phase phase)
  unfolding judge_phase
  judge_phase-Keeps preparing = Holds-give tt (λ d p. p)
  judge_phase-Keeps applying = Holds-error _ (λ d p. p)
  judge_phase-Keeps committed_phase = Holds-error _ (λ d p. p)
  judge_phase-Keeps other_phase = Holds-error _ (λ d p. p)

  recover_manifest-Keeps :
      (m : Option Manifest) (b : Bool) → Keeps P (recover_manifest c read id m b)
  unfolding recover_manifest
  recover_manifest-Keeps none true = Holds-error _ (λ d p. p)
  recover_manifest-Keeps none false = Holds-give tt (λ d p. p)
  recover_manifest-Keeps (some m) b = either (b || is_committed m.phase)
    where
      either : (y : Bool) → Keeps P (if y then complete_trade c read id m else judge_phase m.phase)
      either true = complete_trade-Keeps m
      either false = judge_phase-Keeps m.phase

  pub recover_trade-Keeps : Keeps P (recover_trade c read id)
  unfolding recover_trade
  recover_trade-Keeps =
      Holds-bind (exists-Reads (λ d p. p) (λ d p. p) (λ d. has id d.executed)) either
    where
      either :
          (b : Bool)
          → Keeps P (
              if b then clear_artifacts id else do
                m ← read_manifest id
                committed ← exists (λ d. has id d.committed)
                recover_manifest c read id m committed)
      either true = clear_artifacts-Keeps id s
      either false = Holds-bind (read_manifest-Reads (λ d p. p) (λ d p. p) id) (λ m.
          Holds-bind (exists-Reads (λ d p. p) (λ d p. p) (λ d. has id d.committed))
            (λ b. recover_manifest-Keeps m b))
