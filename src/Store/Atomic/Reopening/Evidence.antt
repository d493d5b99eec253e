-- ===== src/Store/Atomic/Reopening/Evidence.antt =====
-- What the recovery of core/store/json.go does to the files of one trade, when every call works until the process
-- ends: that a
-- trade counts as executed stays so, and a trade whose documents were being moved in stops it.
use web4_v.Base.{
  ◌≡◌, ◌≢◌, refl, ◌∙◌, Bool, true, false, ◌||◌, ◌==◌, List, [], ◌∷◌, Option, none, some, nat_eq,
  if◌then◌else◌, trade_replay, arith,
}
use web4_v.Base.Dict.{
  Dict, lookup, has, insert, erase, lookup-insert_ne, lookup-erase_ne, lookup-insert_self,
}
use web4_v.Model.Types.{TxId}
use web4_v.Crypto.{Primitives}
use web4_v.Store.{
  Target, target_eq, Phase, preparing, applying, committed_phase, other_phase, Manifest, Disk,
  has_trade_file,
}
use web4_v.Store.Commands.{Command, ◌>>=◌, exists, no_change}
use web4_v.Store.Commands.Holds.{
  Holds, Holds-then, Holds-give, Holds-error, Holds-bind, Holds-operate, Holds-attempt,
  Holds-weaken, Holds-on_failure, Holds-after,
}
use web4_v.Store.Commands.Holds.Calls.{Holds-exists, Holds-open_exclusive}
use web4_v.Store.Files.{
  put_executed, drop_executed, drop_committed, drop_reserved, drop_manifest, fill_record,
  create_exclusive, write_executed_marker,
}
use web4_v.Store.Recovery.{
  Reader, is_committed, clear_artifacts, complete_trade, judge_phase, read_manifest,
  recover_manifest, recover_trade,
}
use web4_v.Store.Atomic.{SameDocuments, IsBlocked, IsSteady}
use web4_v.Store.Atomic.Reopening.{
  Keeps, IsStable, exists-Reads, read_manifest-Reads, verify_manifest-Reads,
}

abbrev pub CountsAsExecuted : {V : Type 0} → TxId → Disk V → Type 0
CountsAsExecuted id d = has_trade_file d id ≡ true

-- Whether `ReadDir` lists a file of the trade.
abbrev pub lists : List TxId → TxId → Bool
lists [] id = false
lists (j ∷ js) id = j == id || lists js id

module _ {A : Type 0} (j id : TxId) (other : j ≢ id) where
  has-insert_ne : (v : A) (d : Dict TxId A) → has id (insert j v d) ≡ has id d
  has-insert_ne v d = rw (has, lookup-insert_ne j id v d other) refl

  has-erase_ne : (d : Dict TxId A) → has id (erase j d) ≡ has id d
  has-erase_ne d = rw (has, lookup-erase_ne j id d other) refl

module _ {V : Type 0} where
  pub documents-IsStable :
      (docs : Dict Target V) (j : TxId) → IsStable (λ d. SameDocuments docs d.documents) j
  documents-IsStable docs j = record {
    marking = λ d p. record { same = p.same };
    unmarking = λ d p. record { same = p.same };
    uncommitting = λ d p. record { same = p.same };
    unreserving = λ d p. record { same = p.same };
    clearing = λ d p. record { same = p.same };
  }

  module _ (j id : TxId) (other : j ≢ id) where
    pub executed-IsStable : IsStable {V = V} (CountsAsExecuted id) j
    unfolding has_trade_file
    executed-IsStable = record {
      marking = λ d p. rw (has-insert_ne j id other true d.executed) p;
      unmarking = λ d p. rw (has-erase_ne j id other d.executed) p;
      uncommitting = λ d p. rw (has-erase_ne j id other d.committed) p;
      unreserving = λ d p. rw (has-erase_ne j id other d.reserved) p;
      clearing = λ d p. rw (has-erase_ne j id other d.manifests) p;
    }

    IsBlocked-by :
        (d e : Disk V)
        → has id e.executed ≡ has id d.executed
        → has id e.committed ≡ has id d.committed
        → lookup id e.manifests ≡ lookup id d.manifests
        → IsBlocked id d
        → IsBlocked id e
    IsBlocked-by d e executed committed manifests b = record {
      is_open = record {
        not_executed = executed ∙ b.is_open.not_executed;
        not_committed = committed ∙ b.is_open.not_committed;
      };
      manifest = b.manifest;
      there = manifests ∙ b.there;
      in_phase = b.in_phase;
    }

    pub IsBlocked-IsStable : IsStable {V = V} (IsBlocked id) j
    IsBlocked-IsStable = record {
      marking = λ d. IsBlocked-by d _ (has-insert_ne j id other true d.executed) refl refl;
      unmarking = λ d. IsBlocked-by d _ (has-erase_ne j id other d.executed) refl refl;
      uncommitting = λ d. IsBlocked-by d _ refl (has-erase_ne j id other d.committed) refl;
      unreserving = λ d. IsBlocked-by d _ refl refl refl;
      clearing = λ d. IsBlocked-by d _ refl refl (lookup-erase_ne j id d.manifests other);
    }

or_rest : (a b c e : Bool) → (b || c || e) ≡ true → (a || b || c || e) ≡ true
or_rest true b c e h = ground arith
or_rest false b c e h = h

or_but_first : (a b c e : Bool) → a ≡ false → (a || b || c || e) ≡ true → (b || c || e) ≡ true
or_but_first true b c e f h = absurd (cc)
or_but_first false b c e f h = h

module _ {V : Type 0} (id : TxId) where
  abbrev Any : {A : Type 0} → (Disk V → Type 0) → (Disk V → Type 0) → Command V A → Type 0
  Any P Q command = Holds IsSteady (CountsAsExecuted id) P (CountsAsExecuted id) (λ _. Q) command

  -- The executed file is there, or one of the others.
  abbrev IsMarked : Disk V → Type 0
  IsMarked d = has id d.executed ≡ true

  abbrev IsNoted : Disk V → Type 0
  IsNoted d = (has id d.committed || has id d.reserved || has id d.manifests) ≡ true

  abbrev IsBoth : Disk V → Type 0
  IsBoth d = IsMarked d × IsNoted d

  marked_counts : (d : Disk V) → IsMarked d → CountsAsExecuted id d
  unfolding has_trade_file
  marked_counts d p = rw p refl

  noted_counts : (d : Disk V) → IsNoted d → CountsAsExecuted id d
  unfolding has_trade_file
  noted_counts d p =
      or_rest (has id d.executed) (has id d.committed) (has id d.reserved) (has id d.manifests) p

  counts-IsNoted : (d : Disk V) → has id d.executed ≡ false → CountsAsExecuted id d → IsNoted d
  unfolding has_trade_file
  counts-IsNoted d e p =
      or_but_first (has id d.executed) (has id d.committed) (has id d.reserved) (has id d.manifests)
        e p

  has-IsMarked : (d : Disk V) → IsMarked (put_executed id d)
  has-IsMarked d = rw (has, lookup-insert_self id true d.executed) refl

  clear_artifacts-counts : Any IsMarked IsMarked (clear_artifacts id)
  unfolding clear_artifacts
  clear_artifacts-counts =
      Holds-then {R = IsMarked} (Holds-attempt (drop_committed id) marked_counts (λ d p. p)) (
        Holds-then {R = IsMarked} (Holds-attempt (drop_reserved id) marked_counts (λ d p. p))
          (Holds-attempt (drop_manifest id) marked_counts (λ d p. p)))

  write_executed_marker-counts : Any IsNoted IsMarked (write_executed_marker id)
  unfolding write_executed_marker create_exclusive fill_record
  write_executed_marker-counts =
      Holds-then {R = IsNoted} (Holds-operate no_change noted_counts (λ d p. p) (λ _. noted_counts))
        (Holds-then {R = IsBoth}
          (Holds-open_exclusive (λ d. has id d.executed) (put_executed id) trade_replay noted_counts
            (λ d p _. noted_counts d p) (λ d p _. (has-IsMarked d, p)) (λ _. noted_counts))
          (Holds-then {R = IsMarked}
            (Holds-on_failure {G = IsBoth}
              (Holds-operate no_change (λ d p. marked_counts d p.0) (λ d p. p.0) (λ _ d p. p))
              (Holds-after {Q = λ _. IsNoted} (λ _. noted_counts)
                (Holds-weaken {P = IsNoted} (λ d p. p.1)
                  (Holds-attempt (drop_executed id) noted_counts (λ d p. p)))))
            (Holds-attempt no_change marked_counts (λ d p. p))))

  module _ {F : Type 0} (c : Primitives) (read : Reader F V) where
    -- However the recovery of the trade itself ends.
    recover_manifest-counts :
        (m : Option Manifest) (b : Bool)
        → Any IsNoted (CountsAsExecuted id) (recover_manifest c read id m b)
    unfolding recover_manifest complete_trade judge_phase
    recover_manifest-counts none true = Holds-error _ noted_counts
    recover_manifest-counts none false = Holds-give tt noted_counts
    recover_manifest-counts (some m) b = either (b || is_committed m.phase) m.phase
      where
        either :
            (y : Bool) (phase : Phase)
            → Any IsNoted
                (CountsAsExecuted id)
                (if y then complete_trade c read id m else judge_phase phase)
        either true phase =
            Holds-then {R = IsNoted} (verify_manifest-Reads noted_counts noted_counts c read id m) (
              Holds-then {R = IsMarked} write_executed_marker-counts
                (Holds-after (λ _. marked_counts) clear_artifacts-counts))
        either false preparing = Holds-give tt noted_counts
        either false applying = Holds-error _ noted_counts
        either false committed_phase = Holds-error _ noted_counts
        either false other_phase = Holds-error _ noted_counts

    pub recover_trade-counts : Keeps (CountsAsExecuted id) (recover_trade c read id)
    unfolding recover_trade
    recover_trade-counts =
        Holds-bind (Holds-exists (λ d. has id d.executed) (λ never. never) (λ d p. p)) split
      where
        split :
            (b : Bool)
            → Any
                (λ d. CountsAsExecuted id d × (has id d.executed ≡ b))
                (CountsAsExecuted id)
                (if b then clear_artifacts id else do
                  m ← read_manifest id
                  committed ← exists (λ d. has id d.committed)
                  recover_manifest c read id m committed)
        split true =
            Holds-weaken {P = IsMarked} (λ d p. p.1)
              (Holds-after (λ _. marked_counts) clear_artifacts-counts)
        split false =
            Holds-weaken {P = IsNoted} (λ d p. counts-IsNoted d p.1 p.0)
              (Holds-bind {R = λ _. IsNoted} (read_manifest-Reads noted_counts noted_counts id)
                (λ m.
                  Holds-bind {R = λ _. IsNoted}
                    (exists-Reads noted_counts noted_counts (λ d. has id d.committed))
                    (λ b. recover_manifest-counts m b)))
