-- ===== src/Store/Atomic/Writing/Batch.antt =====
-- `writeJSONBatchAtomic` of core/store/json.go, when every call works until the process ends.
use web4_v.Base.{
  ◌≡◌, refl, sym, ◌∙◌, ap, Bool, true, false, inl, inr, List, [], ◌∷◌, ◌++◌, some, ok, nat_eq,
  if◌then◌else◌,
}
use web4_v.Base.Dict.{lookup, has, lookup-insert_self}
use web4_v.Model.Types.{TxId}
use web4_v.Store.{
  target_eq, applying, committed_phase, Manifest, Disk, JsonFile, targets_of, has_trade_file,
}
use web4_v.Store.Commands.{give, operate, no_change, attempt}
use web4_v.Store.Commands.Holds.{
  Holds, Holds-bind, Holds-then, Holds-fact, Holds-give, Holds-lift, Holds-attempt,
  Holds-on_failure, Holds-never,
}
use web4_v.Store.Files.{Staged, put_manifest, stage_file, remove_temps, stage_all, write_batch}
use web4_v.Store.Atomic.{IsSteady, written_by, IsOld, IsWritten, IsOpen, IsSafe}
use web4_v.Store.Atomic.Writing.{change, manifest-Holds}
use web4_v.Store.Atomic.Writing.Install.{
  any_true, jsons, jsons-append, append_nil, append_one, IsMoving, install_all-Holds,
}

module _ {V : Type 0} (old : Disk V) (id : TxId) (files : List (JsonFile V)) where
  -- Nothing is written yet, and nothing says that it is.
  abbrev pub IsFresh : Disk V → Type 0
  IsFresh d = IsOld old d × IsOpen id d

  fresh-IsSafe : (d : Disk V) → IsFresh d → IsSafe old id files d
  fresh-IsSafe d p = inl p.0

  IsFresh-kept : (d : Disk V) → IsFresh d → IsFresh d
  IsFresh-kept d p = p

  stage_file-Holds :
      (f : JsonFile V)
      → Holds IsSteady
          (IsSafe old id files)
          IsFresh
          IsFresh
          (λ s d. IsFresh d × (jsons (s ∷ []) ≡ f ∷ []))
          (stage_file f)
  unfolding stage_file
  stage_file-Holds (t, json) =
      Holds-then {R = IsFresh} (change no_change fresh-IsSafe IsFresh-kept) (
        Holds-then {R = IsFresh} (change no_change fresh-IsSafe IsFresh-kept) (
          Holds-bind {R = λ v d. IsFresh d × (json ≡ ok v)}
            (Holds-lift json (λ v e d p. (p, e)) IsFresh-kept)
            (λ v.
              Holds-then {R = λ d. IsFresh d × (json ≡ ok v)}
                (change no_change (λ d p. fresh-IsSafe d p.0) (λ d p. p))
                (Holds-then {R = λ d. IsFresh d × (json ≡ ok v)}
                  (change no_change (λ d p. fresh-IsSafe d p.0) (λ d p. p))
                  (Holds-give _ (λ d p. (p.0, ap (λ r. (t, r) ∷ []) (sym p.1))))))))

  remove_temps-Holds :
      (ss : List (Staged V))
      → Holds IsSteady (IsSafe old id files) IsFresh IsFresh (λ _. IsFresh) (remove_temps ss)
  unfolding remove_temps
  remove_temps-Holds [] = Holds-give tt IsFresh-kept
  remove_temps-Holds (s ∷ ss) = Holds-then {R = IsFresh} (one s.tmp) (remove_temps-Holds ss)
    where
      one :
          (b : Bool)
          → Holds IsSteady
              (IsSafe old id files)
              IsFresh
              IsFresh
              (λ _. IsFresh)
              (if b then attempt (operate no_change) else give tt)
      one true = Holds-attempt no_change fresh-IsSafe IsFresh-kept
      one false = Holds-give tt IsFresh-kept

  stage_all-Holds :
      (staged : List (Staged V)) (fs : List (JsonFile V))
      → jsons staged ++ fs ≡ files
      → Holds IsSteady
          (IsSafe old id files)
          IsFresh
          IsFresh
          (λ r d. IsFresh d × (jsons r ≡ files))
          (stage_all staged fs)
  unfolding stage_all
  stage_all-Holds staged [] e = Holds-give staged (λ d p. (p, sym (append_nil (jsons staged)) ∙ e))
  stage_all-Holds staged (f ∷ fs) e =
      Holds-bind {R = λ s d. IsFresh d × (jsons (s ∷ []) ≡ f ∷ [])}
        (Holds-on_failure {G = IsFresh} (stage_file-Holds f) (remove_temps-Holds staged))
        (λ s. Holds-fact (λ same. stage_all-Holds (staged ++ s ∷ []) fs (
          ap (λ z. z ++ fs) (jsons-append staged (s ∷ []))
          ∙ ap (λ z. (jsons staged ++ z) ++ fs) same
          ∙ append_one (jsons staged) f fs
          ∙ e)))

  -- The documents are written, and the manifest is there.
  abbrev pub IsStored : Disk V → Type 0
  IsStored d = IsWritten old files d × (has id d.manifests ≡ true) × IsOpen id d

  pub stored-IsSafe : (d : Disk V) → IsStored d → IsSafe old id files d
  unfolding has_trade_file
  stored-IsSafe d p = inr (
      inr (
        p.0,
        rw (has, p.1) (any_true (has id d.executed) (has id d.committed) (has id d.reserved)),
      ))

  put_manifest-there :
      (m : Manifest) (d : Disk V) → lookup id (put_manifest m id d).manifests ≡ some (some m)
  put_manifest-there m d = lookup-insert_self id (some m) d.manifests

  IsOpen-kept : (m : Manifest) (d : Disk V) → IsOpen id d → IsOpen id (put_manifest m id d)
  IsOpen-kept m d p = record { not_executed = p.not_executed; not_committed = p.not_committed }

  pub write_batch-Holds :
      Holds IsSteady (IsSafe old id files) IsFresh IsFresh (λ _. IsStored) (write_batch id files)
  unfolding write_batch
  write_batch-Holds = Holds-bind (stage_all-Holds [] files refl) (λ staged. Holds-fact (λ same.
      Holds-then {R = IsMoving old id files old.documents}
        (Holds-on_failure {G = λ _. ⊥}
          (manifest-Holds id applying (targets_of files) fresh-IsSafe (λ d p. (
            record {
              is_open = IsOpen-kept _ d p.1;
              manifest = _;
              there = put_manifest-there _ d;
              in_phase = refl;
            },
            record { same = p.0.same },
          )))
          Holds-never)
        (Holds-bind {R = λ r. IsMoving old id files (written_by files old.documents)}
          (install_all-Holds old id files [] staged same)
          (λ moved.
            Holds-then {R = IsStored}
              (Holds-on_failure {G = λ _. ⊥}
                (manifest-Holds id committed_phase (targets_of files) (λ d p. inr (inl p.0))
                  (λ d p. (
                    record { same = p.1.same },
                    rw (has, put_manifest-there _ d) refl,
                    IsOpen-kept _ d p.0.is_open,
                  )))
                Holds-never)
              (Holds-give moved (λ d p. p))))))
