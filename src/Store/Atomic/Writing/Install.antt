-- ===== src/Store/Atomic/Writing/Install.antt =====
-- The second loop of `writeJSONBatchAtomic` of core/store/json.go, which moves the staged files in, when
-- every call works until the process ends.
use web4_v.Base.{
  ◌≡◌, ◌≢◌, refl, sym, ◌∙◌, ap, Bool, true, ◌||◌, inl, inr, List, [], ◌∷◌, ◌++◌, Option, none, some,
  Bool-cases, ok, nat_eq, arith,
}
use mathlib.Core.Path.{subst}
use web4_v.Base.Dict.{Dict, lookup, insert, lookup-insert, lookup-erase_ne}
use web4_v.Model.Types.{TxId}
use web4_v.Store.{Target, target_eq, target_eqb_iff, Disk, JsonFile}
use web4_v.Store.Commands.{◌>>◌, give, operate, no_change, attempt}
use web4_v.Store.Commands.Holds.{
  Holds, Holds-bind, Holds-then, Holds-give, Holds-attempt, Holds-weaken, Holds-on_failure,
  Holds-never,
}
use web4_v.Store.Commands.Holds.Calls.{Holds-observe}
use web4_v.Store.Files.{
  Staged, put_document, drop_document, move_existing_aside, move_in, set_backup, set_installed,
  install_all,
}
use web4_v.Store.Atomic.{IsSteady, SameDocuments, written_by, IsBlocked, IsSafe}
use web4_v.Store.Atomic.Writing.{change}

pub any_true : (a b c : Bool) → (a || b || c || true) ≡ true
any_true a b c = ground arith

-- The files that were staged, with their JSON.
abbrev pub jsons : {V : Type 0} → List (Staged V) → List (JsonFile V)
jsons [] = []
jsons (s ∷ ss) = (s.target, ok s.content) ∷ jsons ss

module _ {V : Type 0} where
  pub jsons-append : (xs ys : List (Staged V)) → jsons (xs ++ ys) ≡ jsons xs ++ jsons ys
  jsons-append [] ys = refl
  jsons-append (x ∷ xs) ys = ap (λ z. (x.target, ok x.content) ∷ z) (jsons-append xs ys)

pub append_nil : {A : Type 0} (xs : List A) → xs ++ [] ≡ xs
append_nil [] = refl
append_nil (x ∷ xs) = ap (◌∷◌ x) (append_nil xs)

pub append_one :
    {A : Type 0} (xs : List A) (y : A) (zs : List A) → (xs ++ y ∷ []) ++ zs ≡ xs ++ y ∷ zs
append_one [] y zs = refl
append_one (x ∷ xs) y zs = ap (◌∷◌ x) (append_one xs y zs)

module _ {V : Type 0} where
  pub written_by-append :
      (xs : List (Staged V)) (t : Target) (v : V) (docs : Dict Target V)
      → written_by (jsons xs ++ (t, ok v) ∷ []) docs ≡ insert t v (written_by (jsons xs) docs)
  written_by-append [] t v docs = refl
  written_by-append (x ∷ xs) t v docs = written_by-append xs t v (insert x.target x.content docs)

module _ {V : Type 0} (old : Disk V) (id : TxId) (files : List (JsonFile V)) where
  -- The documents are moved in, as the manifest says, up to those of `docs`.
  abbrev pub IsMoving : Dict Target V → Disk V → Type 0
  IsMoving docs d = IsBlocked id d × SameDocuments docs d.documents

  -- The same, but for what stands at a target.
  abbrev IsAround : Target → Dict Target V → Disk V → Type 0
  IsAround t docs d = IsBlocked id d × ((j : Target) → t ≢ j → lookup j d.documents ≡ lookup j docs)

  around-IsSafe :
      (t : Target) (docs : Dict Target V) (d : Disk V) → IsAround t docs d → IsSafe old id files d
  around-IsSafe t docs d p = inr (inl p.0)

  moving-IsAround :
      (t : Target) (docs : Dict Target V) (d : Disk V) → IsMoving docs d → IsAround t docs d
  moving-IsAround t docs d p = (p.0, λ j other. p.1.same j)

  IsAround-kept :
      (t : Target) (docs : Dict Target V) (d : Disk V) → IsAround t docs d → IsAround t docs d
  IsAround-kept t docs d p = p

  block_kept :
      (d : Disk V) (docs : Dict Target V)
      → IsBlocked id d
      → IsBlocked id (record d { documents = docs })
  block_kept d docs b = record {
    is_open = record {
      not_executed = b.is_open.not_executed;
      not_committed = b.is_open.not_committed;
    };
    manifest = b.manifest;
    there = b.there;
    in_phase = b.in_phase;
  }

  dropped-IsAround :
      (t : Target) (docs : Dict Target V) (d : Disk V)
      → IsAround t docs d
      → IsAround t docs (drop_document t d)
  dropped-IsAround t docs d p =
      (block_kept d _ p.0, λ j other. lookup-erase_ne t j d.documents other ∙ p.1 j other)

  move_aside-Holds :
      {F : Disk V → Type 0} (t : Target) (docs : Dict Target V)
      → Holds IsSteady
          (IsSafe old id files)
          (IsMoving docs)
          F
          (λ _. IsAround t docs)
          (move_existing_aside t)
  unfolding move_existing_aside
  move_aside-Holds t docs =
      let safe = around-IsSafe t docs in
      let kept = IsAround-kept t docs in
      Holds-weaken (moving-IsAround t docs) (
        Holds-then {R = IsAround t docs} (change no_change safe kept) (
          Holds-bind (Holds-observe (λ d. lookup t d.documents) safe (λ never d p. absurd never))
            (λ o. Holds-weaken (λ d p. p.0) (found o))))
    where
      found :
          {F : Disk V → Type 0} (o : Option V)
          → Holds IsSteady
              (IsSafe old id files)
              (IsAround t docs)
              F
              (λ (_ : Option V). IsAround t docs)
              (elim o [
                | none ↦ give none
                | some v ↦
                    operate no_change
                    >> operate no_change
                    >> attempt (operate no_change)
                    >> operate (drop_document t)
                    >> give (some v)
              ])
      found none = Holds-give none (IsAround-kept t docs)
      found (some v) =
          Holds-then {R = IsAround t docs}
            (Holds-then {R = IsAround t docs}
              (Holds-then {R = IsAround t docs}
                (Holds-then {R = IsAround t docs}
                  (change no_change (around-IsSafe t docs) (IsAround-kept t docs))
                  (change no_change (around-IsSafe t docs) (IsAround-kept t docs)))
                (Holds-attempt no_change (around-IsSafe t docs) (IsAround-kept t docs)))
              (change (drop_document t) (around-IsSafe t docs) (dropped-IsAround t docs)))
            (Holds-give (some v) (IsAround-kept t docs))

  put-IsMoving :
      (t : Target) (v : V) (docs : Dict Target V) (d : Disk V)
      → IsAround t docs d
      → IsMoving (insert t v docs) (put_document t v d)
  put-IsMoving t v docs d p = (
    block_kept d _ p.0,
    record {
      same = λ j. elim (Bool-cases (target_eq.beq t j)) [
        | inl e ↦ ground (arith, lookup-insert t j v d.documents, lookup-insert t j v docs)
        | inr e ↦ ground (
          arith,
          lookup-insert t j v d.documents,
          lookup-insert t j v docs,
          p.1 j,
          target_eqb_iff t j,
        )
      ];
    },
  )

  move_in-Holds :
      {F : Disk V → Type 0} (s : Staged V) (docs : Dict Target V)
      → Holds IsSteady
          (IsSafe old id files)
          (IsAround s.target docs)
          F
          (λ _. IsMoving (insert s.target s.content docs))
          (move_in s)
  unfolding move_in
  move_in-Holds s docs =
      Holds-then {R = IsMoving (insert s.target s.content docs)}
        (change (put_document s.target s.content) (around-IsSafe s.target docs)
          (put-IsMoving s.target s.content docs))
        (Holds-attempt no_change (λ d p. inr (inl p.0)) (λ d p. p))

  pub install_all-Holds :
      {F : Disk V → Type 0} (moved rest : List (Staged V))
      → jsons moved ++ jsons rest ≡ files
      → Holds IsSteady
          (IsSafe old id files)
          (IsMoving (written_by (jsons moved) old.documents))
          F
          (λ r. IsMoving (written_by files old.documents))
          (install_all moved rest)
  unfolding install_all
  install_all-Holds moved [] e = Holds-give moved (λ d p.
      subst (λ fs. IsMoving (written_by fs old.documents) d) (sym (append_nil (jsons moved)) ∙ e) p)
  install_all-Holds moved (s ∷ ss) e =
      let docs = written_by (jsons moved) old.documents in
      Holds-bind {R = λ (b : Option V). IsAround s.target docs}
        (Holds-on_failure {G = λ _. ⊥} (move_aside-Holds s.target docs) Holds-never)
        (λ b.
          Holds-then {R = IsMoving (insert s.target s.content docs)}
            (Holds-on_failure {G = λ _. ⊥} (move_in-Holds s docs) Holds-never)
            (Holds-weaken
              (λ d.
                subst (λ x. IsMoving x d)
                  (sym (
                    ap (λ fs. written_by fs old.documents) (jsons-append moved _)
                    ∙ written_by-append moved s.target s.content old.documents)))
              (install_all-Holds (moved ++ set_installed (set_backup b s) ∷ []) ss (
                ap (λ z. z ++ jsons ss) (jsons-append moved _)
                ∙ append_one (jsons moved) (s.target, ok s.content) (jsons ss)
                ∙ e))))
