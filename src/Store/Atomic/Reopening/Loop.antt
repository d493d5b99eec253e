-- ===== src/Store/Atomic/Reopening/Loop.antt =====
-- The whole of `NewJSONStore` of core/store/json.go, when every call works until the process ends.
use web4_v.Base.{
  ℕ, Bool, Option, none, some, ok, ok-inj, ◌∙◌, ◌≡◌, ◌≢◌, refl, sym, true, false, ◌||◌, ◌==◌,
  ==_iff, List, [], ◌∷◌, nat_eq, if◌then◌else◌, Bool-cases, ◌⊎◌, inl, inr, arith,
  incomplete_transaction,
}
use mathlib.Core.Path.{subst}
use web4_v.Base.Dict.{Dict, lookup, has}
use web4_v.Model.Types.{TxId}
use web4_v.Crypto.{Primitives}
use web4_v.Store.{
  Target, target_eq, Phase, preparing, applying, committed_phase, other_phase, Manifest, Disk,
}
use web4_v.Store.Commands.{Command, exists, ◌>>=◌, ◌>>◌, no_change}
use web4_v.Store.Commands.Holds.{
  Holds, Holds-then, Holds-give, Holds-error, Holds-bind, Holds-lift, Holds-fact, Holds-never,
  Holds-after,
}
use web4_v.Store.Commands.Holds.Calls.{Holds-exists, Holds-observe}
use web4_v.Store.Recovery.{
  Reader, readable, read_manifest, complete_trade, is_committed, judge_phase, recover_manifest,
  recover_trade, recover_all, new_json_store,
}
use web4_v.Store.Atomic.{SameDocuments, IsBlocked, IsSteady}
use web4_v.Store.Atomic.Reopening.{Keeps, recover_trade-Keeps, operate-Keeps}
use web4_v.Store.Atomic.Reopening.Evidence.{
  CountsAsExecuted, lists, documents-IsStable, executed-IsStable, IsBlocked-IsStable,
  recover_trade-counts,
}

different : (a b : ℕ) → (a == b) ≡ false → a ≢ b
different a b h e = ground (arith, ==_iff a b)

module _ {F V : Type 0} (c : Primitives) (read : Reader F V) where
  -- What every round keeps, the loop keeps, and with it the opening of a store.
  loop-Keeps :
      {P : Disk V → Type 0} (ids : List TxId)
      → ((id : TxId) → Keeps P (recover_trade c read id))
      → Keeps P (recover_all c read ids)
  unfolding recover_all
  loop-Keeps [] k = Holds-give tt (λ d p. p)
  loop-Keeps (id ∷ ids) k = Holds-then (k id) (loop-Keeps ids k)

  -- The directories are made and listed first.
  opened :
      {P : Disk V → Type 0} {Q : Disk V → Type 0} (ids : List TxId)
      → Holds IsSteady P P P (λ _. Q) (recover_all c read ids)
      → Holds IsSteady P P P (λ _. Q) (new_json_store c read ids)
  unfolding new_json_store
  opened {P} {Q} ids k = Holds-then (operate-Keeps no_change (λ d p. p)) (
      Holds-then (operate-Keeps no_change (λ d p. p)) (
        Holds-then (operate-Keeps no_change (λ d p. p)) (
          Holds-then (operate-Keeps no_change (λ d p. p))
            (Holds-then (operate-Keeps no_change (λ d p. p)) k))))

  pub new_json_store-documents :
      (docs : Dict Target V) (ids : List TxId)
      → Keeps (λ d. SameDocuments docs d.documents) (new_json_store c read ids)
  new_json_store-documents docs ids =
      opened ids (loop-Keeps ids (λ id. recover_trade-Keeps c read id (documents-IsStable docs id)))

  pub new_json_store-counts :
      (id : TxId) (ids : List TxId) → Keeps (CountsAsExecuted id) (new_json_store c read ids)
  new_json_store-counts id ids = opened ids (loop-Keeps ids (λ j. round j (Bool-cases (j == id))))
    where
      round :
          (j : TxId)
          → ((j == id) ≡ true) ⊎ ((j == id) ≡ false)
          → Keeps (CountsAsExecuted id) (recover_trade c read j)
      round j (inl same) =
          subst (λ k. Keeps (CountsAsExecuted id) (recover_trade c read k))
            (sym ((==_iff j id).0 same)) (recover_trade-counts id c read)
      round j (inr other) =
          recover_trade-Keeps c read j (executed-IsStable j id (different j id other))

  -- A trade that is blocked fails the loop, and nothing is done about it.
  stopped :
      (id : TxId) (m : Manifest) (phase : Phase)
      → phase ≡ applying
      → Holds IsSteady
          (IsBlocked id)
          (IsBlocked id)
          (IsBlocked id)
          (λ _ _. ⊥)
          (if is_committed phase then complete_trade c read id m else judge_phase phase)
  unfolding judge_phase
  stopped id m applying e = Holds-error incomplete_transaction (λ d p. p)
  stopped id m preparing e = absurd (cc)
  stopped id m committed_phase e = absurd (cc)
  stopped id m other_phase e = absurd (cc)

  -- What `readTransactionManifest` finds then.
  abbrev IsApplying : Option Manifest → Type 0
  IsApplying none = ⊥
  IsApplying (some m) = m.phase ≡ applying

  readable-IsApplying :
      (o : Option (Option Manifest)) (m : Manifest) (a : Option Manifest)
      → o ≡ some (some m)
      → m.phase ≡ applying
      → readable o ≡ ok a
      → IsApplying a
  readable-IsApplying o m a there phase e =
      let same : some m ≡ a = ok-inj (some m) a (subst (λ z. readable z ≡ ok a) there e) in
      subst IsApplying same phase

  module _ (id : TxId) where
    abbrev Blocked : {A : Type 0} → (Disk V → Type 0) → (A → Disk V → Type 0) → Command V A → Type 0
    Blocked P Q command = Holds IsSteady (IsBlocked id) P (IsBlocked id) Q command

    -- A file is looked for that a blocked trade has, or has not.
    seen :
        {A : Type 0} {Q : A → Disk V → Type 0} (next : Bool → Command V A) (f : Disk V → Bool)
        (b : Bool)
        → ((d : Disk V) → IsBlocked id d → f d ≡ b)
        → Blocked (IsBlocked id) Q (next b)
        → Blocked (IsBlocked id) Q (exists f >>= next)
    seen {Q = Q} next f b known k =
        Holds-bind
          (Holds-after {R = λ b' d. IsBlocked id d × (b' ≡ b)}
            (λ b' d p. (p.0, sym p.1 ∙ known d p.0)) (Holds-exists f (λ never. never) (λ d p. p)))
          (λ b'. Holds-fact (λ e. subst (λ y. Blocked (IsBlocked id) Q (next y)) (sym e) k))

    read_manifest-IsBlocked :
        Blocked (IsBlocked id) (λ m d. IsBlocked id d × IsApplying m) (read_manifest id)
    unfolding read_manifest
    read_manifest-IsBlocked =
        seen _ (λ d. has id d.manifests) true (λ d b. rw (has, b.there) refl)
          (Holds-bind (Holds-observe (λ d. lookup id d.manifests) (λ d p. p) (λ _ d p. p)) (λ o.
            Holds-lift (readable o)
              (λ m e d p.
                (p.0, readable-IsApplying o p.0.manifest m (sym p.1 ∙ p.0.there) p.0.in_phase e))
              (λ d p. p.0)))

    found-Blocked :
        (m : Option Manifest)
        → IsApplying m
        → Blocked (IsBlocked id) (λ _ _. ⊥) (recover_manifest c read id m false)
    unfolding recover_manifest
    found-Blocked none e = absurd e
    found-Blocked (some m) e = stopped id m m.phase e

    IsBlocked-round : Blocked (IsBlocked id) (λ _ _. ⊥) (recover_trade c read id)
    unfolding recover_trade
    IsBlocked-round =
        seen _ (λ d. has id d.executed) false (λ d b. b.is_open.not_executed)
          (Holds-bind read_manifest-IsBlocked (λ m. Holds-fact (λ e.
            seen _ (λ d. has id d.committed) false (λ d b. b.is_open.not_committed)
              (found-Blocked m e))))

  IsBlocked-loop :
      (id : TxId) (ids : List TxId)
      → Holds IsSteady
          (IsBlocked id)
          (IsBlocked id)
          (IsBlocked id)
          (λ _ d. IsBlocked id d × (lists ids id ≡ false))
          (recover_all c read ids)
  unfolding recover_all
  IsBlocked-loop id [] = Holds-give tt (λ d p. (p, refl))
  IsBlocked-loop id (j ∷ js) = round (IsBlocked-loop id js) (Bool-cases (j == id))
    where
      round :
          Holds IsSteady
            (IsBlocked id)
            (IsBlocked id)
            (IsBlocked id)
            (λ _ d. IsBlocked id d × (lists js id ≡ false))
            (recover_all c read js)
          → ((j == id) ≡ true) ⊎ ((j == id) ≡ false)
          → Holds IsSteady
              (IsBlocked id)
              (IsBlocked id)
              (IsBlocked id)
              (λ _ d. IsBlocked id d × ((j == id || lists js id) ≡ false))
              (recover_trade c read j >> recover_all c read js)
      round rest (inl same) =
          Holds-then {R = λ _. ⊥}
            (subst
              (λ k.
                Holds IsSteady (IsBlocked id) (IsBlocked id) (IsBlocked id) (λ _ _. ⊥)
                  (recover_trade c read k))
              (sym ((==_iff j id).0 same)) (IsBlocked-round id))
            Holds-never
      round rest (inr other) =
          Holds-then {R = IsBlocked id}
            (recover_trade-Keeps c read j (IsBlocked-IsStable j id (different j id other)))
            (Holds-after (λ _ d e. (e.0, rw other e.1)) rest)

  -- An opening that succeeds has not seen a blocked trade.
  pub new_json_store-IsBlocked :
      (id : TxId) (ids : List TxId)
      → Holds IsSteady
          (IsBlocked id)
          (IsBlocked id)
          (IsBlocked id)
          (λ _ d. IsBlocked id d × (lists ids id ≡ false))
          (new_json_store c read ids)
  new_json_store-IsBlocked id ids = opened ids (IsBlocked-loop id ids)
