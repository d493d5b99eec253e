-- ===== src/Store/Atomic/Whole.antt =====
-- A trade is written wholly or not at all (core/store/json.go), wherever the process ends, and however
-- often the store is opened after that.
use web4_v.Base.{◌≡◌, refl, true, false, ◌⊎◌, inl, inr, List, [], ◌∷◌, All, nat_eq, trade_replay}
use web4_v.Base.Dict.{has}
use web4_v.Model.Types.{TxId}
use web4_v.Crypto.{Primitives}
use web4_v.Store.{target_eq, Disk, has_trade_file, JsonFile}
use web4_v.Store.Commands.{Event, done, failed, crashed, Run}
use web4_v.Store.Commands.Holds.{Ends}
use web4_v.Store.Persist.{persist_executed_trade}
use web4_v.Store.Recovery.{Reader, new_json_store}
use web4_v.Store.Atomic.{IsOld, IsWritten, IsBlocked, IsNew, IsSafe, IsSteady}
use web4_v.Store.Atomic.Refused.{four_work, counted-refused}
use web4_v.Store.Atomic.Writing.Batch.{IsFresh}
use web4_v.Store.Atomic.Writing.Trade.{IsFinished, persist_executed_trade-Holds}
use web4_v.Store.Atomic.Reopening.{Keeps}
use web4_v.Store.Atomic.Reopening.Evidence.{CountsAsExecuted, lists}
use web4_v.Store.Atomic.Reopening.Loop.{
  new_json_store-documents, new_json_store-counts, new_json_store-IsBlocked,
}

-- An opening of the store: the trades that `ReadDir` lists, and what its calls do.
pub record Opening : Type 0 where
  pub ids : List TxId
  pub events : List Event

-- None of the calls of an opening fails.
abbrev pub IsSteadyOpening : Opening → Type 0
IsSteadyOpening o = All IsSteady o.events

module _ {V : Type 0} where
  ends_kept :
      (E : Event → Type 0) (P : Disk V → Type 0) {A : Type 0} (r : Run V A)
      → Ends E P P (λ _. P) r
      → P r.2
  ends_kept E P (done a, es, d) h = h.1
  ends_kept E P (failed why, es, d) h = h.1
  ends_kept E P (crashed, es, d) h = h

-- The disk that `PersistExecutedTrade` leaves.
abbrev pub persisted :
    {V : Type 0} → Disk V → TxId → List (JsonFile V) → List Event → Run V (Unit {0})
persisted old id files es = persist_executed_trade id files es old

module _ {F V : Type 0} (c : Primitives) (read : Reader F V) where
  abbrev pub open_store : Opening → Disk V → Run V (Unit {0})
  open_store o d = new_json_store c read o.ids o.events d

  -- One opening after the other, whatever comes of each.
  abbrev pub open_stores : List Opening → Disk V → Disk V
  open_stores [] d = d
  open_stores (o ∷ os) d = open_stores os (open_store o d).2

  opening_keeps :
      (P : Disk V → Type 0) (o : Opening) (d : Disk V)
      → IsSteadyOpening o
      → Keeps P (new_json_store c read o.ids)
      → P d
      → P (open_store o d).2
  opening_keeps P o d steady k p = ends_kept IsSteady P (open_store o d) (k.at o.events d steady p)

  IsBlocked-Ends :
      (id : TxId) (ids : List TxId) (r : Run V (Unit {0}))
      → Ends IsSteady
          (IsBlocked id)
          (IsBlocked id)
          (λ _ d. IsBlocked id d × (lists ids id ≡ false))
          r
      → IsBlocked id r.2 × ((u : Unit) → r.0 ≡ done u → lists ids id ≡ false)
  IsBlocked-Ends id ids (done u, es, d) h = (h.1.0, λ _ _. h.1.1)
  IsBlocked-Ends id ids (failed why, es, d) h = (h.1, λ u e. absurd (cc))
  IsBlocked-Ends id ids (crashed, es, d) h = (h, λ u e. absurd (cc))

  module _ (old : Disk V) (id : TxId) (files : List (JsonFile V)) where
    IsOld-kept :
        (o : Opening) (d : Disk V) → IsSteadyOpening o → IsOld old d → IsOld old (open_store o d).2
    IsOld-kept o d steady p =
        opening_keeps (IsOld old) o d steady (new_json_store-documents c read old.documents o.ids) p

    IsNew-kept :
        (o : Opening) (d : Disk V)
        → IsSteadyOpening o
        → IsNew old id files d
        → IsNew old id files (open_store o d).2
    IsNew-kept o d steady (written, counts) = (
      opening_keeps (IsWritten old files) o d steady (new_json_store-documents c read _ o.ids)
          written,
      opening_keeps (CountsAsExecuted id) o d steady (new_json_store-counts c read id o.ids) counts,
    )

    opened-IsNew :
        (os : List Opening) (d : Disk V)
        → All IsSteadyOpening os
        → IsNew old id files d
        → IsNew old id files (open_stores os d)
    opened-IsNew [] d steady p = p
    opened-IsNew (o ∷ os) d steady p =
        opened-IsNew os (open_store o d).2 steady.1 (IsNew-kept o d steady.0 p)

    IsSafe-kept :
        (o : Opening) (d : Disk V)
        → IsSteadyOpening o
        → IsSafe old id files d
        → IsSafe old id files (open_store o d).2
    IsSafe-kept o d steady (inl p) = inl (IsOld-kept o d steady p)
    IsSafe-kept o d steady (inr (inl b)) = inr (
        inl
          (IsBlocked-Ends id o.ids (open_store o d)
            ((new_json_store-IsBlocked c read id o.ids).at o.events d steady b)).0)
    IsSafe-kept o d steady (inr (inr p)) = inr (inr (IsNew-kept o d steady p))

    opened-IsSafe :
        (os : List Opening) (d : Disk V)
        → All IsSteadyOpening os
        → IsSafe old id files d
        → IsSafe old id files (open_stores os d)
    opened-IsSafe [] d steady p = p
    opened-IsSafe (o ∷ os) d steady p =
        opened-IsSafe os (open_store o d).2 steady.1 (IsSafe-kept o d steady.0 p)

    -- Which an opening that succeeds decides.
    opened_safe :
        (o : Opening) (d : Disk V) (u : Unit)
        → IsSteadyOpening o
        → (has id d.manifests ≡ true → lists o.ids id ≡ true)
        → (open_store o d).0 ≡ done u
        → IsSafe old id files d
        → IsOld old (open_store o d).2 ⊎ IsNew old id files (open_store o d).2
    opened_safe o d u steady listed e (inl p) = inl (IsOld-kept o d steady p)
    opened_safe o d u steady listed e (inr (inl b)) =
        let unlisted =
          (IsBlocked-Ends id o.ids (open_store o d)
              ((new_json_store-IsBlocked c read id o.ids).at o.events d steady b)).1
            u e in
        let seen = listed (rw (has, b.there) refl) in absurd (cc)
    opened_safe o d u steady listed e (inr (inr p)) = inr (IsNew-kept o d steady p)

    written-IsSafe :
        (r : Run V (Unit {0}))
        → Ends IsSteady
            (IsSafe old id files)
            (IsFresh old id files)
            (λ _. IsFinished old id files)
            r
        → IsSafe old id files r.2
    unfolding has_trade_file
    written-IsSafe (done u, es, d) h = inr (inr (h.1.0, rw h.1.1 refl))
    written-IsSafe (failed why, es, d) h = inl h.1.0
    written-IsSafe (crashed, es, d) h = h

    persisted-Ends :
        (es : List Event)
        → All IsSteady es
        → has_trade_file old id ≡ false
        → Ends IsSteady
            (IsSafe old id files)
            (IsFresh old id files)
            (λ _. IsFinished old id files)
            (persisted old id files es)
    persisted-Ends es steady unseen =
        (persist_executed_trade-Holds old id files).at es old steady (refl, unseen)

    -- A trade that has none of the files that `HasExecutedTrade` looks for is written, and the store is
    -- opened any number of times after that, where the process may end before any call, but no call
    -- fails. If the last opening succeeds, and lists the trade if it has a manifest, then either no
    -- document has changed, or the documents are those with all files of the trade written, and the
    -- trade has one of those files.
    pub persist_executed_trade-atomic :
        (es : List Event) (os : List Opening) (last : Opening) (u : Unit)
        → All IsSteady es
        → All IsSteadyOpening os
        → IsSteadyOpening last
        → has_trade_file old id ≡ false
        → let d = open_stores os (persisted old id files es).2 in
          (has id d.manifests ≡ true → lists last.ids id ≡ true)
          → (open_store last d).0 ≡ done u
          → IsOld old (open_store last d).2 ⊎ IsNew old id files (open_store last d).2
    persist_executed_trade-atomic es os last u steady opens ends unseen listed e =
        let d = open_stores os (persisted old id files es).2 in
        opened_safe last d u ends listed e (
          opened-IsSafe os (persisted old id files es).2 opens
            (written-IsSafe (persisted old id files es) (persisted-Ends es steady unseen)))

    returned-IsNew :
        (r : Run V (Unit {0})) (u : Unit)
        → Ends IsSteady
            (IsSafe old id files)
            (IsFresh old id files)
            (λ _. IsFinished old id files)
            r
        → r.0 ≡ done u
        → IsNew old id files r.2
    unfolding has_trade_file
    returned-IsNew (done v, es, d) u h e = (h.1.0, rw h.1.1 refl)
    returned-IsNew (failed why, es, d) u h e = absurd (cc)
    returned-IsNew (crashed, es, d) u h e = absurd (cc)

    -- A trade that has none of the files that `HasExecutedTrade` looks for is written, and
    -- `PersistExecutedTrade` returns without an error; the store is opened any number of times after
    -- that, where the process may end before any call, and no call of all this fails. Then the
    -- documents are those with all files of the trade written, and if the next four calls work,
    -- writing the trade again, with whatever documents, is refused as a replay and changes nothing on
    -- the disk.
    pub persist_executed_trade-durable :
        (es : List Event) (os : List Opening) (u : Unit) (later : List Event)
        (again : List (JsonFile V))
        → All IsSteady es
        → All IsSteadyOpening os
        → has_trade_file old id ≡ false
        → (persisted old id files es).0 ≡ done u
        → let d = open_stores os (persisted old id files es).2 in
          let r = persist_executed_trade id again (four_work later) d in
          IsWritten old files d × (r.0 ≡ failed trade_replay) × (r.2 ≡ d)
    persist_executed_trade-durable es os u later again steady opens unseen e =
        let d = open_stores os (persisted old id files es).2 in
        let (written, counts) =
          opened-IsNew os (persisted old id files es).2 opens
            (returned-IsNew (persisted old id files es) u (persisted-Ends es steady unseen) e) in
        let (refusal, same) = counted-refused later id d again counts in (written, refusal, same)
