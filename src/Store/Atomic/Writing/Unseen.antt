-- ===== src/Store/Atomic/Writing/Unseen.antt =====
-- `HasExecutedTrade` of core/store/json.go on a disk where the trade has none of its files, when every
-- call works until the process ends.
use web4_v.Base.{◌≡◌, sym, arith, ◌∙◌, ap, Bool, true, false, ◌||◌, inl, List, nat_eq}
use web4_v.Base.Dict.{lookup, has}
use web4_v.Model.Types.{TxId}
use web4_v.Store.{target_eq, Disk, JsonFile, has_trade_file}
use web4_v.Store.Commands.{Command, exists}
use web4_v.Store.Commands.Holds.{Holds, Holds-bind, Holds-after, Holds-weaken, Holds-never}
use web4_v.Store.Commands.Holds.Calls.{Holds-exists}
use web4_v.Store.Persist.{or_exists, has_executed_trade}
use web4_v.Store.Atomic.{IsSafe, IsSteady}

module _ {V : Type 0} (old : Disk V) (id : TxId) (files : List (JsonFile V)) where
  nothing_there :
      (a b c e : Bool)
      → (a || b || c || e) ≡ false
      → (a ≡ false) × (b ≡ false) × (c ≡ false) × (e ≡ false)
  nothing_there a b c e h = ground arith

  -- The disk before, on which the trade has none of its files.
  abbrev pub IsBefore : Disk V → Type 0
  IsBefore d = (d ≡ old) × (has_trade_file d id ≡ false)

  pub no_files :
      (d : Disk V)
      → IsBefore d
      → (has id d.executed ≡ false)
        × (has id d.committed ≡ false)
        × (has id d.reserved ≡ false)
        × (has id d.manifests ≡ false)
  unfolding has_trade_file
  no_files d p =
      nothing_there (has id d.executed) (has id d.committed) (has id d.reserved)
        (has id d.manifests) p.1

  before-IsSafe : (d : Disk V) → IsBefore d → IsSafe old id files d
  before-IsSafe d p = inl (record { same = λ t. ap (λ e. lookup t e.documents) p.0 })

  abbrev pub FindsNone : (Disk V → Type 0) → Command V Bool → Type 0
  FindsNone F tests =
      Holds IsSteady (IsSafe old id files) IsBefore F (λ b d. IsBefore d × (b ≡ false)) tests

  module _ {F : Disk V → Type 0} where
    -- A test for a file that is not there, after tests that have found none.
    not_found :
        (f : Disk V → Bool) → ((d : Disk V) → IsBefore d → f d ≡ false) → FindsNone F (exists f)
    not_found f absent =
        Holds-after (λ b d p. (p.0, sym p.1 ∙ absent d p.0))
          (Holds-exists f (λ never. never) before-IsSafe)

    nor_found :
        (f : Disk V → Bool) (b : Bool)
        → ((d : Disk V) → IsBefore d → f d ≡ false)
        → Holds IsSteady
            (IsSafe old id files)
            (λ d. IsBefore d × (b ≡ false))
            F
            (λ b' d. IsBefore d × (b' ≡ false))
            (or_exists b f)
    nor_found f false absent = Holds-weaken (λ d p. p.0) (not_found f absent)
    nor_found f true absent = Holds-weaken (λ d p. absurd (let e = p.1 in cc)) Holds-never

    pub has_executed_trade-FindsNone : FindsNone F (has_executed_trade id)
    unfolding has_executed_trade
    has_executed_trade-FindsNone =
        Holds-bind (not_found (λ d. has id d.executed) (λ d p. (no_files d p).0)) (λ b.
          Holds-bind (nor_found (λ d. has id d.committed) b (λ d p. (no_files d p).1)) (λ b'.
            Holds-bind (nor_found (λ d. has id d.reserved) b' (λ d p. (no_files d p).2))
              (λ b''. nor_found (λ d. has id d.manifests) b'' (λ d p. (no_files d p).3))))
