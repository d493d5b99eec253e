-- ===== src/Store/Commands.antt =====
-- The operations of core/store/json.go as commands on the disk. What the operating system does with
-- each call is an event: the call works, it fails and changes nothing, or the process ends before it.
-- A run that has no events left has ended too. The disk is seen by such calls only. Only one process
-- uses the store, so that a file that was there stays there until the next call.
pub mod Holds
use web4_v.Base.{Bool, false, List, [], ◌∷◌, Result, ok, err, Error, disk_error, if◌then◌else◌}
use web4_v.Store.{Disk}

pub data Event : Type 0 where
  works fails crashes : Event

pub data Outcome (A : Type 0) : Type 0 where
  done : A → Outcome A
  failed : Error → Outcome A
  crashed : Outcome A

-- The outcome, the events that are left, and the disk after it.
abbrev pub Run : Type 0 → Type 0 → Type 0
Run V A = Outcome A × List Event × Disk V

abbrev pub Command : Type 0 → Type 0 → Type 0
Command V A = List Event → Disk V → Run V A

module _ {V : Type 0} where
  abbrev pub follow : {A B : Type 0} → Run V A → (A → Command V B) → Run V B
  follow (done a, es, d) next = next a es d
  follow (failed why, es, d) next = (failed why, es, d)
  follow (crashed, es, d) next = (crashed, es, d)

  infixl 5 ◌>>=◌ ◌>>◌
  unfoldable pub ◌>>=◌ : {A B : Type 0} → Command V A → (A → Command V B) → Command V B
  ◌>>=◌ command next es d = follow (command es d) next

  unfoldable pub ◌>>◌ : {A B : Type 0} → Command V A → Command V B → Command V B
  ◌>>◌ command next es d = follow (command es d) (λ _. next)

  unfoldable pub give : {A : Type 0} → A → Command V A
  give a es d = (done a, es, d)

  unfoldable pub lift : {A : Type 0} → Result A → Command V A
  lift (ok a) es d = (done a, es, d)
  lift (err why) es d = (failed why, es, d)

  -- One call of the operating system that reads.
  unfoldable pub observe : {A : Type 0} → (Disk V → A) → Command V A
  observe f [] d = (crashed, [], d)
  observe f (works ∷ es) d = (done (f d), es, d)
  observe f (fails ∷ es) d = (failed disk_error, es, d)
  observe f (crashes ∷ es) d = (crashed, es, d)

  -- `exists`, for which a file is not there if `os.Stat` fails.
  unfoldable pub exists : (Disk V → Bool) → Command V Bool
  exists f [] d = (crashed, [], d)
  exists f (works ∷ es) d = (done (f d), es, d)
  exists f (fails ∷ es) d = (done false, es, d)
  exists f (crashes ∷ es) d = (crashed, es, d)

  -- `os.OpenFile` of a file that must not be there, with the error if it is.
  unfoldable pub open_exclusive : (Disk V → Bool) → (Disk V → Disk V) → Error → Command V (Unit {0})
  open_exclusive there put why [] d = (crashed, [], d)
  open_exclusive there put why (works ∷ es) d =
      if there d then (failed why, es, d) else (done tt, es, put d)
  open_exclusive there put why (fails ∷ es) d = (failed disk_error, es, d)
  open_exclusive there put why (crashes ∷ es) d = (crashed, es, d)

  -- One call of the operating system.
  unfoldable pub operate : (Disk V → Disk V) → Command V (Unit {0})
  operate f [] d = (crashed, [], d)
  operate f (works ∷ es) d = (done tt, es, f d)
  operate f (fails ∷ es) d = (failed disk_error, es, d)
  operate f (crashes ∷ es) d = (crashed, es, d)

  -- A call that changes no file that is modelled.
  abbrev pub no_change : Disk V → Disk V
  no_change d = d

  abbrev pub ignored : Run V (Unit {0}) → Run V (Unit {0})
  ignored (failed why, es, d) = (done tt, es, d)
  ignored r = r

  -- `_ = os.Remove(…)`
  unfoldable pub attempt : Command V (Unit {0}) → Command V (Unit {0})
  attempt command es d = ignored (command es d)

  abbrev pub cleaned : {A : Type 0} → Run V A → Command V (Unit {0}) → Run V A
  cleaned (failed why, es, d) clean = follow (clean es d) (λ _ es' d'. (failed why, es', d'))
  cleaned r clean = r

  -- A clean-up that only a failure runs.
  unfoldable pub on_failure : {A : Type 0} → Command V (Unit {0}) → Command V A → Command V A
  on_failure clean command es d = cleaned (command es d) clean

  abbrev pub finished : {A : Type 0} → Run V A → Command V (Unit {0}) → Run V A
  finished (done a, es, d) clean = follow (clean es d) (λ _. give a)
  finished (failed why, es, d) clean = follow (clean es d) (λ _ es' d'. (failed why, es', d'))
  finished (crashed, es, d) clean = (crashed, es, d)

  -- A deferred clean-up, which runs however the command returns.
  unfoldable pub deferred : {A : Type 0} → Command V (Unit {0}) → Command V A → Command V A
  unfolding give
  deferred clean command es d = finished (command es d) clean
