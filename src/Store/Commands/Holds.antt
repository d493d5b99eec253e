-- ===== src/Store/Commands/Holds.antt =====
-- What a command of core/store/json.go leaves on the disk, however it ends: after a return, after a
-- failure, and when the process ends inside it.
pub mod Calls
use web4_v.Base.{
  ◌≡◌, refl, Bool, true, false, if◌then◌else◌, List, [], ◌∷◌, Result, ok, err, Error, All,
}
use web4_v.Store.{Disk}
use web4_v.Store.Commands.{
  Event, works, fails, crashes, done, failed, crashed, Run, Command, follow, ◌>>=◌, ◌>>◌, give,
  lift, observe, exists, open_exclusive, operate, ignored, attempt, cleaned, on_failure, finished,
  deferred,
}

-- How a run ended, with the events that are left: `Q` after a return, `F` after a failure, and `J` when
-- the process has ended. `E` is what is known of every event.
abbrev pub Ends :
    {V A : Type 0}
    → (Event → Type 0)
    → (Disk V → Type 0)
    → (Disk V → Type 0)
    → (A → Disk V → Type 0)
    → Run V A
    → Type 0
Ends E J F Q (done a, es, d) = All E es × Q a d
Ends E J F Q (failed why, es, d) = All E es × F d
Ends E J F Q (crashed, es, d) = J d

pub record Holds {V A : Type 0} (E : Event → Type 0) (J P F : Disk V → Type 0)
    (Q : A → Disk V → Type 0) (command : Command V A) : Type 0 where
  pub at : (es : List Event) (d : Disk V) → All E es → P d → Ends E J F Q (command es d)

module _ {V : Type 0} {E : Event → Type 0} {J F : Disk V → Type 0} where
  pub follow-Ends :
      {A B : Type 0} {R : A → Disk V → Type 0} {Q : B → Disk V → Type 0} (r : Run V A)
      (next : A → Command V B)
      → Ends E J F R r
      → ((a : A) → Holds E J (R a) F Q (next a))
      → Ends E J F Q (follow r next)
  follow-Ends (done a, es, d) next h k = (k a).at es d h.0 h.1
  follow-Ends (failed why, es, d) next h k = h
  follow-Ends (crashed, es, d) next h k = h

  pub Holds-bind :
      {A B : Type 0} {P : Disk V → Type 0} {R : A → Disk V → Type 0} {Q : B → Disk V → Type 0}
      {command : Command V A} {next : A → Command V B}
      → Holds E J P F R command
      → ((a : A) → Holds E J (R a) F Q (next a))
      → Holds E J P F Q (command >>= next)
  unfolding ◌>>=◌
  Holds-bind {command = command} {next = next} h k = record {
    at = λ es d e p. follow-Ends (command es d) next (h.at es d e p) k;
  }

  pub Holds-then :
      {A B : Type 0} {P R : Disk V → Type 0} {Q : B → Disk V → Type 0} {command : Command V A}
      {next : Command V B}
      → Holds E J P F (λ _. R) command
      → Holds E J R F Q next
      → Holds E J P F Q (command >> next)
  unfolding ◌>>◌
  Holds-then {command = command} {next = next} h k = record {
    at = λ es d e p. follow-Ends (command es d) (λ _. next) (h.at es d e p) (λ _. k);
  }

  pub Holds-give :
      {A : Type 0} {P : Disk V → Type 0} {Q : A → Disk V → Type 0} (a : A)
      → ((d : Disk V) → P d → Q a d)
      → Holds E J P F Q (give a)
  unfolding give
  Holds-give a k = record { at = λ es d e p. (e, k d p) }

  pub Holds-error :
      {A : Type 0} {P : Disk V → Type 0} {Q : A → Disk V → Type 0} (why : Error)
      → ((d : Disk V) → P d → F d)
      → Holds E J P F Q (lift (err why))
  unfolding lift
  Holds-error why k = record { at = λ es d e p. (e, k d p) }

  pub Holds-lift :
      {A : Type 0} {P : Disk V → Type 0} {Q : A → Disk V → Type 0} (r : Result A)
      → ((a : A) → r ≡ ok a → (d : Disk V) → P d → Q a d)
      → ((d : Disk V) → P d → F d)
      → Holds E J P F Q (lift r)
  unfolding lift
  Holds-lift (ok a) k f = record { at = λ es d e p. (e, k a refl d p) }
  Holds-lift (err why) k f = record { at = λ es d e p. (e, f d p) }

  pub Holds-operate :
      {P Q : Disk V → Type 0} (f : Disk V → Disk V)
      → ((d : Disk V) → P d → J d)
      → ((d : Disk V) → P d → Q (f d))
      → (E fails → (d : Disk V) → P d → F d)
      → Holds E J P F (λ _. Q) (operate f)
  unfolding operate
  Holds-operate {P} {Q} f j q b = record { at = go }
    where
      go : (es : List Event) (d : Disk V) → All E es → P d → Ends E J F (λ _. Q) (operate f es d)
      go [] d e p = j d p
      go (works ∷ es) d e p = (e.1, q d p)
      go (fails ∷ es) d e p = (e.1, b e.0 d p)
      go (crashes ∷ es) d e p = j d p

  -- A call whose error is ignored, which keeps what is known.
  pub Holds-attempt :
      {P : Disk V → Type 0} (f : Disk V → Disk V)
      → ((d : Disk V) → P d → J d)
      → ((d : Disk V) → P d → P (f d))
      → Holds E J P F (λ _. P) (attempt (operate f))
  unfolding attempt operate
  Holds-attempt {P} f j q = record { at = go }
    where
      go :
          (es : List Event) (d : Disk V)
          → All E es
          → P d
          → Ends E J F (λ _. P) (ignored (operate f es d))
      go [] d e p = j d p
      go (works ∷ es) d e p = (e.1, q d p)
      go (fails ∷ es) d e p = (e.1, p)
      go (crashes ∷ es) d e p = j d p

  -- A fact that is not about the disk.
  pub Holds-fact :
      {A X : Type 0} {P : Disk V → Type 0} {Q : A → Disk V → Type 0} {command : Command V A}
      → (X → Holds E J P F Q command)
      → Holds E J (λ d. P d × X) F Q command
  Holds-fact k = record { at = λ es d e p. (k p.1).at es d e p.0 }

  pub Holds-weaken :
      {A : Type 0} {P P' : Disk V → Type 0} {Q : A → Disk V → Type 0} {command : Command V A}
      → ((d : Disk V) → P' d → P d)
      → Holds E J P F Q command
      → Holds E J P' F Q command
  Holds-weaken k h = record { at = λ es d e p. h.at es d e (k d p) }

failed-Ends :
    {V A : Type 0} (E : Event → Type 0) (J F : Disk V → Type 0) (Q : A → Disk V → Type 0)
    (r : Run V (Unit {0})) (why : Error)
    → Ends E J F (λ _. F) r
    → Ends E J F Q (follow r (λ _ es d. (failed why, es, d)))
failed-Ends E J F Q (done u, es, d) why h = h
failed-Ends E J F Q (failed y, es, d) why h = h
failed-Ends E J F Q (crashed, es, d) why h = h

module _ {V A : Type 0} {E : Event → Type 0} {J F : Disk V → Type 0}
    {Q R : A → Disk V → Type 0} where
  pub Holds-after :
      {P : Disk V → Type 0} {command : Command V A}
      → ((a : A) (d : Disk V) → Q a d → R a d)
      → Holds E J P F Q command
      → Holds E J P F R command
  Holds-after {P} {command} k h = record { at = λ es d e p. go (command es d) (h.at es d e p) }
    where
      go : (r : Run V A) → Ends E J F Q r → Ends E J F R r
      go (done a, es, d) ends = (ends.0, k a d ends.1)
      go (failed why, es, d) ends = ends
      go (crashed, es, d) ends = ends

module _ {V A : Type 0} {E : Event → Type 0} {J : Disk V → Type 0} where
  -- A clean-up starts from what the failure has left.
  pub Holds-on_failure :
      {P G F : Disk V → Type 0} {Q : A → Disk V → Type 0} {clean : Command V (Unit {0})}
      {command : Command V A}
      → Holds E J P G Q command
      → Holds E J G F (λ _. F) clean
      → Holds E J P F Q (on_failure clean command)
  unfolding on_failure
  Holds-on_failure {P} {G} {F} {Q} {clean} {command} h k = record {
    at = λ es d e p. go (command es d) (h.at es d e p);
  }
    where
      go : (r : Run V A) → Ends E J G Q r → Ends E J F Q (cleaned r clean)
      go (done a, es, d) ends = ends
      go (failed why, es, d) ends = failed-Ends E J F Q (clean es d) why (k.at es d ends.0 ends.1)
      go (crashed, es, d) ends = ends

  pub Holds-deferred :
      {P F : Disk V → Type 0} {Q : Disk V → Type 0} {clean : Command V (Unit {0})}
      {command : Command V A}
      → Holds E J P F (λ _. Q) command
      → Holds E J F F (λ _. F) clean
      → Holds E J Q F (λ _. Q) clean
      → Holds E J P F (λ _. Q) (deferred clean command)
  unfolding deferred give
  Holds-deferred {P} {F} {Q} {clean} {command} h k good = record {
    at = λ es d e p. go (command es d) (h.at es d e p);
  }
    where
      go : (r : Run V A) → Ends E J F (λ _. Q) r → Ends E J F (λ _. Q) (finished r clean)
      go (done a, es, d) ends =
          follow-Ends {R = λ _. Q} {Q = λ _. Q} (clean es d) (λ _. give a)
            (good.at es d ends.0 ends.1) (λ _. Holds-give a (λ d' q. q))
      go (failed why, es, d) ends =
          failed-Ends E J F (λ _. Q) (clean es d) why (k.at es d ends.0 ends.1)
      go (crashed, es, d) ends = ends

  -- From what cannot be.
  pub Holds-never :
      {F : Disk V → Type 0} {Q : A → Disk V → Type 0} {command : Command V A}
      → Holds E J (λ _. ⊥) F Q command
  Holds-never = record { at = λ es d e p. absurd p }
