-- ===== src/Store/Commands/Holds/Calls.antt =====
-- What the calls of core/store/json.go that read, or make a new file, leave on the disk.
use web4_v.Base.{◌≡◌, refl, Bool, true, false, if◌then◌else◌, List, [], ◌∷◌, Error, All}
use web4_v.Store.{Disk}
use web4_v.Store.Commands.{
  Event, works, fails, crashes, done, failed, observe, exists, open_exclusive,
}
use web4_v.Store.Commands.Holds.{Ends, Holds}

module _ {V : Type 0} {E : Event → Type 0} {J F : Disk V → Type 0} where
  -- What was read is what the disk still has.
  pub Holds-observe :
      {A : Type 0} {P : Disk V → Type 0} (f : Disk V → A)
      → ((d : Disk V) → P d → J d)
      → (E fails → (d : Disk V) → P d → F d)
      → Holds E J P F (λ a d. P d × (f d ≡ a)) (observe f)
  unfolding observe
  Holds-observe {P = P} f j b = record { at = go }
    where
      go :
          (es : List Event) (d : Disk V)
          → All E es
          → P d
          → Ends E J F (λ a d. P d × (f d ≡ a)) (observe f es d)
      go [] d e p = j d p
      go (works ∷ es) d e p = (e.1, (p, refl))
      go (fails ∷ es) d e p = (e.1, b e.0 d p)
      go (crashes ∷ es) d e p = j d p

  -- A file is found exactly if it is there, where the call for it cannot fail.
  pub Holds-exists :
      {P : Disk V → Type 0} (f : Disk V → Bool)
      → (E fails → ⊥)
      → ((d : Disk V) → P d → J d)
      → Holds E J P F (λ b d. P d × (f d ≡ b)) (exists f)
  unfolding exists
  Holds-exists {P = P} f never j = record { at = go }
    where
      go :
          (es : List Event) (d : Disk V)
          → All E es
          → P d
          → Ends E J F (λ b d. P d × (f d ≡ b)) (exists f es d)
      go [] d e p = j d p
      go (works ∷ es) d e p = (e.1, (p, refl))
      go (fails ∷ es) d e p = absurd (never e.0)
      go (crashes ∷ es) d e p = j d p

  pub Holds-open_exclusive :
      {P Q : Disk V → Type 0} (there : Disk V → Bool) (put : Disk V → Disk V) (why : Error)
      → ((d : Disk V) → P d → J d)
      → ((d : Disk V) → P d → there d ≡ true → F d)
      → ((d : Disk V) → P d → there d ≡ false → Q (put d))
      → (E fails → (d : Disk V) → P d → F d)
      → Holds E J P F (λ _. Q) (open_exclusive there put why)
  unfolding open_exclusive
  Holds-open_exclusive {P} {Q} there put why j f q b = record { at = go }
    where
      made :
          (es : List Event) (d : Disk V) (t : Bool)
          → All E es
          → P d
          → there d ≡ t
          → Ends E J F (λ _. Q) (if t then (failed why, es, d) else (done tt, es, put d))
      made es d true e p h = (e, f d p h)
      made es d false e p h = (e, q d p h)

      go :
          (es : List Event) (d : Disk V)
          → All E es
          → P d
          → Ends E J F (λ _. Q) (open_exclusive there put why es d)
      go [] d e p = j d p
      go (works ∷ es) d e p = made es d (there d) e.1 p refl
      go (fails ∷ es) d e p = (e.1, b e.0 d p)
      go (crashes ∷ es) d e p = j d p
