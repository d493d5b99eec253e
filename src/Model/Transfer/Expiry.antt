-- ===== src/Model/Transfer/Expiry.antt =====
-- Expiries in core/model/validate.go: `checkExpiryPropagation` lets no output outlive an input of its
-- unit and issuer, and `normalizeTransferOutputExpiries` makes outputs that pass it.
use web4_v.Base.{
  ◌≡◌, ◌≢◌, refl, sym, ap, ◌∙◌, Bool, true, false, not, ◌&&◌, ◌||◌, List, [], ◌∷◌, ok,
  if◌then◌else◌, arith, inl, inr, ◌↔◌, Bool-cases, All,
}
use mathlib.Core.Path.{subst}
use mathlib.Core.Bool.{false≢true}
use web4_v.Base.Int.{ℤ, pos, ◌≤ℤ◌, ltb_ℤ, eqb_ℤ, eqb_ℤ_iff}
use web4_v.Base.Dict.{Dict, get, insert, lookup-insert}
use web4_v.Model.Types.{Value}
use web4_v.Model.Transfer.Checks.{
  UnitIssuerKey, same_key, same_key_iff, key_eq, key_of, note_expiry, least_expiries,
  check_expiries, check_expiry_propagation, clamp_expiry,
}
use web4_v.Model.Transfer.Issuers.{HasInputKey}

abbrev least_of : Dict UnitIssuerKey ℤ → UnitIssuerKey → ℤ
least_of least k = get (pos 0) k least

-- A key has a least expiry, and it is at most `x`.
abbrev IsBounded : Dict UnitIssuerKey ℤ → UnitIssuerKey → ℤ → Type 0
IsBounded least k x = (eqb_ℤ (least_of least k) (pos 0) ≡ false) × (least_of least k ≤ℤ x)

least_of-insert :
    (k l : UnitIssuerKey) (x : ℤ) (d : Dict UnitIssuerKey ℤ)
    → least_of (insert k x d) l ≡ (if same_key k l then x else least_of d l)
least_of-insert k l x d = ground (arith, lookup-insert k l x d)

least_of-note_expiry :
    (d : Dict UnitIssuerKey ℤ) (v : Value) (l : UnitIssuerKey)
    → least_of (note_expiry d v) l ≡ (
        if eqb_ℤ v.expiry_unix (pos 0)
        then least_of d l
        else if eqb_ℤ (least_of d (key_of v)) (pos 0) || ltb_ℤ v.expiry_unix (least_of d (key_of v))
        then if same_key (key_of v) l then v.expiry_unix else least_of d l
        else least_of d l)
unfolding note_expiry
least_of-note_expiry d v l = elim (Bool-cases (eqb_ℤ v.expiry_unix (pos 0))) [
  | inl none_given ↦ rw none_given
  | inr given ↦
      elim (Bool-cases
        (eqb_ℤ (least_of d (key_of v)) (pos 0) || ltb_ℤ v.expiry_unix (least_of d (key_of v)))) [
          | inl lower ↦ rw (given, lower) (least_of-insert (key_of v) l v.expiry_unix d)
          | inr higher ↦ rw (given, higher)
        ]
]

-- One round of the loop on numbers: what was known of the value's key and of another, and what is
-- known then.
keeps_bound :
    (exp known old new x : ℤ) (same : Bool)
    → (same ≡ true → known ≡ old)
    → new ≡ (
        if eqb_ℤ exp (pos 0)
        then old
        else if eqb_ℤ known (pos 0) || ltb_ℤ exp known
        then if same then exp else old
        else old)
    → (eqb_ℤ old (pos 0) ≡ false) × (old ≤ℤ x)
    → (eqb_ℤ new (pos 0) ≡ false) × (new ≤ℤ x)
keeps_bound exp known old new x true here e h = let k = here refl in ground arith
keeps_bound exp known old new x false here e h = ground arith

takes_bound :
    (exp old new : ℤ)
    → new
      ≡ (if eqb_ℤ exp (pos 0) then old else if eqb_ℤ old (pos 0) || ltb_ℤ exp old then exp else old)
    → eqb_ℤ exp (pos 0) ≡ false
    → (eqb_ℤ new (pos 0) ≡ false) × (new ≤ℤ exp)
takes_bound exp old new e h = ground arith

note_expiry-IsBounded :
    (d : Dict UnitIssuerKey ℤ) (v : Value) (k : UnitIssuerKey) (x : ℤ)
    → IsBounded d k x
    → IsBounded (note_expiry d v) k x
note_expiry-IsBounded d v k x h =
    keeps_bound v.expiry_unix (least_of d (key_of v)) (least_of d k) (least_of (note_expiry d v) k)
      x (same_key (key_of v) k) (λ e. ap (least_of d) ((same_key_iff (key_of v) k).0 e))
      (least_of-note_expiry d v k) h

note_expiry_new :
    (d : Dict UnitIssuerKey ℤ) (v : Value)
    → eqb_ℤ v.expiry_unix (pos 0) ≡ false
    → IsBounded (note_expiry d v) (key_of v) v.expiry_unix
note_expiry_new d v h =
    takes_bound v.expiry_unix (least_of d (key_of v)) (least_of (note_expiry d v) (key_of v))
      (rw ((same_key_iff (key_of v) (key_of v)).1 refl) at (least_of-note_expiry d v (key_of v))) h

least_expiries-IsBounded :
    (d : Dict UnitIssuerKey ℤ) (vs : List Value) (k : UnitIssuerKey) (x : ℤ)
    → IsBounded d k x
    → IsBounded (least_expiries d vs) k x
unfolding least_expiries
least_expiries-IsBounded d [] k x h = h
least_expiries-IsBounded d (v ∷ vs) k x h =
    least_expiries-IsBounded (note_expiry d v) vs k x (note_expiry-IsBounded d v k x h)

-- What an input that expires demands of the map.
abbrev Demands : Dict UnitIssuerKey ℤ → Value → Type 0
Demands least v = eqb_ℤ v.expiry_unix (pos 0) ≡ false → IsBounded least (key_of v) v.expiry_unix

least_expiries-Demands :
    (d : Dict UnitIssuerKey ℤ) (vs : List Value) → All (Demands (least_expiries d vs)) vs
unfolding least_expiries
least_expiries-Demands d [] = tt
least_expiries-Demands d (v ∷ vs) = (
  λ h.
      least_expiries-IsBounded (note_expiry d v) vs (key_of v) v.expiry_unix
        (note_expiry_new d v h),
  least_expiries-Demands (note_expiry d v) vs,
)

-- The tests of `checkExpiryPropagation` on one output.
abbrev pub within : Dict UnitIssuerKey ℤ → Value → Bool
within least v =
    eqb_ℤ (least_of least (key_of v)) (pos 0)
    || (not (eqb_ℤ v.expiry_unix (pos 0)) && not (ltb_ℤ (least_of least (key_of v)) v.expiry_unix))

pub check_expiries_iff :
    (least : Dict UnitIssuerKey ℤ) (ins vs : List Value)
    → (check_expiries least ins vs ≡ ok tt)
      ↔ All (λ v. HasInputKey ins v × (within least v ≡ true)) vs
unfolding check_expiries
check_expiries_iff least ins [] = (λ _. tt, λ _. refl)
check_expiries_iff least ins (v ∷ vs) = (
  λ e. ground (arith, (check_expiries_iff least ins vs).0),
  λ h. ground (arith, (check_expiries_iff least ins vs).1),
)

pub clamp_expiry-within :
    (least : Dict UnitIssuerKey ℤ) (v : Value) → within least (clamp_expiry least v) ≡ true
unfolding clamp_expiry
clamp_expiry-within least v = ground arith

-- The output `v` does not outlive the input `w`: if they have one unit and issuer and the input
-- expires, the output expires, and no later.
abbrev pub NotOutliving : Value → Value → Type 0
NotOutliving v w =
    key_of w ≡ key_of v
    → w.expiry_unix ≢ pos 0
    → (v.expiry_unix ≢ pos 0) × (v.expiry_unix ≤ℤ w.expiry_unix)

not_outliving :
    (least exp bound : ℤ)
    → (eqb_ℤ least (pos 0) ≡ false) × (least ≤ℤ bound)
    → (eqb_ℤ least (pos 0) || (not (eqb_ℤ exp (pos 0)) && not (ltb_ℤ least exp))) ≡ true
    → (eqb_ℤ exp (pos 0) ≡ false) × (exp ≤ℤ bound)
not_outliving least exp bound h e = ground arith

expires : (a : ℤ) → a ≢ pos 0 → eqb_ℤ a (pos 0) ≡ false
expires a h = elim (Bool-cases (eqb_ℤ a (pos 0))) [
  | inl e ↦ absurd (h ((eqb_ℤ_iff a (pos 0)).0 e))
  | inr e ↦ e
]

outlives_none :
    (least : Dict UnitIssuerKey ℤ) (v : Value) (ws : List Value)
    → within least v ≡ true
    → All (Demands least) ws
    → All (NotOutliving v) ws
outlives_none least v [] h d = tt
outlives_none least v (w ∷ ws) h d = (
  λ same expiring.
      let (lower, le) =
        not_outliving (least_of least (key_of v)) v.expiry_unix w.expiry_unix
          (subst (λ k. IsBounded least k w.expiry_unix) same (d.0 (expires w.expiry_unix expiring)))
          h in
      (λ e. false≢true (sym lower ∙ (eqb_ℤ_iff v.expiry_unix (pos 0)).1 e), le),
  outlives_none least v ws h d.1,
)

-- Outputs that pass `checkExpiryPropagation` have the unit and issuer of an input each, and outlive
-- no input of their unit and issuer.
pub check_expiry_propagation_sound :
    (ins outs : List Value)
    → check_expiry_propagation ins outs ≡ ok tt
    → All (λ v. HasInputKey ins v × All (NotOutliving v) ins) outs
unfolding check_expiry_propagation
check_expiry_propagation_sound ins outs e =
    each outs ((check_expiries_iff (least_expiries [] ins) ins outs).0 e)
  where
    each :
        (vs : List Value)
        → All (λ v. HasInputKey ins v × (within (least_expiries [] ins) v ≡ true)) vs
        → All (λ v. HasInputKey ins v × All (NotOutliving v) ins) vs
    each [] h = tt
    each (v ∷ vs) h = (
      (h.0.0, outlives_none (least_expiries [] ins) v ins h.0.1 (least_expiries-Demands [] ins)),
      each vs h.1,
    )
