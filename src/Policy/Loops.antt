-- ===== src/Policy/Loops.antt =====
-- The loops and the end of the evaluations of core/policy/policy.go.
use web4_v.Base.{
  ◌≡◌, refl, sym, ◌⊎◌, ap, Bool, true, false, List, [], ◌∷◌, Option, none, some, if◌then◌else◌, ltb,
  nat_eq, inl, inr, Bool-cases,
}
use mathlib.Core.Path.{subst}
use web4_v.Base.Int.{ℤ}
use web4_v.Floats.{Floats}
use web4_v.Model.Types.{Value}
use web4_v.Policy.{
  Decision, accept, Reason, trust_below, refuse, judge, Policy, Verdict, passed, refused,
  has_expired, issuer_trust, lower_score, score_or_zero, check_inputs, check_outputs,
}

-- What IEEE 754 says of `<`: no float is below itself, and what is below a float that is below
-- another is below that one.
pub record IsOrder {F : Type 0} (fl : Floats F) : Type 0 where
  pub lt_irrefl : (a : F) → fl.lt a a ≡ false
  pub lt_trans : (a b d : F) → fl.lt a b ≡ true → fl.lt b d ≡ true → fl.lt a d ≡ true

-- How a test of a value was passed.
input_step :
    {F A : Type 0} (e d : Bool) (t : Option F) (r s u : Reason F) (rest : F → Verdict F A) (a : A)
    → (if e
        then refused r
        else if d
        then refused s
        else elim t [ none ↦ refused u | some x ↦ rest x ])
      ≡ passed a
    → (e ≡ false) × (d ≡ false) × ((x : F) × (t ≡ some x) × (rest x ≡ passed a))
input_step true d t r s u rest a h = absurd (cc)
input_step false true t r s u rest a h = absurd (cc)
input_step false false none r s u rest a h = absurd (cc)
input_step false false (some x) r s u rest a h = (refl, refl, (x, refl, h))

output_step :
    {F A : Type 0} (e d : Bool) (r s : Reason F) (rest : Verdict F A) (a : A)
    → (if e then refused r else if d then refused s else rest) ≡ passed a
    → (e ≡ false) × (d ≡ false) × (rest ≡ passed a)
output_step true d r s rest a h = absurd (cc)
output_step false true r s rest a h = absurd (cc)
output_step false false r s rest a h = (refl, refl, h)

passed-inj : {F A : Type 0} (a b : A) → ◌≡◌ {A = Verdict F A} (passed a) (passed b) → a ≡ b
passed-inj a b e = cc

module _ {F : Type 0} (fl : Floats F) (p : Policy F) (now : ℤ) where
  -- What is held of a value, whoever issued it.
  abbrev pub IsFresh : Value → Type 0
  IsFresh v = (has_expired now v.expiry_unix ≡ false) × (ltb p.max_depth v.depth ≡ false)

  -- Its issuer is trusted, and not less than with the score.
  abbrev pub IsTrusted : F → Value → Type 0
  IsTrusted score v =
      (trust : F) × (issuer_trust fl p v.issuer ≡ some trust) × (fl.lt trust score ≡ false)

  abbrev pub AllFresh : List Value → Type 0
  AllFresh [] = Unit
  AllFresh (v ∷ vs) = IsFresh v × AllFresh vs

  abbrev pub AllTrusted : F → List Value → Type 0
  AllTrusted score [] = Unit
  AllTrusted score (v ∷ vs) = IsTrusted score v × AllTrusted score vs

  -- The score is what was set before, or lower.
  abbrev pub Lowered : Option F → F → Type 0
  Lowered none final = Unit
  Lowered (some before) final = (final ≡ before) ⊎ (fl.lt final before ≡ true)

  -- What is not below a score is not below a lower one.
  not_below :
      (trust score final : F)
      → IsOrder fl
      → fl.lt trust score ≡ false
      → Lowered (some score) final
      → fl.lt trust final ≡ false
  not_below trust score final o h (inl same) = rw same h
  not_below trust score final o h (inr lower) = elim (Bool-cases (fl.lt trust final)) [
    | inr above ↦ above
    | inl below ↦ absurd (both h (o.lt_trans trust final score below lower))
  ]
    where
      both : {b : Bool} → b ≡ false → b ≡ true → ⊥
      both h k = cc

  lower_score-Lowered :
      (before : Option F) (trust final : F)
      → IsOrder fl
      → Lowered (some (lower_score fl before trust)) final
      → (fl.lt trust final ≡ false) × Lowered before final
  lower_score-Lowered none trust final o h =
      (not_below trust trust final o (o.lt_irrefl trust) h, tt)
  lower_score-Lowered (some s) trust final o h = elim (Bool-cases (fl.lt trust s)) [
    | inl lower ↦
        let k = subst (λ b. Lowered (some (if b then trust else s)) final) lower h in
        (not_below trust trust final o (o.lt_irrefl trust) k, further lower k)
    | inr higher ↦
        let k = subst (λ b. Lowered (some (if b then trust else s)) final) higher h in
        (not_below trust s final o higher k, k)
  ]
    where
      further : fl.lt trust s ≡ true → Lowered (some trust) final → Lowered (some s) final
      further l (inl same) = inr (rw same l)
      further l (inr below) = inr (o.lt_trans final trust s below l)

  pub check_inputs-passed :
      (before : Option F) (vs : List Value) (final : Option F)
      → IsOrder fl
      → check_inputs fl p now before vs ≡ passed final
      → AllFresh vs
        × AllTrusted (score_or_zero fl final) vs
        × Lowered before (score_or_zero fl final)
  unfolding check_inputs
  check_inputs-passed none [] final o h = (tt, tt, tt)
  check_inputs-passed (some s) [] final o h =
      (tt, tt, inl (ap (score_or_zero fl) (sym (passed-inj _ _ h))))
  check_inputs-passed before (v ∷ vs) final o h =
      let (e, d, (trust, found, rest)) =
        input_step _ _ (issuer_trust fl p v.issuer) _ _ _ _ final h in
      let (fresh, trusted, lowered) =
        check_inputs-passed (some (lower_score fl before trust)) vs final o rest in
      let (enough, lowered') =
        lower_score-Lowered before trust (score_or_zero fl final) o lowered in
      (((e, d), fresh), ((trust, found, enough), trusted), lowered')

  pub check_outputs-passed : (vs : List Value) → check_outputs fl p now vs ≡ passed tt → AllFresh vs
  unfolding check_outputs
  check_outputs-passed [] h = tt
  check_outputs-passed (v ∷ vs) h =
      let (e, d, rest) = output_step _ _ _ _ _ tt h in ((e, d), check_outputs-passed vs rest)

  pub judged :
      (score : F) (reasons : List (Reason F))
      → (judge fl p score reasons).decision ≡ accept
      → (fl.lt score p.min_score ≡ false) × ((judge fl p score reasons).score ≡ score)
  judged score reasons h = elim (Bool-cases (fl.lt score p.min_score)) [
    | inl low ↦ absurd (
        never (
          subst
            (λ b.
              (if b
                then refuse score (trust_below score p.min_score)
                else record { decision = accept; score = score; reasons = reasons }).decision
              ≡ accept)
            low h))
    | inr enough ↦ (enough, rw enough refl)
  ]
    where
      never : Decision.reject ≡ accept → ⊥
      never e = cc
