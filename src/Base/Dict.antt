-- ===== src/Base/Dict.antt =====
-- Go's maps as association lists. A nil map reads as an empty one.
use Prim.Native.Nat.{suc, ◌≤◌}
use mathlib.Core.Path.{◌≡◌, refl, subst}
use mathlib.Core.Bool.{Bool, true, false}
use mathlib.Core.Logic.{◌≢◌, inl, inr}
use mathlib.Core.Option.{Option, none, some}
use mathlib.Core.List.{List, [], ◌∷◌, ◌++◌}
use native.Mathlib.Omega.{arith}
use web4_v.Base.Tests.{Eq, beq_refl, Bool-cases, Option-cases, if◌then◌else◌}
use web4_v.Base.Lists.{length}

abbrev pub Dict {ℓ κ} : Type ℓ → Type κ → Type (ℓ ⊔ κ)
Dict K V = List (K × V)

module _ {ℓ κ} {K : Type ℓ} {V : Type κ} ⦃e : Eq K⦄ where
  abbrev pub lookup : K → Dict K V → Option V
  lookup k [] = none
  lookup k ((j, v) ∷ d) = if e.beq j k then some v else lookup k d

  -- `d[k]`, with the zero value of the type for a missing key.
  abbrev pub get : V → K → Dict K V → V
  get z k d = elim (lookup k d) [ none ↦ z | some v ↦ v ]

  -- `_, ok := d[k]`
  abbrev pub has : K → Dict K V → Bool
  has k d = elim (lookup k d) [ none ↦ false | some v ↦ true ]

  -- `d[k] = v`
  abbrev pub insert : K → V → Dict K V → Dict K V
  insert k v [] = (k, v) ∷ []
  insert k v ((j, w) ∷ d) = if e.beq j k then (j, v) ∷ d else (j, w) ∷ insert k v d

  pub lookup-insert :
      (k j : K) (v : V) (d : Dict K V)
      → lookup j (insert k v d) ≡ (if e.beq k j then some v else lookup j d)
  lookup-insert k j v [] = refl
  lookup-insert k j v ((i, w) ∷ d) =
      ground (arith, e.beq_iff k j, e.beq_iff i k, e.beq_iff i j, lookup-insert k j v d)

  pub lookup-insert_self : (k : K) (v : V) (d : Dict K V) → lookup k (insert k v d) ≡ some v
  lookup-insert_self k v d = ground (arith, lookup-insert k k v d, beq_refl k)

  pub lookup-insert_ne :
      (k j : K) (v : V) (d : Dict K V) → k ≢ j → lookup j (insert k v d) ≡ lookup j d
  lookup-insert_ne k j v d h = ground (arith, lookup-insert k j v d, e.beq_iff k j)

  -- No key stands twice, as in every Go map.
  abbrev pub IsMap : Dict K V → Type κ
  IsMap [] = Unit
  IsMap ((k, v) ∷ d) = (lookup k d ≡ none) × IsMap d

  pub insert-IsMap : (k : K) (v : V) (d : Dict K V) → IsMap d → IsMap (insert k v d)
  insert-IsMap k v [] h = (refl, tt)
  insert-IsMap k v ((j, w) ∷ d) h =
      ground (arith, insert-IsMap k v d h.1, lookup-insert k j v d, e.beq_iff k j, e.beq_iff j k)

  -- `delete(d, k)`
  abbrev pub erase : K → Dict K V → Dict K V
  erase k [] = []
  erase k ((j, w) ∷ d) = if e.beq j k then d else (j, w) ∷ erase k d

  pub lookup-erase_ne : (k j : K) (d : Dict K V) → k ≢ j → lookup j (erase k d) ≡ lookup j d
  lookup-erase_ne k j [] h = refl
  lookup-erase_ne k j ((i, w) ∷ d) h =
      ground (arith, lookup-erase_ne k j d h, e.beq_iff k j, e.beq_iff i k, e.beq_iff i j)

  pub lookup-erase :
      (k j : K) (d : Dict K V)
      → IsMap d
      → lookup j (erase k d) ≡ (if e.beq k j then none else lookup j d)
  lookup-erase k j [] m = ground arith
  lookup-erase k j ((i, w) ∷ d) m =
      ground (arith, lookup-erase k j d m.1, e.beq_iff k j, e.beq_iff i k, e.beq_iff i j)

  pub erase-IsMap : (k : K) (d : Dict K V) → IsMap d → IsMap (erase k d)
  erase-IsMap k [] m = tt
  erase-IsMap k ((i, w) ∷ d) m =
      ground (arith, erase-IsMap k d m.1, lookup-erase k i d m.1, e.beq_iff k i, e.beq_iff i k)

  pub length-erase :
      (k : K) (d : Dict K V) (v : V) → lookup k d ≡ some v → length d ≡ suc (length (erase k d))
  length-erase k [] v h = cc
  length-erase k ((i, w) ∷ d) v h = ground (arith, length-erase k d v)

  -- A predicate that every stored value satisfies.
  abbrev pub AllValues {μ} : (V → Type μ) → Dict K V → Type μ
  AllValues P [] = Unit
  AllValues P ((k, v) ∷ d) = P v × AllValues P d

  pub AllValues-insert {μ} :
      (P : V → Type μ) (k : K) (v : V) (d : Dict K V)
      → AllValues P d
      → P v
      → AllValues P (insert k v d)
  AllValues-insert P k v [] h p = (p, tt)
  AllValues-insert P k v ((j, w) ∷ d) h p = elim (Bool-cases (e.beq j k)) [
    | inl same ↦ rw same (p, h.1)
    | inr other ↦ rw other (h.0, AllValues-insert P k v d h.1 p)
  ]

  pub AllValues-lookup {μ} :
      (P : V → Type μ) (k : K) (v : V) (d : Dict K V) → AllValues P d → lookup k d ≡ some v → P v
  AllValues-lookup P k v [] h found = cc
  AllValues-lookup P k v ((j, w) ∷ d) h found = elim (Bool-cases (e.beq j k)) [
    | inl same ↦ subst P (ground arith) h.0
    | inr other ↦ AllValues-lookup P k v d h.1 (ground arith)
  ]

  pub AllValues-get {μ} :
      (P : V → Type μ) (z : V) (k : K) (d : Dict K V) → AllValues P d → P z → P (get z k d)
  AllValues-get P z k [] h p = p
  AllValues-get P z k ((j, w) ∷ d) h p = elim (Bool-cases (e.beq j k)) [
    | inl same ↦ rw (same, get) h.0
    | inr other ↦ rw (other, get) (AllValues-get P z k d h.1 p)
  ]

  -- A map whose keys all stand in another, no larger one has the same keys.
  pub same_keys :
      (a b : Dict K V) (k : K)
      → IsMap a
      → ((j : K) → lookup j a ≢ none → lookup j b ≢ none)
      → length b ≤ length a
      → lookup k b ≢ none
      → lookup k a ≢ none
  same_keys [] [] k m sub le found = found
  same_keys [] (x ∷ b) k m sub le found = absurd (omega arith)
  same_keys ((j, w) ∷ a) b k m sub le found = elim (Option-cases (lookup j b)) [
    | inl missing ↦ absurd (sub j (λ n. ground (arith, beq_refl j)) missing)
    | inr (v, there) ↦ elim (Bool-cases (e.beq j k)) [
      | inl same ↦ rw same (λ n. cc)
      | inr other ↦ rw other (
          same_keys a (erase j b) k m.1
            (λ i inside gone.
              sub i (λ n. ground (arith, e.beq_iff j i))
                (ground (arith, lookup-erase_ne j i b, e.beq_iff j i)))
            (omega (arith, length-erase j b v there))
            (λ gone. found (ground (arith, lookup-erase_ne j k b, e.beq_iff j k))))
    ]
  ]

  -- A new key goes to the end of the list.
  pub insert_fresh :
      (k : K) (v : V) (d : Dict K V) → lookup k d ≡ none → insert k v d ≡ d ++ (k, v) ∷ []
  insert_fresh k v [] h = refl
  insert_fresh k v ((j, w) ∷ d) h = ground (arith, insert_fresh k v d)

  missing-append :
      (j k : K) (v : V) (c d : Dict K V) → lookup j (c ++ (k, v) ∷ d) ≡ none → e.beq j k ≡ false
  missing-append j k v [] d h = ground (arith, e.beq_iff j k, e.beq_iff k j)
  missing-append j k v ((i, w) ∷ c) d h = ground (arith, missing-append j k v c d)

  pub IsMap-fresh : (k : K) (v : V) (c d : Dict K V) → IsMap (c ++ (k, v) ∷ d) → lookup k c ≡ none
  IsMap-fresh k v [] d h = refl
  IsMap-fresh k v ((j, w) ∷ c) d h =
      ground (arith, IsMap-fresh k v c d h.1, missing-append j k v c d h.0)

  pub IsMap-tail : (c d : Dict K V) → IsMap (c ++ d) → IsMap d
  IsMap-tail [] d h = h
  IsMap-tail (x ∷ c) d h = IsMap-tail c d h.1
