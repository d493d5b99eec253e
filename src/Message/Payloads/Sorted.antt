-- ===== src/Message/Payloads/Sorted.antt =====
-- `sortedStrings` of core/message/encode.go leaves what is in order as it is.
use web4_v.Base.{
  ◌≡◌, refl, ◌∙◌, ap, Bool, true, false, Bool-cases, inl, inr, List, [], ◌∷◌, nat_eq, if◌then◌else◌,
  arith,
}
use web4_v.Canonical.{string_lt}
use web4_v.Model.Types.{Bytes}
use web4_v.Message.Payloads.{Payload, insert_string, sorted_strings, normalized, hello}

string_lt_asym : (a b : Bytes) → string_lt a b ≡ true → string_lt b a ≡ false
unfolding string_lt
string_lt_asym [] [] h = refl
string_lt_asym [] (b ∷ bs) h = refl
string_lt_asym (a ∷ as') [] h = absurd (cc)
string_lt_asym (a ∷ as') (b ∷ bs) h = let rest = string_lt_asym as' bs in ground arith

-- Each string is not above the next.
IsOrdered : List Bytes → Type 0
IsOrdered [] = Unit
IsOrdered (s ∷ []) = Unit
IsOrdered (s ∷ t ∷ ts) = (string_lt t s ≡ false) × IsOrdered (t ∷ ts)

cons-IsOrdered :
    (b : Bool) (t u s : Bytes) (us vs : List Bytes)
    → string_lt u t ≡ false
    → string_lt s t ≡ false
    → IsOrdered (if b then u ∷ us else s ∷ vs)
    → IsOrdered (t ∷ (if b then u ∷ us else s ∷ vs))
unfolding IsOrdered
cons-IsOrdered true t u s us vs above other h = (above, h)
cons-IsOrdered false t u s us vs above other h = (other, h)

insert-IsOrdered : (s : Bytes) (ts : List Bytes) → IsOrdered ts → IsOrdered (insert_string s ts)
unfolding insert_string IsOrdered
insert-IsOrdered s [] h = tt
insert-IsOrdered s (t ∷ []) h = elim (Bool-cases (string_lt t s)) [
  | inl e ↦ rw e (string_lt_asym t s e, tt)
  | inr e ↦ rw e (e, tt)
]
insert-IsOrdered s (t ∷ u ∷ us) h =
    let rest = insert-IsOrdered s (u ∷ us) h.1 in
    elim (Bool-cases (string_lt t s)) [
      | inl e ↦ rw e (
          cons-IsOrdered (string_lt u s) t u s (insert_string s us) (u ∷ us) h.0
            (string_lt_asym t s e) rest)
      | inr e ↦ rw e (e, h)
    ]

sorted-IsOrdered : (ss : List Bytes) → IsOrdered (sorted_strings ss)
unfolding sorted_strings IsOrdered
sorted-IsOrdered [] = tt
sorted-IsOrdered (s ∷ ss) = insert-IsOrdered s (sorted_strings ss) (sorted-IsOrdered ss)

sorted_strings-IsOrdered : (ss : List Bytes) → IsOrdered ss → sorted_strings ss ≡ ss
unfolding sorted_strings insert_string IsOrdered
sorted_strings-IsOrdered [] h = refl
sorted_strings-IsOrdered (s ∷ []) h = refl
sorted_strings-IsOrdered (s ∷ t ∷ ts) h =
    ap (insert_string s) (sorted_strings-IsOrdered (t ∷ ts) h.1) ∙ rw h.0 refl

pub normalized_idem : {F : Type 0} (p : Payload F) → normalized (normalized p) ≡ normalized p
normalized_idem (hello p) =
    ap (λ fs. hello (record p { features = fs }))
      (sorted_strings-IsOrdered (sorted_strings p.features) (sorted-IsOrdered p.features))
normalized_idem p = refl
