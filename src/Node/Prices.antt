-- ===== src/Node/Prices.antt =====
-- The prices of a node (core/node/price.go): `ComputePrice`, `Price` and `RefreshPrices`. Units are
-- sorted by their bytes, which is the order of the numbers that they spell.
use web4_v.Base.{
  ◌≡◌, refl, ◌∙◌, Bool, true, false, ◌||◌, List, [], ◌∷◌, Option, none, some, if◌then◌else◌, ◌==◌,
  ==_iff, ltb, nat_eq, arith, Bool-cases, inl, inr,
}
use web4_v.Base.Dict.{Dict, lookup, has, lookup-insert}
use web4_v.Floats.{Floats}
use web4_v.Price.{PriceResult}
use web4_v.Model.Types.{UnitId}
use web4_v.Model.Inventory.{units_of}
use web4_v.Node.State.{Node, init, computed_price, compute_price_locked}

abbrev mentions : List UnitId → UnitId → Bool
mentions [] u = false
mentions (v ∷ vs) u = v == u || mentions vs u

-- A unit is put where it belongs in the sorted list, once.
unfoldable pub note_unit : UnitId → List UnitId → List UnitId
note_unit u [] = u ∷ []
note_unit u (v ∷ vs) =
    let rest = note_unit u vs in if u == v then v ∷ vs else if ltb u v then u ∷ v ∷ vs else v ∷ rest

-- A loop of `unitsLocked` over the keys of a map.
unfoldable pub note_keys {ℓ} : {A : Type ℓ} → Dict UnitId A → List UnitId → List UnitId
note_keys [] seen = seen
note_keys ((u, a) ∷ d) seen = note_keys d (note_unit u seen)

note_unit-mentions :
    (u w : UnitId) (vs : List UnitId) → mentions (note_unit u vs) w ≡ (u == w || mentions vs w)
unfolding note_unit
note_unit-mentions u w [] = refl
note_unit-mentions u w (v ∷ vs) =
    ground (arith, note_unit-mentions u w vs, ==_iff u w, ==_iff v w, ==_iff u v)

note_keys-mentions {ℓ} :
    {A : Type ℓ} (w : UnitId) (d : Dict UnitId A) (seen : List UnitId)
    → mentions (note_keys d seen) w ≡ (has w d || mentions seen w)
unfolding note_keys
note_keys-mentions w [] seen = refl
note_keys-mentions w ((u, a) ∷ d) seen =
    note_keys-mentions w d (note_unit u seen)
    ∙ ground (arith, note_unit-mentions u w seen, ==_iff u w)

module _ {F : Type 0} where
  -- `unitsLocked`
  unfoldable pub known_units : Node F → List UnitId
  known_units n =
      note_keys n.price_state (
        note_keys n.trade_history (note_keys n.features (note_keys (units_of n.inventory n.id) [])))

  -- Whether any of the four maps names the unit.
  abbrev pub knows : Node F → UnitId → Bool
  knows n u =
      has u n.price_state
      || has u n.trade_history
      || has u n.features
      || has u (units_of n.inventory n.id)

  known_units-mentions : (n : Node F) (u : UnitId) → mentions (known_units n) u ≡ knows n u
  unfolding known_units
  known_units-mentions n u = ground (
    arith,
    note_keys-mentions u n.price_state (
        note_keys n.trade_history
          (note_keys n.features (note_keys (units_of n.inventory n.id) []))),
    note_keys-mentions u n.trade_history
        (note_keys n.features (note_keys (units_of n.inventory n.id) [])),
    note_keys-mentions u n.features (note_keys (units_of n.inventory n.id) []),
    note_keys-mentions u (units_of n.inventory n.id) [],
  )

later_price :
    {A : Type 0} (u w : UnitId) (m : Bool) (f : UnitId → A) (before x : Option A)
    → x ≡ (if u == w then some (f u) else before)
    → (if m then some (f w) else x) ≡ (if u == w || m then some (f w) else before)
later_price u w true f before x h = ground arith
later_price u w false f before x h = elim (Bool-cases (u == w)) [
  | inl e ↦ rw (h, e, (==_iff u w).0 e) refl
  | inr e ↦ rw (h, e) refl
]

known_or_not :
    {A : Type 0} (l : Option A) (t f i m : Bool) (c : A)
    → m ≡ (elim l [ none ↦ false | some v ↦ true ] || t || f || i)
    → (if m then some c else l)
      ≡ (if elim l [ none ↦ false | some v ↦ true ] || t || f || i then some c else none)
known_or_not none t f i m c h = rw h refl
known_or_not (some v) t f i m c h = rw h (ground arith)

module _ {F : Type 0} (fl : Floats F) where
  unfoldable pub node_compute_price : Node F → UnitId → PriceResult F × Node F
  node_compute_price n unit = compute_price_locked fl (init fl n) unit

  -- `Price`
  unfoldable pub price_of : Node F → UnitId → F × Node F
  price_of n unit = elim (lookup unit n.price_state) [
    | some result ↦ (result.final_price, n)
    | none ↦
        let (result, next) = compute_price_locked fl (init fl n) unit in (result.final_price, next)
  ]

  -- The loop of `RefreshPrices`.
  unfoldable pub refresh : List UnitId → Node F → Node F
  refresh [] n = n
  refresh (u ∷ us) n = refresh us (compute_price_locked fl n u).1

  unfoldable pub refresh_prices : Node F → Node F
  refresh_prices n0 = let n = init fl n0 in refresh (known_units n) n

  refresh-price :
      (us : List UnitId) (n : Node F) (w : UnitId)
      → lookup w (refresh us n).price_state
        ≡ (if mentions us w then some (computed_price fl n w) else lookup w n.price_state)
  unfolding refresh compute_price_locked
  refresh-price [] n w = refl
  refresh-price (u ∷ us) n w =
      refresh-price us (compute_price_locked fl n u).1 w
      ∙ later_price u w (mentions us w) (computed_price fl n) (lookup w n.price_state) _
          (lookup-insert u w (computed_price fl n u) n.price_state)

  -- After `RefreshPrices`, every unit that one of the maps of the node names has the price that is
  -- computed from its features, trades and volumes, whatever price was remembered, and no other unit
  -- has a price.
  pub refresh_prices_lem :
      (n : Node F) (u : UnitId)
      → lookup u (refresh_prices n).price_state
        ≡ (if knows (init fl n) u then some (computed_price fl (init fl n) u) else none)
  unfolding refresh_prices
  refresh_prices_lem n u =
      let m = init fl n in
      refresh-price (known_units m) m u
      ∙ known_or_not (lookup u m.price_state) _ _ _ _ _ (known_units-mentions m u)
