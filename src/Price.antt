-- ===== src/Price.antt =====
-- core/price: the price of a unit, from its features, the trades seen of it and the time since. The
-- floats are the parameter `Floats`.
pub mod Market
use web4_v.Base.{ℕ, Bool, true, false, not, ◌&&◌, ◌||◌, List, [], ◌∷◌, if◌then◌else◌}
use web4_v.Base.Int.{ℤ, pos, ◌-ℤ◌, ltb_ℤ, wrap64}
use web4_v.Floats.{Floats}
use web4_v.Model.Amount.Scaled.{to_float}

pub record AssetFeatures (F : Type 0) : Type 0 where
  pub cost : F
  pub age : F
  pub stability : F

pub record FeatureWeights (F : Type 0) : Type 0 where
  pub cost : F
  pub age : F
  pub stability : F

pub record PriceConfig (F : Type 0) : Type 0 where
  pub base_price : F
  pub weights : FeatureWeights F
  pub volume_threshold : ℤ
  pub decay_k : F

pub record PriceResult (F : Type 0) : Type 0 where
  pub feature_score : F
  pub seed_price : F
  pub market_price : F
  pub has_market_price : Bool
  pub lambda : F
  pub final_price : F

pub record TradeObservation (F : Type 0) : Type 0 where
  pub price : F
  pub volume : ℤ
  pub weight : F
  pub time_unix : ℤ

module _ {F : Type 0} (fl : Floats F) where
  abbrev nought : F
  nought = fl.of_int (pos 0)

  abbrev unity : F
  unity = fl.of_int (pos 1)

  -- `clamp01`
  unfoldable pub clamp01 : F → F
  clamp01 v = if fl.is_nan v || fl.lt v nought then nought else if fl.lt unity v then unity else v

  -- `nonNegative`
  unfoldable pub non_negative : F → F
  non_negative v =
      if fl.is_nan v || fl.lt v nought then nought else if fl.is_pos_inf v then fl.max_float else v

  -- `Normalize`, after its weights are clamped.
  abbrev scaled_weights : F → F → F → FeatureWeights F
  scaled_weights cost age stability =
      let total = fl.plus (fl.plus cost age) stability in
      let third = fl.over unity (fl.of_int (pos 3)) in
      if fl.eq total nought
      then record { cost = third; age = third; stability = third }
      else record {
        cost = fl.over cost total;
        age = fl.over age total;
        stability = fl.over stability total;
      }

  unfoldable pub normalize : FeatureWeights F → FeatureWeights F
  normalize w = scaled_weights (non_negative w.cost) (non_negative w.age) (non_negative w.stability)

  unfoldable pub feature_score_of : AssetFeatures F → FeatureWeights F → F
  feature_score_of features weights =
      let w = normalize weights in
      clamp01 (
        fl.plus
          (fl.plus (fl.times (clamp01 features.cost) w.cost)
            (fl.times (clamp01 features.age) w.age))
          (fl.times (clamp01 features.stability) w.stability))

  unfoldable pub seed_price_of : F → F → F
  seed_price_of base_price score = fl.times (non_negative base_price) (clamp01 score)

  unfoldable pub blend_price : F → F → F → F
  blend_price seed market lambda =
      let l = clamp01 lambda in
      fl.plus (fl.times (fl.minus unity l) (non_negative seed)) (fl.times l (non_negative market))

  unfoldable pub apply_decay : F → F → F → F
  apply_decay price k delta_seconds =
      let p = non_negative price in
      let rate = non_negative k in
      let delta = non_negative delta_seconds in
      if fl.eq p nought || fl.eq rate nought || fl.eq delta nought
      then p
      else fl.times p (fl.exp (fl.times (fl.negate rate) delta))

  abbrev pub valid_trade_observation : TradeObservation F → Bool
  valid_trade_observation t =
      fl.le nought t.price && ltb_ℤ (pos 0) t.volume && fl.lt nought t.weight

  -- The loop of `WeightedVWAP`, with its numerator and denominator.
  unfoldable pub weigh : F → F → List (TradeObservation F) → F × F
  weigh numerator denominator [] = (numerator, denominator)
  weigh numerator denominator (t ∷ ts) =
      let weighted = fl.times (to_float fl t.volume) t.weight in
      let counts = valid_trade_observation t in
      weigh
        (if counts then fl.plus numerator (fl.times (non_negative t.price) weighted) else numerator)
        (if counts then fl.plus denominator weighted else denominator) ts

  unfoldable pub weighted_vwap : List (TradeObservation F) → F × Bool
  weighted_vwap trades =
      let (numerator, denominator) = weigh nought nought trades in
      if fl.eq denominator nought then (nought, false) else (fl.over numerator denominator, true)

  unfoldable pub volume_lambda : ℤ → ℤ → F
  volume_lambda settled threshold =
      if not (ltb_ℤ (pos 0) settled) || not (ltb_ℤ (pos 0) threshold)
      then nought
      else if not (ltb_ℤ settled threshold)
      then unity
      else fl.over (fl.of_int settled) (fl.of_int threshold)

  unfoldable pub compute_price :
      AssetFeatures F → List (TradeObservation F) → ℤ → ℤ → ℤ → PriceConfig F → PriceResult F
  compute_price features trades settled_volume last_trade_unix now_unix cfg =
      let score = feature_score_of features cfg.weights in
      let seed = seed_price_of cfg.base_price score in
      let (market, has_market) = weighted_vwap trades in
      let lambda =
        if has_market then volume_lambda settled_volume cfg.volume_threshold else nought in
      let price = if has_market then blend_price seed market lambda else seed in
      record {
        feature_score = score;
        seed_price = seed;
        market_price = market;
        has_market_price = has_market;
        lambda = lambda;
        final_price =
            if ltb_ℤ last_trade_unix now_unix
            then apply_decay price cfg.decay_k (fl.of_int (wrap64 (now_unix -ℤ last_trade_unix)))
            else price;
      }
