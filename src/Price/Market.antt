-- ===== src/Price/Market.antt =====
-- The price of a unit of which no usable trade was seen (core/price/model.go and vwap.go).
use web4_v.Base.{◌≡◌, refl, true, false, List, [], ◌∷◌, All, if◌then◌else◌}
use web4_v.Base.Int.{ℤ, pos, ◌-ℤ◌, ltb_ℤ, wrap64}
use web4_v.Floats.{Floats}
use web4_v.Price.{
  AssetFeatures, PriceConfig, TradeObservation, valid_trade_observation, weigh, weighted_vwap,
  compute_price, feature_score_of, seed_price_of, apply_decay,
}

module _ {F : Type 0} (fl : Floats F) where
  abbrev pub IsIgnored : TradeObservation F → Type 0
  IsIgnored t = valid_trade_observation fl t ≡ false

  weigh_ignored :
      (n d : F) (ts : List (TradeObservation F)) → All IsIgnored ts → weigh fl n d ts ≡ (n, d)
  unfolding weigh
  weigh_ignored n d [] h = refl
  weigh_ignored n d (t ∷ ts) h = rw h.0 (weigh_ignored n d ts h.1)

  -- With no observation of a price of zero or more, a positive volume and a positive weight,
  -- `ComputePrice` finds no market price, gives the market no weight, and returns the seed price,
  -- decayed over the time since the last trade if that lies in the past, if zero equals itself.
  pub compute_price_no_market :
      (features : AssetFeatures F) (trades : List (TradeObservation F)) (volume last now : ℤ)
      (cfg : PriceConfig F)
      → fl.eq (fl.of_int (pos 0)) (fl.of_int (pos 0)) ≡ true
      → All IsIgnored trades
      → let result = compute_price fl features trades volume last now cfg in
        let score = feature_score_of fl features cfg.weights in
        let seed = seed_price_of fl cfg.base_price score in
        (result.has_market_price ≡ false)
        × (result.lambda ≡ fl.of_int (pos 0))
        × (result.final_price ≡ (
            if ltb_ℤ last now
            then apply_decay fl seed cfg.decay_k (fl.of_int (wrap64 (now -ℤ last)))
            else seed))
  unfolding compute_price weighted_vwap
  compute_price_no_market features trades volume last now cfg zero_eq h =
      let none_count = weigh_ignored (fl.of_int (pos 0)) (fl.of_int (pos 0)) trades h in
      rw (none_count, zero_eq) (refl, refl, refl)
