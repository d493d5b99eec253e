-- ===== src/Node/Trade/Clean.antt =====
-- Steps of an execution (core/node/trade.go) that leave the books of the nodes as they are, however they
-- end or if they fail.
use web4_v.Base.{Result, ok, err, nat_eq}
use web4_v.Base.Dict.{IsMap}
use web4_v.Model.Types.{TxId}
use web4_v.Node.State.Quiet.{SameBooks, SameBooks-refl, SameBooks-trans}
use web4_v.Node.Trade.{World, reserve}
use web4_v.Node.Trade.Step.{Step, follow, ◌>>=◌, ◌>>◌, lift, current}

-- Both nodes have the books that they had.
pub record BothSame {F S : Type 0} (w v : World F S) : Type 0 where
  pub seller_same : SameBooks w.seller v.seller
  pub buyer_same : SameBooks w.buyer v.buyer

module _ {F S : Type 0} where
  pub BothSame-refl : (w : World F S) → BothSame w w
  BothSame-refl w = record {
    seller_same = SameBooks-refl w.seller;
    buyer_same = SameBooks-refl w.buyer;
  }

  pub BothSame-trans : (w v u : World F S) → BothSame w v → BothSame v u → BothSame w u
  BothSame-trans w v u h g = record {
    seller_same = SameBooks-trans w.seller v.seller u.seller h.seller_same g.seller_same;
    buyer_same = SameBooks-trans w.buyer v.buyer u.buyer h.buyer_same g.buyer_same;
  }

  abbrev pub Unchanged : {A : Type 0} → World F S → Result A × World F S → Type 0
  Unchanged w (ok a, v) = Unit
  Unchanged w (err e, v) = BothSame w v

  pub Unchanged-after :
      {B : Type 0} (w v : World F S) (r : Result B × World F S)
      → BothSame w v
      → Unchanged v r
      → Unchanged w r
  Unchanged-after w v (ok b, u) h g = tt
  Unchanged-after w v (err e, u) h g = BothSame-trans w v u h g

-- Both nodes, with the trade reserved.
abbrev pub reserved : {F S : Type 0} → TxId → World F S → World F S
reserved id w = record w { seller = reserve id w.seller; buyer = reserve id w.buyer }

-- Go's maps of the two nodes name no trade twice.
abbrev pub AreMaps : {F S : Type 0} → World F S → Type 0
AreMaps w = IsMap w.seller.executed_trades × IsMap w.buyer.executed_trades

-- A step that changes no books, however it ends.
pub record Keeps {F S A : Type 0} (step : Step F S A) : Type 0 where
  pub keeps : (w : World F S) → BothSame w (step w).1

-- A step that changes no books if it fails.
pub record FailsClean {F S A : Type 0} (step : Step F S A) : Type 0 where
  pub clean : (w : World F S) → AreMaps w → Unchanged w (step w)

module _ {F S : Type 0} where
  pub BothSame-AreMaps : (w v : World F S) → BothSame w v → AreMaps w → AreMaps v
  BothSame-AreMaps w v h maps =
      (h.seller_same.distinct_kept maps.0, h.buyer_same.distinct_kept maps.1)

  pub follow-Unchanged :
      {A B : Type 0} (w : World F S) (r : Result A × World F S) (next : A → Step F S B)
      → AreMaps w
      → BothSame w r.1
      → ((a : A) → FailsClean (next a))
      → Unchanged w (follow r next)
  follow-Unchanged w (err e, v) next maps h k = h
  follow-Unchanged w (ok a, v) next maps h k =
      Unchanged-after w v (next a v) h ((k a).clean v (BothSame-AreMaps w v h maps))

  pub >>=-FailsClean :
      {A B : Type 0} {step : Step F S A} {next : A → Step F S B}
      → Keeps step
      → ((a : A) → FailsClean (next a))
      → FailsClean (step >>= next)
  >>=-FailsClean {step = step} {next} h k = record {
    clean = λ w maps. follow-Unchanged w (step w) next maps (h.keeps w) k;
  }

  pub >>-FailsClean :
      {B : Type 0} {step : Step F S (Unit {0})} {next : Step F S B}
      → Keeps step
      → FailsClean next
      → FailsClean (step >> next)
  >>-FailsClean {step = step} {next} h k = record {
    clean = λ w maps. follow-Unchanged w (step w) (λ _. next) maps (h.keeps w) (λ _. k);
  }

  pub lift-Keeps : {A : Type 0} {r : Result A} → Keeps (lift {F = F} {S = S} r)
  lift-Keeps = record { keeps = λ w. BothSame-refl w }

  pub current-Keeps : Keeps (current {F = F} {S = S})
  current-Keeps = record { keeps = λ w. BothSame-refl w }
