-- ===== src/Handler/Shadows/Valid.antt =====
-- The shadow of a peer (core/handler/handler.go) has a well-formed inventory.
use web4_v.Base.{
  ℕ, List, ◌≡◌, refl, sym, ◌∙◌, ap, Option, none, some, Result, ok, err, ◌==◌, nat_eq, Bool-cases,
  inl, inr, arith,
}
use mathlib.Core.Path.{subst}
use web4_v.Base.Int.{ℤ, pos, negsuc, IsI64, wrap64, ltb_ℤ}
use web4_v.Floats.{Floats}
use web4_v.Model.Types.{UnitId, NodeId}
use web4_v.Model.Inventory.{InventoryState, add, add_checked}
use web4_v.Model.Inventory.Holdings.{IsValid}
use web4_v.Model.Inventory.Effects.{add_checked_effect}
use web4_v.Node.{Quote, AuthorizedTradeTx}
use web4_v.Node.State.{Node, init, new_blank_node, compute_price_locked}
use web4_v.Node.State.Quiet.{init-SameBooks}
use web4_v.Node.Prices.{node_compute_price}
use web4_v.Node.Signing.{add_inventory}
use web4_v.Handler.Shadows.{
  configure_unit, peer_shadow, execution_shadow, shadow_amount, times_ten, tenth_of_max,
}

wrap64-IsI64 : (a : ℤ) → IsI64 (wrap64 a)
unfolding wrap64
wrap64-IsI64 a = ground arith

times_ten-IsI64 : (a : ℤ) → IsI64 (times_ten a)
times_ten-IsI64 (pos n) = wrap64-IsI64 _
times_ten-IsI64 (negsuc n) = wrap64-IsI64 _

shadow_amount-IsI64 : (a : ℤ) → IsI64 a → IsI64 (shadow_amount a)
shadow_amount-IsI64 a h = elim (Bool-cases (ltb_ℤ tenth_of_max a)) [
  | inl large ↦ rw (shadow_amount, large) h
  | inr small ↦ rw (shadow_amount, small) (times_ten-IsI64 a)
]

add-IsValid :
    (s : InventoryState) (n : NodeId) (u : UnitId) (a : ℤ) (t : InventoryState)
    → IsI64 a
    → IsValid s
    → add s n u a ≡ some t
    → IsValid t
unfolding add
add-IsValid s n u a t fits valid e =
    subst IsValid (same (add_checked s n u a) e) (elim (add_checked_effect s n u a fits valid) [
      | inl good ↦ good.2.1.0
      | inr (inl over) ↦ over.2.1.0
      | inr (inr bad) ↦ bad.1.1.0
    ])
  where
    same :
        (r : Result (Unit {0}) × InventoryState)
        → elim r.0 [ ok _ ↦ some r.1 | err _ ↦ none ] ≡ some t
        → r.1 ≡ t
    same (ok _, z) h = cc
    same (err _, z) h = cc

module _ {F : Type 0} (fl : Floats F) where
  configure_unit-inventory :
      (n : Node F) (u : UnitId) → (configure_unit fl n u).inventory ≡ n.inventory
  unfolding configure_unit node_compute_price compute_price_locked
  configure_unit-inventory n u = (init-SameBooks fl _).inventory_kept

  add_inventory-IsValid :
      (n : Node F) (u : UnitId) (a : ℤ) (m : Node F)
      → IsI64 a
      → IsValid n.inventory
      → add_inventory fl n u a ≡ some m
      → IsValid m.inventory
  unfolding add_inventory
  add_inventory-IsValid n u a m fits valid e =
      go (add (init fl n).inventory (init fl n).id u a) refl e
    where
      go :
          (o : Option InventoryState)
          → o ≡ add (init fl n).inventory (init fl n).id u a
          → elim o [ none ↦ none | some next ↦ some (record (init fl n) { inventory = next }) ]
            ≡ some m
          → IsValid m.inventory
      go none is h = absurd (cc)
      go (some next) is h =
          subst IsValid (ap (λ z. elim z [ none ↦ next | some k ↦ k.inventory ]) h) (
            add-IsValid (init fl n).inventory (init fl n).id u a next fits
              (subst IsValid (sym (init-SameBooks fl n).inventory_kept) valid) (sym is))

  peer_shadow-IsValid :
      (now : ℤ) (id : NodeId) (u v : UnitId) (a : ℤ) (n : Node F)
      → IsI64 a
      → peer_shadow fl now id u v a ≡ some n
      → IsValid n.inventory
  unfolding peer_shadow
  peer_shadow-IsValid now id u v a n fits e =
      let bare = new_blank_node fl id now in
      let first = configure_unit fl bare u in
      let same = configure_unit-inventory first v ∙ configure_unit-inventory bare u in
      add_inventory-IsValid (configure_unit fl first v) u (shadow_amount a) n
        (shadow_amount-IsI64 a fits)
        (subst IsValid (sym same) (record { nodes = tt; amounts = tt })) e

  pub execution_shadow-IsValid :
      (n : Node F) (q : Quote F) (auth : AuthorizedTradeTx) (peer : Node F)
      → IsI64 q.sell_amount
      → IsI64 q.buy_amount
      → execution_shadow fl n q auth ≡ some peer
      → IsValid peer.inventory
  unfolding execution_shadow
  execution_shadow-IsValid n q auth peer hs hb e = elim (Bool-cases (n.id == q.seller)) [
    | inl seller ↦
        keyed (peer_shadow fl n.now_unix q.buyer q.buy_unit q.sell_unit q.buy_amount) _
          (λ k h. peer_shadow-IsValid n.now_unix q.buyer q.buy_unit q.sell_unit q.buy_amount k hb h)
          (rw seller at e)
    | inr buyer ↦
        keyed (peer_shadow fl n.now_unix q.seller q.sell_unit q.buy_unit q.sell_amount) _
          (λ k h.
            peer_shadow-IsValid n.now_unix q.seller q.sell_unit q.buy_unit q.sell_amount k hs h)
          (rw buyer at e)
  ]
    where
      keyed :
          (o : Option (Node F)) (key : List ℕ)
          → ((k : Node F) → o ≡ some k → IsValid k.inventory)
          → elim o [ none ↦ none | some k ↦ some (record k { public_key = key }) ] ≡ some peer
          → IsValid peer.inventory
      keyed none key valid h = absurd (cc)
      keyed (some k) key valid h =
          subst IsValid (ap (λ z. elim z [ none ↦ k.inventory | some m ↦ m.inventory ]) h)
            (valid k refl)
