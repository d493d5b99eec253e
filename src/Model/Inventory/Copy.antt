-- ===== src/Model/Inventory/Copy.antt =====
-- `Copy` of core/model/protocol.go rebuilds the two levels of maps.
use web4_v.Base.{◌≡◌, ap, ◌∙◌, [], ◌∷◌, ◌++◌, nat_eq}
use web4_v.Base.Dict.{Dict, IsMap, insert_fresh, IsMap-fresh, AllValues}
use web4_v.Model.Types.{NodeId}
use web4_v.Model.Inventory.{InventoryState, Units, copy_units, copy_nodes, copy}
use web4_v.Model.Inventory.Holdings.{IsValid, AreUnits}
use mathlib.Core.List.{append_assoc, append-nil}

copy_units-append : (out units : Units) → IsMap (out ++ units) → copy_units out units ≡ out ++ units
unfolding copy_units
copy_units-append out [] h = rw append-nil
copy_units-append out ((u, a) ∷ units) h =
    let regroup : (out ++ (u, a) ∷ []) ++ units ≡ out ++ ((u, a) ∷ units) =
      append_assoc out ((u, a) ∷ []) units in
    rw (insert_fresh u a out (IsMap-fresh u a out units h))
      (copy_units-append (out ++ (u, a) ∷ []) units (rw regroup h) ∙ regroup)

copy_nodes-append :
    (out nodes : Dict NodeId Units)
    → IsMap (out ++ nodes)
    → AllValues AreUnits nodes
    → copy_nodes out nodes ≡ out ++ nodes
unfolding copy_nodes
copy_nodes-append out [] h v = rw append-nil
copy_nodes-append out ((n, units) ∷ nodes) h v =
    let regroup : (out ++ (n, units) ∷ []) ++ nodes ≡ out ++ ((n, units) ∷ nodes) =
      append_assoc out ((n, units) ∷ []) nodes in
    rw
      (copy_units-append [] units v.0.0, insert_fresh n units out (IsMap-fresh n units out nodes h))
      (copy_nodes-append (out ++ (n, units) ∷ []) nodes (rw regroup h) v.1 ∙ regroup)

-- The copy of a well-formed inventory holds the same nodes, units and amounts.
pub copy_lem : (s : InventoryState) → IsValid s → copy s ≡ s
unfolding copy
copy_lem s v = ap (λ h. record { holdings = h }) (copy_nodes-append [] s.holdings v.nodes v.amounts)
