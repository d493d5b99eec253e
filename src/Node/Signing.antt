-- ===== src/Node/Signing.antt =====
-- `signQuoteLocked` of core/node/intent.go, and the inventory of a node (inventory.go).
pub mod Authorized
use web4_v.Base.{
  ℕ, Bool, true, false, not, ◌||◌, Option, none, some, Result, ok, err, ◌>>=◌, ◌>>◌, fail_if,
  if◌then◌else◌, ◌==◌, length, quote_not_executable, not_quote_party, private_key_required,
  quote_timestamp_required, quote_not_accepted,
}
use web4_v.Base.Int.{ℤ, pos, ltb_ℤ}
use web4_v.Crypto.{Primitives}
use web4_v.Floats.{Floats}
use web4_v.Model.Types.{UnitId}
use web4_v.Model.Inventory.{add, sub_amount}
use web4_v.Node.{Quote, SignedTradeIntent}
use web4_v.Node.Intents.{intent_from_quote, sign_trade_intent}
use web4_v.Node.State.{Node, init, accept_quote}

module _ {F : Type 0} where
  -- The checks of a quote before the node is asked whether it accepts it.
  unfoldable pub signable : Node F → Quote F → Result (Unit {0})
  signable n q = do
    fail_if (not q.executable) quote_not_executable
    fail_if (not (n.id == q.seller || n.id == q.buyer)) not_quote_party
    fail_if (length n.private_key == 0) private_key_required
    fail_if (not (ltb_ℤ (pos 0) q.timestamp)) quote_timestamp_required

  -- The signature after the node was asked, with the node after it.
  abbrev pub signed_if :
      Primitives
      → Quote F
      → Node F
      → Bool × Node F
      → Result (Unit {0})
      → Result SignedTradeIntent × Node F
  signed_if c q n asked (err e) = (err e, n)
  signed_if c q n (true, next) (ok _) =
      (sign_trade_intent c n.private_key (intent_from_quote q n.id q.timestamp), next)
  signed_if c q n (false, next) (ok _) = (err quote_not_accepted, next)

  unfoldable pub sign_quote :
      Floats F → Primitives → Node F → Quote F → Result SignedTradeIntent × Node F
  sign_quote fl c n0 q = let n = init fl n0 in signed_if c q n (accept_quote fl n q) (signable n q)

  -- `AddInventory`: a panic is `none`.
  unfoldable pub add_inventory : Floats F → Node F → UnitId → ℤ → Option (Node F)
  add_inventory fl n0 unit amount =
      let n = init fl n0 in
      elim (add n.inventory n.id unit amount) [
        | none ↦ none
        | some next ↦ some (record n { inventory = next })
      ]

  unfoldable pub sub_inventory : Floats F → Node F → UnitId → ℤ → Result (Unit {0}) × Node F
  sub_inventory fl n0 unit amount =
      let n = init fl n0 in
      let (r, next) = sub_amount n.inventory n.id unit amount in (r, record n { inventory = next })
