-- ===== src/Model/Issue/Signed.antt =====
-- `NewIssueTx` (core/model/issue.go) against `ValidateIssueTx` (core/model/validate.go).
use web4_v.Base.{
  ℕ, ◌≡◌, refl, sym, ap, ◌∙◌, [], ◌∷◌, true, false, not, ok, fail_if, ◌==◌, ==_refl, arith,
  >>=-eq-ok, >>-eq-ok, ok-inj, fail_if-false, fail_if-not-true, length, ◌||◌, unit_name_required,
  amount_not_positive, owner_required,
}
use web4_v.Base.Int.{ℤ, pos, eqb_ℤ}
use web4_v.Crypto.{Primitives, IsSound, IsKey, sign, verify, verify-sign}
use web4_v.Model.Types.{Bytes, NodeId, Value, IssueTx, is_zero_node_id}
use web4_v.Model.Amount.{valid_amount}
use web4_v.Model.Ids.{
  value_id_for, issue_tx_id, issue_preimage, new_unit_id, node_id_from_public_key,
  public_key_from_private, public_key,
}
use web4_v.Model.Ids.Preimages.{value_id_for-body}
use web4_v.Model.Ids.Arrays.{of_bytes, array32-of_bytes}
use web4_v.Model.Issue.{issue_output, issue_draft, sign_issue, new_issue_tx, validate_issue_tx}

-- The output that the fields of an issuance describe.
abbrev issued_value : ℕ → IssueTx → Value
issued_value id tx = record {
  id = id;
  unit = tx.unit;
  amount = tx.amount;
  owner = tx.owner;
  created_at = pos 0;
  issuer = tx.issuer;
  expiry_unix = tx.expiry_unix;
  depth = 0;
}

described :
    (tx : IssueTx) (out : Value)
    → out ≡ issued_value out.id tx
    → (not (eqb_ℤ out.amount tx.amount)
        || not (out.unit == tx.unit)
        || not (out.owner == tx.owner)
        || not (out.issuer == tx.issuer)
        || not (eqb_ℤ out.expiry_unix tx.expiry_unix)
        || not (out.depth == 0))
      ≡ false
described tx out body =
    rw
      (
        ap (λ v. v.amount) body,
        ap (λ v. v.unit) body,
        ap (λ v. v.owner) body,
        ap (λ v. v.issuer) body,
        ap (λ v. v.expiry_unix) body,
        ap (λ v. v.depth) body,
      )
      (simp ==_refl)

module _ (c : Primitives) (s : IsSound c) where
  -- The public key that a node ID holds is the one that it was made of.
  pub public_key-node_id :
      (priv key : Bytes) (id : NodeId)
      → public_key_from_private c priv ≡ ok key
      → node_id_from_public_key key ≡ ok id
      → (public_key id ≡ key) × (key ≡ c.public_part priv)
  unfolding public_key_from_private node_id_from_public_key
  public_key-node_id priv key id ek ei =
      let same : key ≡ c.public_part priv = ground arith in
      let number : id ≡ of_bytes key = ground arith in
      let size : length key ≡ 32 = ground arith in
      (rw number (array32-of_bytes key (rw same (s.public_bytes priv)) size), same)

  -- A signed preimage stands for all of an issuance but its ID and signature.
  issue_preimage-body :
      (tx : IssueTx) (id : ℕ) (sig : Bytes)
      → issue_preimage (record tx { id = id; signature = sig }) ≡ issue_preimage tx
  unfolding issue_preimage
  issue_preimage-body tx id sig = refl

  issue_tx_id-body :
      (tx : IssueTx) (id : ℕ) (sig : Bytes)
      → issue_tx_id c (record tx { id = id; signature = sig }) ≡ issue_tx_id c tx
  unfolding issue_tx_id
  issue_tx_id-body tx id sig = rw (issue_preimage-body tx id sig)

  sign_issue-parts :
      (priv : Bytes) (draft tx : IssueTx) (blank output : Value)
      → sign_issue c priv draft blank ≡ ok (tx, output)
      → (id : ℕ) × (preimage : Bytes) × (sig : Bytes) × (issue_tx_id c draft ≡ ok id)
        × (issue_preimage (record draft { id = id }) ≡ ok preimage)
        × (sign c priv preimage ≡ ok sig)
        × (tx ≡ record draft { id = id; signature = sig })
        × (output ≡ blank)
  unfolding sign_issue
  sign_issue-parts priv draft tx blank output e =
      let (id, et, e1) = >>=-eq-ok (issue_tx_id c draft) _ e in
      let (preimage, ep, e2) = >>=-eq-ok (issue_preimage (record draft { id = id })) _ e1 in
      let (sig, es, e3) = >>=-eq-ok (sign c priv preimage) _ e2 in
      let pair = ok-inj (record draft { id = id; signature = sig }, blank) (tx, output) e3 in
      (id, preimage, sig, et, ep, es, sym (ap (λ p. p.0) pair), sym (ap (λ p. p.1) pair))

  -- What `NewIssueTx` has found when it succeeds.
  record Issued (priv owner_key unit_name : Bytes) (amount expiry : ℤ) (tx : IssueTx)
      (output : Value) : Type 0 where
    issuer_key : Bytes
    issuer : ℕ
    owner : ℕ
    unit : ℕ
    value_id : ℕ
    has_name : (length unit_name == 0) ≡ false
    positive : valid_amount amount ≡ true
    key : public_key_from_private c priv ≡ ok issuer_key
    issuer_id : node_id_from_public_key issuer_key ≡ ok issuer
    has_owner : is_zero_node_id owner ≡ false
    unit_id : new_unit_id c issuer_key unit_name ≡ ok unit
    output_id : value_id_for c (issue_output unit amount owner issuer expiry) ≡ ok value_id
    signed :
        let out = issue_output unit amount owner issuer expiry in
        let out' : Value = record out { id = value_id } in
        sign_issue c priv (issue_draft unit_name unit amount owner issuer expiry out') out'
        ≡ ok (tx, output)

  new_issue_tx-Issued :
      (priv owner_key unit_name : Bytes) (amount expiry : ℤ) (tx : IssueTx) (output : Value)
      → new_issue_tx c priv owner_key unit_name amount expiry ≡ ok (tx, output)
      → Issued priv owner_key unit_name amount expiry tx output
  unfolding new_issue_tx
  new_issue_tx-Issued priv owner_key unit_name amount expiry tx output e =
      let (named, e1) = >>-eq-ok (fail_if (length unit_name == 0) unit_name_required) _ e in
      let (positive, e2) =
        >>-eq-ok (fail_if (not (valid_amount amount)) amount_not_positive) _ e1 in
      let (issuer_key, ek, e3) = >>=-eq-ok (public_key_from_private c priv) _ e2 in
      let (issuer, ei, e4) = >>=-eq-ok (node_id_from_public_key issuer_key) _ e3 in
      let (owner, eo, e5) = >>=-eq-ok (node_id_from_public_key owner_key) _ e4 in
      let (owned, e6) = >>-eq-ok (fail_if (is_zero_node_id owner) owner_required) _ e5 in
      let (unit, eu, e7) = >>=-eq-ok (new_unit_id c issuer_key unit_name) _ e6 in
      let (value_id, ev, e8) =
        >>=-eq-ok (value_id_for c (issue_output unit amount owner issuer expiry)) _ e7 in
      record {
        issuer_key = issuer_key;
        issuer = issuer;
        owner = owner;
        unit = unit;
        value_id = value_id;
        has_name = fail_if-false (length unit_name == 0) unit_name_required named;
        positive = fail_if-not-true (valid_amount amount) amount_not_positive positive;
        key = ek;
        issuer_id = ei;
        has_owner = fail_if-false (is_zero_node_id owner) owner_required owned;
        unit_id = eu;
        output_id = ev;
        signed = e8;
      }

  validate-finished :
      (tx : IssueTx) (out : Value) (key preimage : Bytes)
      → (length tx.unit_name == 0) ≡ false
      → valid_amount tx.amount ≡ true
      → is_zero_node_id tx.owner ≡ false
      → public_key tx.issuer ≡ key
      → new_unit_id c key tx.unit_name ≡ ok tx.unit
      → issue_tx_id c tx ≡ ok tx.id
      → issue_preimage tx ≡ ok preimage
      → verify c key preimage tx.signature ≡ true
      → tx.outputs ≡ out ∷ []
      → value_id_for c out ≡ ok out.id
      → out ≡ issued_value out.id tx
      → validate_issue_tx c tx out ≡ ok tt
  unfolding validate_issue_tx
  validate-finished tx out key preimage name positive owner same_key unit id signed accepted outs
        value body =
      let out_owner : out.owner ≡ tx.owner = ap (λ v. v.owner) body in
      let out_owned : is_zero_node_id out.owner ≡ false = rw out_owner owner in
      rw
        (
          name,
          positive,
          owner,
          same_key,
          unit,
          ==_refl tx.unit,
          id,
          ==_refl tx.id,
          signed,
          accepted,
          outs,
        )
        (simp (out_owned, value, ==_refl, described tx out body))

  -- If the primitives do what they document (`IsSound`), `ValidateIssueTx` accepts whatever
  -- `NewIssueTx` creates and signs with a key that is made from a seed, together with its output.
  pub validate-new_issue_tx :
      (priv owner_key unit_name : Bytes) (amount expiry : ℤ) (tx : IssueTx) (output : Value)
      → IsKey c priv
      → new_issue_tx c priv owner_key unit_name amount expiry ≡ ok (tx, output)
      → validate_issue_tx c tx output ≡ ok tt
  validate-new_issue_tx priv owner_key unit_name amount expiry tx output k e =
      let i = new_issue_tx-Issued priv owner_key unit_name amount expiry tx output e in
      let blank : Value = issue_output i.unit amount i.owner i.issuer expiry in
      let out : Value = record blank { id = i.value_id } in
      let draft : IssueTx = issue_draft unit_name i.unit amount i.owner i.issuer expiry out in
      let (id, preimage, sig, et, ep, es, same_tx, same_out) =
        sign_issue-parts priv draft tx out output i.signed in
      let (key, part) = public_key-node_id priv i.issuer_key i.issuer i.key i.issuer_id in
      rw (same_tx, same_out)
        (validate-finished (record draft { id = id; signature = sig }) out i.issuer_key preimage
          i.has_name i.positive i.has_owner key i.unit_id (issue_tx_id-body draft id sig ∙ et)
          (issue_preimage-body draft id sig ∙ sym (issue_preimage-body draft id []) ∙ ep)
          (rw part (verify-sign c s priv preimage sig k es)) refl
          (value_id_for-body c blank i.value_id ∙ i.output_id) refl)
