-- ===== src/Handler/Session/Fresh.antt =====
-- What `PruneExpired` (core/handler/session.go) leaves of the pending quotes.
use web4_v.Base.{
  ◌≡◌, ◌∙◌, sym, false, [], ◌∷◌, none, some, if◌then◌else◌, ◌==◌, nat_eq, Bool-cases, inl, inr,
}
use mathlib.Core.Path.{subst}
use web4_v.Base.Int.{ℤ}
use web4_v.Base.Dict.{lookup-erase, erase-IsMap, Dict, lookup, erase, IsMap}
use web4_v.Model.Types.{TxId}
use web4_v.Handler.Session.{
  Session, QuoteResponse, QuoteRequest, is_expired, clear_negotiation, clear_quotes_of,
  clear_request, prune_requests, prune_quotes, prune_expired,
}

some-inj : {A : Type 0} (a b : A) → some a ≡ some b → a ≡ b
some-inj a b e = cc

module _ {Float : Type 0} where
  abbrev QuoteMap : Session Float → Type 0
  QuoteMap s = IsMap s.pending_quotes

  clear_negotiation-QuoteMap :
      (s : Session Float) (id : TxId) (q : QuoteResponse Float) (auth : TxId)
      → QuoteMap s
      → QuoteMap (clear_negotiation s id q auth)
  unfolding clear_negotiation
  clear_negotiation-QuoteMap s id q auth m = erase-IsMap id s.pending_quotes m

  clear_quotes_of-QuoteMap :
      (r : TxId) (qs : Dict TxId (QuoteResponse Float)) (s : Session Float)
      → QuoteMap s
      → QuoteMap (clear_quotes_of r qs s)
  unfolding clear_quotes_of
  clear_quotes_of-QuoteMap r [] s m = m
  clear_quotes_of-QuoteMap r ((id, q) ∷ qs) s m = elim (Bool-cases (q.request_id == r)) [
    | inl same ↦
        rw (clear_quotes_of, same)
          (clear_quotes_of-QuoteMap r qs (clear_negotiation s id q 0)
            (clear_negotiation-QuoteMap s id q 0 m))
    | inr other ↦ rw (clear_quotes_of, other) (clear_quotes_of-QuoteMap r qs s m)
  ]

  clear_request-QuoteMap :
      (s : Session Float) (r : TxId) → QuoteMap s → QuoteMap (clear_request s r)
  unfolding clear_request
  clear_request-QuoteMap s r m = clear_quotes_of-QuoteMap r s.pending_quotes s m

  prune_requests-QuoteMap :
      (now : ℤ) (rs : Dict TxId (QuoteRequest Float)) (s : Session Float)
      → QuoteMap s
      → QuoteMap (prune_requests now rs s)
  unfolding prune_requests
  prune_requests-QuoteMap now [] s m = m
  prune_requests-QuoteMap now ((id, r) ∷ rs) s m =
      elim (Bool-cases (is_expired r.expiry_unix now)) [
        | inl old ↦
            rw (prune_requests, old)
              (prune_requests-QuoteMap now rs (clear_request s id) (clear_request-QuoteMap s id m))
        | inr young ↦ rw (prune_requests, young) (prune_requests-QuoteMap now rs s m)
      ]

  -- A quote under its own key, and one under another.
  kept_fresh :
      (now : ℤ) (k id : TxId) (x q : QuoteResponse Float) (qs : Dict TxId (QuoteResponse Float))
      → is_expired x.expiry_unix now ≡ false
      → (lookup id qs ≡ some q → is_expired q.expiry_unix now ≡ false)
      → lookup id ((k, x) ∷ qs) ≡ some q
      → is_expired q.expiry_unix now ≡ false
  kept_fresh now k id x q qs young fresh h = elim (Bool-cases (k == id)) [
    | inl same ↦
        let found : x ≡ q = some-inj x q (rw (lookup, same) at h) in
        subst (λ y. is_expired y.expiry_unix now ≡ false) found young
    | inr other ↦ fresh (rw (lookup, other) at h)
  ]

  dropped_fresh :
      (now : ℤ) (k id : TxId) (x q : QuoteResponse Float) (qs d : Dict TxId (QuoteResponse Float))
      → IsMap d
      → lookup id (erase k d) ≡ some q
      → (lookup id qs ≡ some q → is_expired q.expiry_unix now ≡ false)
      → (lookup id d ≡ some q)
        × (lookup id ((k, x) ∷ qs) ≡ some q → is_expired q.expiry_unix now ≡ false)
  dropped_fresh now k id x q qs d m there fresh = elim (Bool-cases (k == id)) [
    | inl same ↦ absurd (none-not (rw same at (sym (lookup-erase k id d m) ∙ there)))
    | inr other ↦
        (rw other at (sym (lookup-erase k id d m) ∙ there), λ h. fresh (rw (lookup, other) at h))
  ]
    where
      none-not : none ≡ some q → ⊥
      none-not h = cc

  -- What is found after a round over some quotes was there before, and is none of the expired of them.
  prune_quotes-found :
      (now : ℤ) (qs : Dict TxId (QuoteResponse Float)) (s : Session Float) (id : TxId)
      (q : QuoteResponse Float)
      → QuoteMap s
      → lookup id (prune_quotes now qs s).pending_quotes ≡ some q
      → (lookup id s.pending_quotes ≡ some q)
        × (lookup id qs ≡ some q → is_expired q.expiry_unix now ≡ false)
  unfolding prune_quotes clear_negotiation
  prune_quotes-found now [] s id q m e = (e, λ h. cc)
  prune_quotes-found now ((k, x) ∷ qs) s id q m e =
      elim (Bool-cases (is_expired x.expiry_unix now)) [
        | inl old ↦
            let cleared : Session Float = clear_negotiation s k x 0 in
            let (there, fresh) =
              prune_quotes-found now qs cleared id q (clear_negotiation-QuoteMap s k x 0 m) (
                subst
                  (λ b.
                    lookup id (prune_quotes now qs (if b then cleared else s)).pending_quotes
                    ≡ some q)
                  old e) in
            dropped_fresh now k id x q qs s.pending_quotes m there fresh
        | inr young ↦
            let (there, fresh) = prune_quotes-found now qs s id q m (
              subst
                (λ b.
                  lookup id
                    (prune_quotes now qs
                      (if b then clear_negotiation s k x 0 else s)).pending_quotes
                  ≡ some q)
                young e) in
            (there, kept_fresh now k id x q qs young fresh)
      ]

  -- In a session that names no pending quote twice, no quote that is pending after `PruneExpired` has
  -- expired.
  pub prune_expired_lem :
      (s : Session Float) (now : ℤ) (id : TxId) (q : QuoteResponse Float)
      → IsMap s.pending_quotes
      → lookup id (prune_expired s now).pending_quotes ≡ some q
      → is_expired q.expiry_unix now ≡ false
  unfolding prune_expired
  prune_expired_lem s now id q m e =
      let pruned : Session Float = prune_requests now s.pending_requests s in
      let (there, fresh) =
        prune_quotes-found now pruned.pending_quotes pruned id q
          (prune_requests-QuoteMap now s.pending_requests s m) e in
      fresh there
