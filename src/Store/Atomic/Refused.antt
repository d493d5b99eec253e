-- ===== src/Store/Atomic/Refused.antt =====
-- `PersistExecutedTrade` of core/store/json.go for a trade that has one of its files already.
use web4_v.Base.{◌≡◌, refl, Bool, true, false, ◌||◌, List, ◌∷◌, nat_eq, trade_replay}
use web4_v.Base.Dict.{has}
use web4_v.Model.Types.{TxId}
use web4_v.Store.{Disk, has_trade_file, JsonFile}
use web4_v.Store.Commands.{Event, works, failed, ◌>>=◌, exists, give, lift}
use web4_v.Store.Persist.{has_executed_trade, persist_executed_trade}

-- The calls of `HasExecutedTrade` work.
abbrev pub four_work : List Event → List Event
four_work es = works ∷ works ∷ works ∷ works ∷ es

module _ {V : Type 0} where
  -- Where the four calls for its files work, a trade that has one is refused.
  refused :
      (later : List Event) (id : TxId) (d : Disk V) (again : List (JsonFile V)) (a b g h : Bool)
      → has id d.executed ≡ a
      → has id d.committed ≡ b
      → has id d.reserved ≡ g
      → has id d.manifests ≡ h
      → (a || b || g || h) ≡ true
      → let r = persist_executed_trade id again (four_work later) d in
        (r.0 ≡ failed trade_replay) × (r.2 ≡ d)
  unfolding persist_executed_trade has_executed_trade ◌>>=◌ exists give lift
  refused later id d again true b g h ea eb eg eh any = rw ea (refl, refl)
  refused later id d again false true g h ea eb eg eh any = rw (ea, eb) (refl, refl)
  refused later id d again false false true h ea eb eg eh any = rw (ea, eb, eg) (refl, refl)
  refused later id d again false false false true ea eb eg eh any = rw (ea, eb, eg, eh) (refl, refl)
  refused later id d again false false false false ea eb eg eh any = absurd (cc)

  pub counted-refused :
      (later : List Event) (id : TxId) (d : Disk V) (again : List (JsonFile V))
      → has_trade_file d id ≡ true
      → let r = persist_executed_trade id again (four_work later) d in
        (r.0 ≡ failed trade_replay) × (r.2 ≡ d)
  unfolding has_trade_file
  counted-refused later id d again counts =
      refused later id d again (has id d.executed) (has id d.committed) (has id d.reserved)
        (has id d.manifests) refl refl refl refl counts
