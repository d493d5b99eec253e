-- ===== src/Examples/Stores.antt =====
-- The theorems on the JSON store (core/store/json.go) at a trade of two documents.
use web4_v.Base.{
  ℕ, zero, suc, ◌≡◌, refl, ◌⊎◌, true, false, List, [], ◌∷◌, ◌++◌, some, ok, ◌==◌, nat_eq,
  if◌then◌else◌, All, trade_replay, incomplete_transaction, missing_manifest,
}
use web4_v.Base.Dict.{lookup}
use web4_v.Store.{target_eq, trade_document, inventory_document, Disk, JsonFile, has_trade_file}
use web4_v.Store.Commands.{
  Run, Event, works, fails, done, failed, crashed, ◌>>=◌, ◌>>◌, give, lift, observe, exists,
  open_exclusive, operate, attempt, on_failure, deferred,
}
use web4_v.Store.Files.{
  fill_record, create_exclusive, write_executed_marker, write_commit_record, reserve_executed_trade,
  write_manifest, stage_file, remove_temps, stage_all, take_back, rollback, undo,
  move_existing_aside, move_in, install_all, write_batch, cleanup,
}
use web4_v.Store.Persist.{
  finish_batch, persist_reserved, has_executed_trade, persist_executed_trade,
}
use web4_v.Store.Recovery.{
  Reader, judge_target, read_manifest, validate_target, verify_targets, names_trade,
  verify_manifest, clear_artifacts, complete_trade, judge_phase, recover_manifest, recover_trade,
  recover_all, new_json_store,
}
use web4_v.Store.Atomic.{IsOld, IsWritten, IsNew, IsSteady}
use web4_v.Store.Atomic.Refused.{four_work}
use web4_v.Store.Atomic.Whole.{
  Opening, open_store, open_stores, persisted, persist_executed_trade-atomic,
  persist_executed_trade-durable,
}
use web4_v.Examples.Executions.{executed}
use web4_v.Examples.Trades.{swap}
use web4_v.Base.Int.{pos}
use web4_v.Crypto.{Primitives}
use web4_v.Node.{SignedTradeIntent, AuthorizedTradeTx}

-- A digest that is always the same.
abbrev flat : Primitives
flat = record {
  sum256 = λ m. 5;
  new_key_from_seed = λ s. s;
  public_part = λ k. k;
  ed25519_sign = λ k m. [];
  ed25519_verify = λ k m s. true;
}

abbrev trade : ℕ
trade = 5

abbrev no_auth : SignedTradeIntent
no_auth = record {
  intent = record {
    party = 1;
    seller = 1;
    buyer = 2;
    sell_unit = 10;
    buy_unit = 20;
    sell_amount = pos 5;
    buy_amount = pos 5;
    timestamp = pos 1000;
  };
  public_key = [];
  signature = [];
}

abbrev stored_trade : AuthorizedTradeTx
stored_trade = record { tx = swap; seller_auth = no_auth; buyer_auth = no_auth }

-- The documents are numbers, and are read by the directory that they are in.
abbrev reader : Reader ℕ ℕ
reader t v =
    if t.directory == 0 then ok (trade_document stored_trade) else ok (inventory_document t.id [])

abbrev before : Disk ℕ
before = record {
  executed = [];
  committed = [];
  reserved = [];
  manifests = [];
  documents = (record { directory = 1; id = 9 }, 3) ∷ [];
}

abbrev files : List (JsonFile ℕ)
files = (record { directory = 0; id = trade }, ok 7) ∷ (record { directory = 1; id = 9 }, ok 8) ∷ []

abbrev all_work : ℕ → List Event
all_work zero = []
all_work (suc n) = works ∷ all_work n

steady : (n : ℕ) → All IsSteady (all_work n)
steady zero = tt
steady (suc n) = (tt, steady n)

unseen : has_trade_file before trade ≡ false
unfolding has_trade_file
unseen = refl

-- What a run of the store unfolds.
unfoldable stored : ℕ
unfolding judge_target read_manifest executed ◌>>=◌ ◌>>◌ give lift observe exists open_exclusive
    operate attempt on_failure deferred fill_record create_exclusive write_executed_marker
    write_commit_record reserve_executed_trade write_manifest stage_file remove_temps stage_all
    take_back rollback undo move_existing_aside move_in install_all write_batch cleanup finish_batch
    persist_reserved persist_executed_trade validate_target verify_targets names_trade
    verify_manifest clear_artifacts complete_trade judge_phase recover_manifest recover_trade
    recover_all new_json_store has_executed_trade
stored = 0

-- The process ends when the manifest has just said that the documents are committed.
after_crash : (persisted before trade files (all_work 37)).0 ≡ crashed
unfolding stored
after_crash = refl

abbrev interrupted : Opening
interrupted = record { ids = trade ∷ []; events = all_work 7 }

abbrev last : Opening
last = record { ids = trade ∷ []; events = all_work 30 }

abbrev reopened : Disk ℕ
reopened = open_stores flat reader (interrupted ∷ []) (persisted before trade files (all_work 37)).2

opened : (open_store flat reader last reopened).0 ≡ done tt
unfolding stored
opened = refl

persist_executed_trade-atomic_example :
    IsOld before (open_store flat reader last reopened).2
    ⊎ IsNew before trade files (open_store flat reader last reopened).2
persist_executed_trade-atomic_example =
    persist_executed_trade-atomic flat reader before trade files (all_work 37) (interrupted ∷ [])
      last tt (steady 37) (steady 7, tt) (steady 30) unseen (λ h. refl) opened

-- An end while the documents are moved in stops every opening.
stopped :
    (open_store flat reader last (persisted before trade files (all_work 28)).2).0
    ≡ failed incomplete_transaction
unfolding stored
stopped = refl

returned : (persisted before trade files (all_work 70)).0 ≡ done tt
unfolding stored
returned = refl

persist_executed_trade-durable_example :
    let d = open_stores flat reader (last ∷ []) (persisted before trade files (all_work 70)).2 in
    let r = persist_executed_trade trade files (four_work (all_work 2)) d in
    IsWritten before files d × (r.0 ≡ failed trade_replay) × (r.2 ≡ d)
persist_executed_trade-durable_example =
    persist_executed_trade-durable flat reader before trade files (all_work 70) (last ∷ []) tt
      (all_work 2) files (steady 70) (steady 30, tt) unseen returned

-- The executed file cannot be made: the documents stay, and no store opens on them again.
abbrev unmarked : Disk ℕ
unmarked = (persisted before trade files (all_work 41 ++ fails ∷ all_work 9)).2

unmarked_written : lookup (record { directory = 1; id = 9 }) unmarked.documents ≡ some 8
unfolding stored
unmarked_written = refl

unmarked_stops : (open_store flat reader last unmarked).0 ≡ failed missing_manifest
unfolding stored
unmarked_stops = refl

-- Half of the documents are moved in, and the call for the manifest fails: the opening succeeds.
abbrev half_moved : Disk ℕ
half_moved = (persisted before trade files (all_work 28)).2

half_is_new : lookup (record { directory = 0; id = trade }) half_moved.documents ≡ some 7
unfolding stored
half_is_new = refl

half_is_old : lookup (record { directory = 1; id = 9 }) half_moved.documents ≡ some 3
unfolding stored
half_is_old = refl

abbrev unseeing : Opening
unseeing = record { ids = trade ∷ []; events = all_work 6 ++ fails ∷ all_work 1 }

half_opens : (open_store flat reader unseeing half_moved).0 ≡ done tt
unfolding stored
half_opens = refl

-- The trade is written, and the call for its executed file fails: other documents are moved in before
-- the trade is refused.
abbrev others : List (JsonFile ℕ)
others = (record { directory = 0; id = trade }, ok 17) ∷ []

abbrev again : Run ℕ Unit
again =
    persist_executed_trade trade others (fails ∷ all_work 60)
      (persisted before trade files (all_work 70)).2

again_refused : again.0 ≡ failed trade_replay
unfolding stored
again_refused = refl

again_moved : lookup (record { directory = 0; id = trade }) again.2.documents ≡ some 17
unfolding stored
again_moved = refl
