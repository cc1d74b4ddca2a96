-- ===== src/Watcher/Startup.antt =====
-- `startup` of rust/serve/src/watcher.rs.
use mathlib.Core.Option
use pkgre.Prelude.{
  Bytes, Bool, true, false, Option, none, some, Result, ok, err, if◌then◌else◌, ◌&&◌,
}
use pkgre.AcceptedRef
use pkgre.AcceptedRef.{AcceptedRef, RepositoryConfig, Json}
use pkgre.AcceptedRef.Startup.{
  AcceptedRecordState, ObjectState, StartupInput, TransitionDecision, TransitionOutcome,
  evaluate_startup,
}
use pkgre.Watcher.{
  Snapshot, Watcher, object_state, Publishing, next_counter, build_record, persist_record,
  parse_startup_record,
}

-- The answer to the read of the record file.
pub data RecordRead : Type 0 where
  not_found failed : RecordRead
  contents : Bytes → RecordRead

-- The answers that a startup gets. `none` is an error that ends it.
pub record Boot (Content : Type 0) : Type 0 where
  -- `prepare_state` and `prepare_repository`
  pub state_ready : Bool
  pub repository_ready : Bool
  pub read : RecordRead
  -- the probe of the bootstrap commit, and the one after the fetch
  pub bootstrap_exists : Option Bool
  pub bootstrap_kind : Option Bytes
  pub fetched_exists : Option Bool
  pub fetched_kind : Option Bytes
  -- the probe of the accepted commit
  pub accepted_exists : Option Bool
  pub accepted_kind : Option Bytes
  -- `materialize_tree`, and `build_snapshot_from` on the tree
  pub tree : Bool
  pub built : Option Content
  pub publishing : Publishing

-- `load_startup_record`.
unfoldable pub load_startup_record :
    Json → RecordRead → Option (AcceptedRecordState × Option AcceptedRef)
load_startup_record json RecordRead.not_found = some (AcceptedRecordState.absent, none)
load_startup_record json RecordRead.failed = none
load_startup_record json (RecordRead.contents bytes) = elim (parse_startup_record json bytes) [
  | ok r ↦ some (AcceptedRecordState.present, some r)
  | err e ↦ some (AcceptedRecordState.malformed, none)
]

-- The probe of the bootstrap commit: a missing object is fetched and probed again. Whether the fetch
-- succeeded makes no difference.
unfoldable pub probe_again : Option ObjectState → Option ObjectState → Option ObjectState
probe_again none again = none
probe_again (some ObjectState.missing) again = again
probe_again (some probed) again = some probed

-- What startup returns: whether it returned `Ok`, and the watcher behind it.
abbrev pub Booted : Type 0 → Type 0
Booted Content = Bool × Watcher Content

module _ {Content : Type 0} where
  unfoldable pub bootstrap_object : AcceptedRecordState → Boot Content → Option ObjectState
  unfolding probe_again
  bootstrap_object AcceptedRecordState.absent b =
      probe_again (object_state b.bootstrap_exists b.bootstrap_kind)
        (object_state b.fetched_exists b.fetched_kind)
  bootstrap_object AcceptedRecordState.malformed b = some ObjectState.not_applicable
  bootstrap_object AcceptedRecordState.present b = some ObjectState.not_applicable

  unfoldable pub accepted_object :
      AcceptedRecordState → Option AcceptedRef → Boot Content → Option ObjectState
  accepted_object AcceptedRecordState.present (some r) b =
      object_state b.accepted_exists b.accepted_kind
  accepted_object _ _ b = some ObjectState.not_applicable

  -- `initial_snapshot`: a temporary tree, and the snapshot that is built from it.
  unfoldable pub initial_snapshot : Bytes → Boot Content → Option (Snapshot Content)
  initial_snapshot commit b =
      if b.tree
      then Option.map (λ content. record { source_commit = commit; content = content }) b.built
      else none

  -- `accepted` and the shared snapshot are written last.
  unfoldable pub start : AcceptedRef → Snapshot Content → Watcher Content → Booted Content
  start r s w = (true, record w { accepted = some r; snapshot = some s })

  -- The record of a bootstrap is persisted before anything is installed.
  unfoldable pub persist_bootstrap :
      Json
      → RepositoryConfig
      → Boot Content
      → Snapshot Content
      → Result AcceptedRef.Error AcceptedRef
      → Watcher Content
      → Booted Content
  unfolding start
  persist_bootstrap json config b s (err e) w = (false, w)
  persist_bootstrap json config b s (ok r) w =
      let (done, w') = persist_record json config r b.publishing w in
      if done then start r s w' else (false, w')

  unfoldable pub persist_snapshot :
      Json
      → RepositoryConfig
      → Boot Content
      → Bytes
      → Option (Snapshot Content)
      → Watcher Content
      → Booted Content
  unfolding persist_bootstrap
  persist_snapshot json config b commit none w = (false, w)
  persist_snapshot json config b commit (some s) w =
      persist_bootstrap json config b s (build_record config commit) w

  unfoldable pub start_bootstrap :
      Json → RepositoryConfig → Boot Content → Option Bytes → Watcher Content → Booted Content
  unfolding persist_snapshot
  start_bootstrap json config b none w = (false, w)
  start_bootstrap json config b (some commit) w =
      persist_snapshot json config b commit (initial_snapshot commit b)
        (record w { temp_counter = next_counter w.temp_counter })

  unfoldable pub start_snapshot :
      AcceptedRef → Option (Snapshot Content) → Watcher Content → Booted Content
  unfolding start
  start_snapshot r none w = (false, w)
  start_snapshot r (some s) w = start r s w

  unfoldable pub start_accepted :
      Boot Content → Option AcceptedRef → Watcher Content → Booted Content
  unfolding start_snapshot
  start_accepted b none w = (false, w)
  start_accepted b (some r) w =
      start_snapshot r (initial_snapshot r.accepted_commit b)
        (record w { temp_counter = next_counter w.temp_counter })

  -- The match on the decision.
  unfoldable pub boot_decision :
      Json
      → RepositoryConfig
      → Boot Content
      → Option AcceptedRef
      → TransitionOutcome
      → TransitionDecision
      → Watcher Content
      → Booted Content
  unfolding start_bootstrap start_accepted
  boot_decision json config b record' outcome TransitionDecision.bootstrap w =
      start_bootstrap json config b outcome.active_commit w
  boot_decision json config b record' outcome TransitionDecision.start_accepted w =
      start_accepted b record' w
  boot_decision json config b record' outcome _ w = (false, w)

  unfoldable pub boot_outcome :
      Json
      → RepositoryConfig
      → Boot Content
      → Option AcceptedRef
      → Result AcceptedRef.Error TransitionOutcome
      → Watcher Content
      → Booted Content
  unfolding boot_decision
  boot_outcome json config b record' (err e) w = (false, w)
  boot_outcome json config b record' (ok outcome) w =
      boot_decision json config b record' outcome outcome.decision w

  unfoldable pub boot_probed :
      Json
      → RepositoryConfig
      → Bytes
      → Boot Content
      → AcceptedRecordState
      → Option AcceptedRef
      → Option ObjectState
      → Option ObjectState
      → Watcher Content
      → Booted Content
  unfolding boot_outcome
  boot_probed json config commit b state record' none local w = (false, w)
  boot_probed json config commit b state record' (some probed) none w = (false, w)
  boot_probed json config commit b state record' (some probed) (some local) w =
      let input : StartupInput = record {
        accepted_record = record';
        accepted_record_state = state;
        bootstrap_commit = commit;
        bootstrap_object = probed;
        local_accepted_object = local;
      } in
      boot_outcome json config b record' (evaluate_startup input config) w

  unfoldable pub boot_loaded :
      Json
      → RepositoryConfig
      → Bytes
      → Boot Content
      → Option (AcceptedRecordState × Option AcceptedRef)
      → Watcher Content
      → Booted Content
  unfolding boot_probed
  boot_loaded json config commit b none w = (false, w)
  boot_loaded json config commit b (some (state, record')) w =
      boot_probed json config commit b state record' (bootstrap_object state b)
        (accepted_object state record' b) w

  -- `startup`, with the configured bootstrap commit.
  unfoldable pub startup :
      Json → RepositoryConfig → Bytes → Boot Content → Watcher Content → Booted Content
  unfolding boot_loaded
  startup json config commit b w =
      if b.state_ready && b.repository_ready
      then boot_loaded json config commit b (load_startup_record json b.read) w
      else (false, w)
