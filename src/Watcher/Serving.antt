-- ===== src/Watcher/Serving.antt =====
-- What a poll of rust/serve/src/watcher.rs does to the commit that is served.
use pkgre.Prelude.{◌≡◌, ◌≢◌, ◌⊎◌, inl, Bytes, true, false, some, ok}
use pkgre.AcceptedRef.{AcceptedRef, RepositoryConfig, Json, canonical_accepted_ref_bytes}
use pkgre.AcceptedRef.Startup.{ObjectState, TransitionDecision, TransitionReason}
use pkgre.AcceptedRef.Reload.{Ancestry}
use pkgre.AcceptedRef.Records.{IsBound}
use pkgre.Watcher.{Snapshot, Watcher, remote_tip, object_state, ancestry, contains}
use pkgre.Watcher.Poll.{Observation, PollReport, Polled}
use pkgre.Watcher.Applied.{record_for, Keeps, Remembers}

-- The watcher serves: it has a record bound to its configuration, and the shared snapshot was built
-- from the commit of that record.
pub record IsServing {Content : Type 0} (config : RepositoryConfig) (w : Watcher Content)
    : Type 0 where
  pub record' : AcceptedRef
  pub given : w.accepted ≡ some record'
  pub bound : IsBound config record'
  pub shown : Snapshot Content
  pub installed : w.snapshot ≡ some shown
  pub same : shown.source_commit ≡ record'.accepted_commit

module _ {Content : Type 0} (json : Json) (config : RepositoryConfig)
    (obs : Observation Content) where
  -- The record file holds the canonical bytes of the record for `tip`.
  abbrev pub IsWritten : Bytes → Watcher Content → Type 0
  IsWritten tip w' =
      (bytes : Bytes) × (canonical_accepted_ref_bytes json (record_for config tip) config
        ≡ ok bytes)
      × (w'.record_file ≡ some bytes)

  -- The record file is as before, or the rename succeeded and the directory could not be synced.
  abbrev pub FileAfter : Watcher Content → Watcher Content → Type 0
  FileAfter w w' =
      (w'.record_file ≡ w.record_file)
      ⊎ ((tip : Bytes) × (remote_tip obs.ls_remote ≡ some (some tip))
          × (obs.publishing.rename ≡ true)
          × (obs.publishing.sync_directory ≡ false)
          × IsWritten tip w')

  -- The poll reports something else than a forward step, and the last good state stays.
  abbrev pub Stays : Watcher Content → Polled Content → Type 0
  Stays w p =
      (report : PollReport) × (w' : Watcher Content) × (p ≡ some (report, w'))
      × (report.decision ≢ TransitionDecision.accept_forward)
      × (w'.accepted ≡ w.accepted)
      × (w'.snapshot ≡ w.snapshot)
      × FileAfter w w'
      × Remembers w w'

  -- The poll takes `tip` over, with all that was checked before.
  pub record IsTaken (w w' : Watcher Content) (tip : Bytes) : Type 0 where
    pub observed : remote_tip obs.ls_remote ≡ some (some tip)
    pub fresh : contains w.suppressed tip ≡ false
    pub fetched : obs.fetch ≡ true
    pub resolved : obs.watch_ref ≡ some tip
    pub object : object_state obs.object_exists obs.object_kind ≡ some ObjectState.valid
    pub descends : ancestry obs.forward obs.backward ≡ some Ancestry.descendant
    pub transition : obs.transition ≡ some true
    pub content : Content
    pub built : obs.built ≡ some content
    pub accepted : w'.accepted ≡ some (record_for config tip)
    pub bound : IsBound config (record_for config tip)
    pub snapshot : w'.snapshot ≡ some (record { source_commit = tip; content = content })
    pub written : IsWritten tip w'
    pub suppressed : w'.suppressed ≡ w.suppressed
    pub published : obs.publishing.sync_directory ≡ true

  abbrev pub Moves : Watcher Content → Polled Content → Type 0
  Moves w p =
      (w' : Watcher Content) × (tip : Bytes) × (p
        ≡ some (
          record {
            decision = TransitionDecision.accept_forward;
            reason = TransitionReason.valid_forward_candidate;
          },
          w',
        ))
      × IsTaken w w' tip

  pub Keeps-Stays : (w : Watcher Content) (p : Polled Content) → Keeps w p → Stays w p
  Keeps-Stays w p (report, w', e, n, k) =
      (report, w', e, n, k.accepted, k.snapshot, inl k.record_file, k.suppressed)
