-- ===== src/Watcher/Rejection.antt =====
-- Two behaviours of one poll of rust/serve/src/watcher.rs: a suppressed tip changes nothing, and a
-- record that could not be made durable is on disk all the same.
use pkgre.Prelude.{
  ◌≡◌, ◌≢◌, refl, ◌∙◌, ap, Bytes, true, false, ◌&&◌, none, some, ok, arith, beq, beq_iff, beq→eq,
}
use pkgre.AcceptedRef.{AcceptedRef, RepositoryConfig, Json, canonical_accepted_ref_bytes}
use pkgre.AcceptedRef.Startup.{ObjectState, TransitionDecision, TransitionReason}
use pkgre.AcceptedRef.Reload.{
  reload_outcome, Ancestry, Persistence, SemanticValidity, ReloadCandidate, evaluate_reload,
}
use pkgre.AcceptedRef.Records.{IsLowerHex, valid_hex_iff, IsBound, validate_record_iff}
use pkgre.Watcher.{
  Watcher, remote_tip, object_state, ancestry, contains, insert, next_counter, persist_record,
  publish_record,
}
use pkgre.Watcher.Poll.{
  fresh_candidate, relation, known_relation, is_descendant, count_trees, semantic_validation,
  suppress, Observation, rejected_candidate, apply, reload_tip, reload, poll_accepted, poll_once,
}
use pkgre.Watcher.Applied.{record_for, build_record_lem}
use pkgre.Watcher.Serving.{IsServing}
use pkgre.Watcher.Polling.{remote_tip-named}

module _ {Content : Type 0} (json : Json) (config : RepositoryConfig)
    (obs : Observation Content) where
  rejected_outcome :
      (r : AcceptedRef) (tip : Bytes)
      → IsBound config r
      → IsLowerHex 40 tip
      → evaluate_reload r (some (rejected_candidate config tip)) config
        ≡ ok (
            reload_outcome TransitionDecision.retain_accepted
              TransitionReason.rejected_hash_suppressed r.accepted_commit false false)
  unfolding evaluate_reload rejected_candidate
  rejected_outcome r tip b h = rw (
    (validate_record_iff config r).1 b,
    (beq_iff config.repository_identity config.repository_identity).1 refl,
    (beq_iff config.full_ref config.full_ref).1 refl,
    (valid_hex_iff tip 40).1 h,
  )

  apply_rejected :
      (r : AcceptedRef) (tip : Bytes) (w : Watcher Content)
      → IsBound config r
      → IsLowerHex 40 tip
      → apply config r (some (rejected_candidate config tip)) none w
        ≡ some (
          record {
            decision = TransitionDecision.retain_accepted;
            reason = TransitionReason.rejected_hash_suppressed;
          },
          w,
        )
  unfolding apply
  apply_rejected r tip w b h =
      rw (rejected_outcome r tip b h) (unfold reload_outcome rejected_candidate suppress in refl)

  tip_rejected :
      (r : AcceptedRef) (tip : Bytes) (w : Watcher Content)
      → IsBound config r
      → IsLowerHex 40 tip
      → tip ≢ r.accepted_commit
      → contains w.suppressed tip ≡ true
      → reload_tip json config obs r tip w
        ≡ some (
          record {
            decision = TransitionDecision.retain_accepted;
            reason = TransitionReason.rejected_hash_suppressed;
          },
          w,
        )
  unfolding reload_tip
  tip_rejected r tip w b h n old =
      let other : beq tip r.accepted_commit ≡ false =
        ground (arith, beq→eq tip r.accepted_commit, n) in
      rw (other, old) (apply_rejected r tip w b h)

  -- While the observed tip is suppressed and is not the accepted commit, a poll of a serving watcher
  -- reports that the hash is suppressed and changes nothing at all: no fetch result, no validation
  -- and no write can take effect.
  pub poll_suppressed :
      (w : Watcher Content) (s : IsServing config w) (tip : Bytes)
      → remote_tip obs.ls_remote ≡ some (some tip)
      → tip ≢ s.record'.accepted_commit
      → contains w.suppressed tip ≡ true
      → poll_once json config obs w
        ≡ some (
          record {
            decision = TransitionDecision.retain_accepted;
            reason = TransitionReason.rejected_hash_suppressed;
          },
          w,
        )
  unfolding poll_once
  poll_suppressed w s tip o n old =
      ap (λ a. poll_accepted json config obs a w) s.given
      ∙ ap (λ seen. reload json config obs s.record' seen w) o
      ∙ tip_rejected s.record' tip w s.bound (remote_tip-named obs.ls_remote tip o) n old

  -- A poll that passes every check and renames the new record into place.
  pub record PassesTo (w : Watcher Content) (tip : Bytes) (bytes : Bytes) : Type 0 where
    pub observed : remote_tip obs.ls_remote ≡ some (some tip)
    pub fresh : contains w.suppressed tip ≡ false
    pub fetched : obs.fetch ≡ true
    pub resolved : obs.watch_ref ≡ some tip
    pub object : object_state obs.object_exists obs.object_kind ≡ some ObjectState.valid
    pub descends : ancestry obs.forward obs.backward ≡ some Ancestry.descendant
    pub content : Content
    pub validated :
        semantic_validation tip obs ≡ some (record { source_commit = tip; content = content })
    pub printed : canonical_accepted_ref_bytes json (record_for config tip) config ≡ ok bytes
    pub renamed :
        obs.publishing.create && obs.publishing.write && obs.publishing.sync_file
          && obs.publishing.rename
        ≡ true

  abbrev unsynced_candidate : Bytes → ReloadCandidate
  unsynced_candidate tip = record {
    ancestry = Ancestry.descendant;
    commit = tip;
    full_ref = config.full_ref;
    object_state = ObjectState.valid;
    persistence = Persistence.interrupted_before_rename;
    repository_identity = config.repository_identity;
    semantic_validity = SemanticValidity.valid;
    suppressed = false;
  }

  tip_unsynced :
      (r : AcceptedRef) (tip bytes : Bytes) (w : Watcher Content)
      → IsBound config r
      → PassesTo w tip bytes
      → tip ≢ r.accepted_commit
      → obs.publishing.sync_directory ≡ false
      → reload_tip json config obs r tip w
        ≡ apply config r (some (unsynced_candidate tip)) none (record w {
          temp_counter = next_counter (count_trees obs w.temp_counter);
          record_file = some bytes;
        })
  unfolding reload_tip fresh_candidate relation known_relation is_descendant persist_record
      publish_record
  tip_unsynced r tip bytes w b p n u =
      let other : beq tip r.accepted_commit ≡ false =
        ground (arith, beq→eq tip r.accepted_commit, n) in
      simp (
        other,
        p.fresh,
        p.fetched,
        p.resolved,
        (beq_iff tip tip).1 refl,
        p.object,
        p.descends,
        p.validated,
        build_record_lem config r tip b (remote_tip-named obs.ls_remote tip p.observed),
        p.printed,
        p.renamed,
        u,
      )

  unsynced_outcome :
      (r : AcceptedRef) (tip : Bytes)
      → IsBound config r
      → IsLowerHex 40 tip
      → tip ≢ r.accepted_commit
      → evaluate_reload r (some (unsynced_candidate tip)) config
        ≡ ok (
            reload_outcome TransitionDecision.retain_accepted
              TransitionReason.durable_persistence_failed r.accepted_commit true false)
  unfolding evaluate_reload
  unsynced_outcome r tip b h n =
      let other : beq tip r.accepted_commit ≡ false =
        ground (arith, beq→eq tip r.accepted_commit, n) in
      rw (
        (validate_record_iff config r).1 b,
        (beq_iff config.repository_identity config.repository_identity).1 refl,
        (beq_iff config.full_ref config.full_ref).1 refl,
        (valid_hex_iff tip 40).1 h,
        other,
      )

  apply_unsynced :
      (r : AcceptedRef) (tip : Bytes) (w : Watcher Content)
      → IsBound config r
      → IsLowerHex 40 tip
      → tip ≢ r.accepted_commit
      → apply config r (some (unsynced_candidate tip)) none w
        ≡ some (
          record {
            decision = TransitionDecision.retain_accepted;
            reason = TransitionReason.durable_persistence_failed;
          },
          record w { suppressed = insert tip w.suppressed },
        )
  unfolding apply
  apply_unsynced r tip w b h n =
      rw (unsynced_outcome r tip b h n) (unfold reload_outcome suppress in refl)

  -- In a poll of a serving watcher, if a candidate passes every check and its record is renamed into place, but the directory cannot
  -- be synced, then the poll reports that the accepted commit is retained because persistence failed:
  -- the accepted record and the snapshot stay and the tip is suppressed. The record file, however,
  -- already holds the canonical bytes of the record of the rejected tip.
  pub poll_unsynced :
      (w : Watcher Content) (s : IsServing config w) (tip bytes : Bytes)
      → PassesTo w tip bytes
      → tip ≢ s.record'.accepted_commit
      → obs.publishing.sync_directory ≡ false
      → poll_once json config obs w
        ≡ some (
          record {
            decision = TransitionDecision.retain_accepted;
            reason = TransitionReason.durable_persistence_failed;
          },
          record w {
            suppressed = insert tip w.suppressed;
            temp_counter = next_counter (count_trees obs w.temp_counter);
            record_file = some bytes;
          },
        )
  unfolding poll_once
  poll_unsynced w s tip bytes p n u =
      ap (λ a. poll_accepted json config obs a w) s.given
      ∙ ap (λ seen. reload json config obs s.record' seen w) p.observed
      ∙ tip_unsynced s.record' tip bytes w s.bound p n u
      ∙ apply_unsynced s.record' tip _ s.bound (remote_tip-named obs.ls_remote tip p.observed) n
