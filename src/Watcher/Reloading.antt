-- ===== src/Watcher/Reloading.antt =====
-- Each stretch of `reload` of rust/serve/src/watcher.rs ends in a poll that stays or moves.
use pkgre.Prelude.{
  ◌≡◌, ◌≢◌, ◌⊎◌, inl, inr, refl, ◌∙◌, ap, Bytes, Bool, true, false, Option, none, some, ok, arith,
  Bool-cases,
}
use pkgre.AcceptedRef.{AcceptedRef, RepositoryConfig, Json, canonical_accepted_ref_bytes}
use pkgre.AcceptedRef.Startup.{ObjectState}
use pkgre.AcceptedRef.Reload.{Ancestry, Persistence, SemanticValidity, ReloadCandidate}
use pkgre.AcceptedRef.Records.{IsLowerHex, IsBound}
use pkgre.AcceptedRef.Forward.{IsForward, IsPhased}
use pkgre.Watcher.{
  Snapshot, Watcher, remote_tip, object_state, ancestry, contains, build_record, persist_bytes,
  persist_record,
}
use pkgre.Watcher.Poll.{
  Observation, Polled, fresh_candidate, judge, semantic_validation, apply, persist_candidate,
  validate_candidate,
}
use pkgre.Watcher.Applied.{
  record_for, record_for-IsBound, build_record_lem, Keeps, apply-some-Keeps, apply_forward,
}
use pkgre.Watcher.Serving.{FileAfter, Stays, Moves}
use pkgre.Watcher.Persisting.{persist_done, persist_failed}

module _ {Content : Type 0} (json : Json) (config : RepositoryConfig)
    (obs : Observation Content) where
  -- What `reload` has established when it compares the trees of `tip` and of the accepted commit.
  pub record IsReached (r : AcceptedRef) (w : Watcher Content) (tip : Bytes) : Type 0 where
    pub observed : remote_tip obs.ls_remote ≡ some (some tip)
    pub named : IsLowerHex 40 tip
    pub moves : tip ≢ r.accepted_commit
    pub fresh : contains w.suppressed tip ≡ false
    pub fetched : obs.fetch ≡ true
    pub resolved : obs.watch_ref ≡ some tip
    pub object : object_state obs.object_exists obs.object_kind ≡ some ObjectState.valid
    pub descends : ancestry obs.forward obs.backward ≡ some Ancestry.descendant

  abbrev pub Ends : Watcher Content → Polled Content → Type 0
  Ends w p = Stays json config obs w p ⊎ Moves json config obs w p

  abbrev pub descendant_candidate : Bytes → ReloadCandidate
  unfolding fresh_candidate
  descendant_candidate tip = fresh_candidate config tip ObjectState.valid Ancestry.descendant

  Stays-after :
      (w w' : Watcher Content) (p : Polled Content)
      → w'.accepted ≡ w.accepted
      → w'.snapshot ≡ w.snapshot
      → w'.suppressed ≡ w.suppressed
      → FileAfter json config obs w w'
      → Keeps w' p
      → Stays json config obs w p
  Stays-after w w' p a s q (inl f) (report, w'', e, n, k) = (
    report,
    w'',
    e,
    n,
    k.accepted ∙ a,
    k.snapshot ∙ s,
    inl (k.record_file ∙ f),
    λ hash h. k.suppressed hash (ground (arith, q, h)),
  )
  Stays-after w w' p a s q (inr (tip, o, renamed, unsynced, (bytes, printed, f)))
        (report, w'', e, n, k) =
      (
        report,
        w'',
        e,
        n,
        k.accepted ∙ a,
        k.snapshot ∙ s,
        inr (tip, o, renamed, unsynced, (bytes, printed, k.record_file ∙ f)),
        λ hash h. k.suppressed hash (ground (arith, q, h)),
      )

  module _ (r : AcceptedRef) (w : Watcher Content) (tip : Bytes) (bound : IsBound config r)
      (reached : IsReached r w tip) where
    abbrev valid_candidate : Persistence → ReloadCandidate
    valid_candidate p = record {
      ancestry = Ancestry.descendant;
      commit = tip;
      full_ref = config.full_ref;
      object_state = ObjectState.valid;
      persistence = p;
      repository_identity = config.repository_identity;
      semantic_validity = SemanticValidity.valid;
      suppressed = false;
    }

    valid-IsPhased : IsPhased (valid_candidate Persistence.interrupted_before_rename)
    valid-IsPhased = record {
      compared = λ _. ((λ e. absurd (cc)), (λ e. absurd (cc)));
      validated = λ _ _ e. absurd (cc);
      attempted = λ _ _ _ e. absurd (cc);
    }

    interrupted-Keeps :
        (w' : Watcher Content)
        → Keeps w'
            (apply config r (some (valid_candidate Persistence.interrupted_before_rename)) none w')
    interrupted-Keeps w' =
        apply-some-Keeps config r (valid_candidate Persistence.interrupted_before_rename) none w'
          bound valid-IsPhased (λ e. absurd (cc))

    valid-IsForward : IsForward r.accepted_commit config (valid_candidate Persistence.success)
    valid-IsForward = record {
      identity = refl;
      full_ref = refl;
      commit = reached.named;
      fresh = refl;
      object = refl;
      moves = reached.moves;
      ancestry = refl;
      validity = refl;
      persistence = refl;
    }

    persist_written :
        (bytes : Bytes) (s : Snapshot Content) (content : Content) (w' : Watcher Content)
        → canonical_accepted_ref_bytes json (record_for config tip) config ≡ ok bytes
        → obs.publishing.sync_directory ≡ true
        → obs.transition ≡ some true
        → obs.built ≡ some content
        → s ≡ record { source_commit = tip; content = content }
        → w'.record_file ≡ some bytes
        → w'.suppressed ≡ w.suppressed
        → Moves json config obs w
            (apply config r (some (valid_candidate Persistence.success)) (some s) w')
    persist_written bytes s content w' printed synced passed built same file q = (
      record w' { accepted = some (record_for config tip); snapshot = some s },
      tip,
      apply_forward config r (valid_candidate Persistence.success) s w' bound valid-IsForward,
      record {
        observed = reached.observed;
        fresh = reached.fresh;
        fetched = reached.fetched;
        resolved = reached.resolved;
        object = reached.object;
        descends = reached.descends;
        transition = passed;
        content = content;
        built = built;
        accepted = refl;
        bound = record_for-IsBound config r tip bound reached.named;
        snapshot = ap some same;
        written = (bytes, printed, file);
        suppressed = q;
        published = synced;
      },
    )

    file_after :
        (v w' : Watcher Content)
        → w'.record_file ≡ w.record_file
        → (v.record_file ≡ w'.record_file)
          ⊎ ((bytes : Bytes) × (canonical_accepted_ref_bytes json (record_for config tip) config
                ≡ ok bytes)
              × (obs.publishing.rename ≡ true)
              × (obs.publishing.sync_directory ≡ false)
              × (v.record_file ≡ some bytes))
        → FileAfter json config obs w v
    file_after v w' f (inl same) = inl (same ∙ f)
    file_after v w' f (inr (bytes, printed, renamed, unsynced, file)) =
        inr (tip, reached.observed, renamed, unsynced, (bytes, printed, file))

    persist-Ends :
        (s : Snapshot Content) (content : Content) (w' : Watcher Content)
        → w'.accepted ≡ w.accepted
        → w'.snapshot ≡ w.snapshot
        → w'.record_file ≡ w.record_file
        → w'.suppressed ≡ w.suppressed
        → obs.transition ≡ some true
        → obs.built ≡ some content
        → s ≡ record { source_commit = tip; content = content }
        → Ends w (
            persist_candidate json config obs r
              (valid_candidate Persistence.not_attempted)
              s
              (build_record config tip)
              w')
    unfolding persist_candidate persist_record
    persist-Ends s content w' a b f q passed built same =
        let printed = canonical_accepted_ref_bytes json (record_for config tip) config in
        elim (Bool-cases (persist_bytes printed obs.publishing w').0) [
          | inl done ↦
              let (bytes, e, synced, after) = persist_done printed obs.publishing w' done in
              inr (
                rw (build_record_lem config r tip bound reached.named, done)
                  (persist_written bytes s content (persist_bytes printed obs.publishing w').1 e
                    synced passed built same (ap (λ (x : Watcher Content). x.record_file) after)
                    (ap (λ (x : Watcher Content). x.suppressed) after ∙ q)))
          | inr failed ↦
              let (a', b', q', f') = persist_failed printed obs.publishing w' failed in
              inl (
                rw (build_record_lem config r tip bound reached.named, failed)
                  (Stays-after w (persist_bytes printed obs.publishing w').1 _ (a' ∙ a) (b' ∙ b)
                    (q' ∙ q) (file_after (persist_bytes printed obs.publishing w').1 w' f f')
                    (interrupted-Keeps (persist_bytes printed obs.publishing w').1)))
        ]

    judge_sound :
        (transition : Option Bool) (built : Option Content) (s : Snapshot Content)
        → judge tip transition built ≡ some s
        → (transition ≡ some true)
          × ((content : Content) × (built ≡ some content)
              × (s ≡ record { source_commit = tip; content = content }))
    unfolding judge
    judge_sound none built s h = absurd (cc)
    judge_sound (some false) built s h = absurd (cc)
    judge_sound (some true) none s h = absurd (cc)
    judge_sound (some true) (some content) s h = (refl, (content, refl, cc))

    semantic_validation_sound :
        (s : Snapshot Content)
        → semantic_validation tip obs ≡ some s
        → judge tip obs.transition obs.built ≡ some s
    unfolding semantic_validation
    semantic_validation_sound s h = ground arith

    invalid-IsPhased :
        IsPhased
          (record (descendant_candidate tip) { semantic_validity = SemanticValidity.invalid })
    unfolding fresh_candidate
    invalid-IsPhased = record {
      compared = λ _. ((λ e. absurd (cc)), (λ e. absurd (cc)));
      validated = λ _ _ e. absurd (cc);
      attempted = λ _ _ e. absurd (cc);
    }

    -- From the comparison of the trees on.
    pub validate-Ends :
        (judged : Option (Snapshot Content)) (w' : Watcher Content)
        → semantic_validation tip obs ≡ judged
        → w'.accepted ≡ w.accepted
        → w'.snapshot ≡ w.snapshot
        → w'.record_file ≡ w.record_file
        → w'.suppressed ≡ w.suppressed
        → Ends w (validate_candidate json config obs r (descendant_candidate tip) judged w')
    unfolding validate_candidate fresh_candidate
    validate-Ends none w' h a b f q = inl (
        Stays-after w w' _ a b q (inl f) (
          apply-some-Keeps config r
            (record (descendant_candidate tip) { semantic_validity = SemanticValidity.invalid })
            none w' bound invalid-IsPhased (λ e. absurd (cc))))
    validate-Ends (some s) w' h a b f q =
        let (passed, (content, built, same)) =
          judge_sound obs.transition obs.built s (semantic_validation_sound s h) in
        persist-Ends s content w' a b f q passed built same
