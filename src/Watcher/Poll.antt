-- ===== src/Watcher/Poll.antt =====
-- One poll of rust/serve/src/watcher.rs: `poll_once`, `reload`, `semantic_validation` and `apply`.
use pkgre.Prelude.{
  ℕ, Bytes, Bool, true, false, ◌&&◌, not, Option, none, some, Result, ok, err, beq, if◌then◌else◌,
}
use pkgre.AcceptedRef
use pkgre.AcceptedRef.{AcceptedRef, RepositoryConfig, Json}
use pkgre.AcceptedRef.Startup.{ObjectState, TransitionDecision, TransitionReason, TransitionOutcome}
use pkgre.AcceptedRef.Reload.{
  Ancestry, Persistence, SemanticValidity, ReloadCandidate, object_is_valid, evaluate_reload,
}
use pkgre.Watcher.{
  Snapshot, Watcher, ExitStatus, remote_tip, object_state, ancestry, Publishing, next_counter,
  contains, insert, build_record, persist_record,
}

-- The answers that one poll gets. `none` is an error that the code only logs.
pub record Observation (Content : Type 0) : Type 0 where
  -- the output of `git ls-remote`, as `remote_tip` reads it
  pub ls_remote : Option (Option (Option Bytes))
  -- whether `git fetch` succeeded
  pub fetch : Bool
  -- `git rev-parse` on the watched ref
  pub watch_ref : Option Bytes
  -- `git cat-file -e` and `git cat-file -t` on the tip
  pub object_exists : Option Bool
  pub object_kind : Option Bytes
  -- `git merge-base --is-ancestor`, from the accepted commit to the tip and back
  pub forward : Option ExitStatus
  pub backward : Option ExitStatus
  -- whether `materialize_tree` succeeded for the accepted commit and for the tip
  pub accepted_tree : Bool
  pub candidate_tree : Bool
  -- whether `check_transition` accepted the two trees; `none` is a task that did not finish
  pub transition : Option Bool
  -- `build_snapshot` of the tip's tree
  pub built : Option Content
  pub publishing : Publishing

pub record PollReport : Type 0 where
  pub decision : TransitionDecision
  pub reason : TransitionReason

unfoldable pub is_descendant : Ancestry → Bool
is_descendant Ancestry.descendant = true
is_descendant _ = false

-- A failed probe is an unknown relation.
unfoldable pub known_relation : Option Ancestry → Ancestry
known_relation none = Ancestry.unknown
known_relation (some a) = a

-- `rejected_candidate`.
unfoldable pub rejected_candidate : RepositoryConfig → Bytes → ReloadCandidate
rejected_candidate config commit = record {
  ancestry = Ancestry.not_evaluated;
  commit = commit;
  full_ref = config.full_ref;
  object_state = ObjectState.missing;
  persistence = Persistence.not_attempted;
  repository_identity = config.repository_identity;
  semantic_validity = SemanticValidity.not_evaluated;
  suppressed = true;
}

-- The candidate of a tip that was fetched and probed, before its trees are compared.
unfoldable pub fresh_candidate : RepositoryConfig → Bytes → ObjectState → Ancestry → ReloadCandidate
fresh_candidate config tip object relation = record {
  ancestry = relation;
  commit = tip;
  full_ref = config.full_ref;
  object_state = object;
  persistence = Persistence.not_attempted;
  repository_identity = config.repository_identity;
  semantic_validity = SemanticValidity.not_evaluated;
  suppressed = false;
}

-- What a poll ends with: the report and the watcher behind it, or `none` for a panic of one of the
-- `expect` calls.
abbrev pub Polled : Type 0 → Type 0
Polled Content = Option (PollReport × Watcher Content)

module _ {Content : Type 0} where
  -- The temporary trees that `semantic_validation` creates: the second only if the first succeeds.
  unfoldable pub count_trees : Observation Content → ℕ → ℕ
  count_trees obs n = if obs.accepted_tree then next_counter (next_counter n) else next_counter n

  -- `semantic_validation`, behind the two trees.
  unfoldable pub judge : Bytes → Option Bool → Option Content → Option (Snapshot Content)
  judge tip none built = none
  judge tip (some false) built = none
  judge tip (some true) none = none
  judge tip (some true) (some content) = some (record { source_commit = tip; content = content })

  -- `semantic_validation`: the snapshot of a valid candidate, and `none` for an invalid one.
  unfoldable pub semantic_validation : Bytes → Observation Content → Option (Snapshot Content)
  unfolding judge
  semantic_validation tip obs =
      if obs.accepted_tree && obs.candidate_tree then judge tip obs.transition obs.built else none

  -- `*self.accepted = Some(record)` and `install_snapshot`, with the two `expect` calls.
  unfoldable pub install :
      Result AcceptedRef.Error AcceptedRef
      → Option (Snapshot Content)
      → TransitionOutcome
      → Watcher Content
      → Polled Content
  install (ok record') (some snapshot) outcome w = some (
    record { decision = outcome.decision; reason = outcome.reason },
    record w { accepted = some record'; snapshot = some snapshot },
  )
  install (ok record') none outcome w = none
  install (err e) pending outcome w = none

  unfoldable pub install_active :
      RepositoryConfig
      → Option (Snapshot Content)
      → TransitionOutcome
      → Option Bytes
      → Watcher Content
      → Polled Content
  unfolding install
  install_active config pending outcome none w = none
  install_active config pending outcome (some commit) w =
      install (build_record config commit) pending outcome w

  -- A rejected candidate that was not suppressed yet is suppressed.
  unfoldable pub suppress : Option ReloadCandidate → Watcher Content → Watcher Content
  suppress none w = w
  suppress (some c) w =
      if not c.suppressed then record w { suppressed = insert c.commit w.suppressed } else w

  -- The match of `apply` on the decision.
  unfoldable pub apply_decision :
      RepositoryConfig
      → Option ReloadCandidate
      → Option (Snapshot Content)
      → TransitionOutcome
      → TransitionDecision
      → Watcher Content
      → Polled Content
  unfolding install_active suppress
  apply_decision config candidate pending outcome TransitionDecision.accept_forward w =
      install_active config pending outcome outcome.active_commit w
  apply_decision config candidate pending outcome TransitionDecision.retain_accepted w =
      some (record { decision = outcome.decision; reason = outcome.reason }, suppress candidate w)
  apply_decision config candidate pending outcome _ w =
      some (record { decision = outcome.decision; reason = outcome.reason }, w)

  -- `expect` on the outcome.
  unfoldable pub apply_outcome :
      RepositoryConfig
      → Option ReloadCandidate
      → Option (Snapshot Content)
      → Result AcceptedRef.Error TransitionOutcome
      → Watcher Content
      → Polled Content
  unfolding apply_decision
  apply_outcome config candidate pending (err e) w = none
  apply_outcome config candidate pending (ok outcome) w =
      apply_decision config candidate pending outcome outcome.decision w

  -- `apply`.
  unfoldable pub apply :
      RepositoryConfig
      → AcceptedRef
      → Option ReloadCandidate
      → Option (Snapshot Content)
      → Watcher Content
      → Polled Content
  unfolding apply_outcome
  apply config accepted candidate pending w =
      apply_outcome config candidate pending (evaluate_reload accepted candidate config) w

  module _ (json : Json) (config : RepositoryConfig) (obs : Observation Content) where
    -- A candidate that passed semantic validation: the new record is built and persisted.
    unfoldable pub persist_candidate :
        AcceptedRef
        → ReloadCandidate
        → Snapshot Content
        → Result AcceptedRef.Error AcceptedRef
        → Watcher Content
        → Polled Content
    persist_candidate accepted c snapshot (err e) w =
        apply config accepted
          (some (record c { persistence = Persistence.interrupted_before_rename })) none w
    persist_candidate accepted c snapshot (ok record') w =
        let (done, w') = persist_record json config record' obs.publishing w in
        if done
        then apply config accepted (some (record c { persistence = Persistence.success }))
            (some snapshot) w'
        else apply config accepted
            (some (record c { persistence = Persistence.interrupted_before_rename })) none w'

    -- A descendant: semantic validation, and persistence if it is valid.
    unfoldable pub validate_candidate :
        AcceptedRef → ReloadCandidate → Option (Snapshot Content) → Watcher Content → Polled Content
    unfolding persist_candidate
    validate_candidate accepted c none w =
        apply config accepted (some (record c { semantic_validity = SemanticValidity.invalid }))
          none w
    validate_candidate accepted c (some snapshot) w =
        persist_candidate accepted (record c { semantic_validity = SemanticValidity.valid })
          snapshot (build_record config c.commit) w

    -- The probed relation of a valid object.
    unfoldable pub relation : ObjectState → Ancestry
    unfolding known_relation
    relation object =
        if object_is_valid object
        then known_relation (ancestry obs.forward obs.backward)
        else Ancestry.not_evaluated

    -- `reload`, from the object probe on.
    unfoldable pub reload_object :
        AcceptedRef → Bytes → Option ObjectState → Watcher Content → Polled Content
    unfolding validate_candidate relation fresh_candidate object_is_valid
    reload_object accepted tip none w = apply config accepted none none w
    reload_object accepted tip (some object) w =
        let c = fresh_candidate config tip object (relation object) in
        if object_is_valid object && is_descendant c.ancestry
        then validate_candidate accepted c (semantic_validation tip obs)
            (record w { temp_counter = count_trees obs w.temp_counter })
        else apply config accepted (some c) none w

    -- `reload`, from the fetch on.
    unfoldable pub reload_fetched :
        AcceptedRef → Bytes → Option Bytes → Watcher Content → Polled Content
    unfolding reload_object
    reload_fetched accepted tip none w = apply config accepted none none w
    reload_fetched accepted tip (some observed) w =
        if not (beq observed tip)
        then apply config accepted none none w
        else reload_object accepted tip (object_state obs.object_exists obs.object_kind) w

    -- `reload`, at a tip.
    unfoldable pub reload_tip : AcceptedRef → Bytes → Watcher Content → Polled Content
    unfolding reload_fetched
    reload_tip accepted tip w =
        if beq tip accepted.accepted_commit
        then some (
          record {
            decision = TransitionDecision.unchanged;
            reason = TransitionReason.candidate_equals_accepted;
          },
          w,
        )
        else if contains w.suppressed tip
        then apply config accepted (some (rejected_candidate config tip)) none w
        else if not obs.fetch
        then apply config accepted none none w
        else reload_fetched accepted tip obs.watch_ref w

    -- `reload`: a failed or an empty `ls-remote` is an unavailable remote.
    unfoldable pub reload : AcceptedRef → Option (Option Bytes) → Watcher Content → Polled Content
    unfolding reload_tip
    reload accepted (some (some tip)) w = reload_tip accepted tip w
    reload accepted (some none) w = apply config accepted none none w
    reload accepted none w = apply config accepted none none w

    -- `poll_once`, behind the read of the accepted record.
    unfoldable pub poll_accepted : Option AcceptedRef → Watcher Content → Polled Content
    unfolding reload
    poll_accepted none w = some (
      record {
        decision = TransitionDecision.retain_accepted;
        reason = TransitionReason.remote_unavailable;
      },
      w,
    )
    poll_accepted (some accepted) w = reload accepted (remote_tip obs.ls_remote) w

    -- `poll_once`.
    unfoldable pub poll_once : Watcher Content → Polled Content
    unfolding poll_accepted
    poll_once w = poll_accepted w.accepted w
