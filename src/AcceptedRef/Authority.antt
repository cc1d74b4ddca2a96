-- ===== src/AcceptedRef/Authority.antt =====
-- What startup may serve: the laws of `evaluate_startup` of rust/src/accepted_ref.rs.
use mathlib.Core.Path.{subst}
use pkgre.Prelude.{
  ◌≡◌, ◌≢◌, ◌↔◌, ◌⊎◌, inl, inr, refl, Bytes, true, false, Option, none, some, ok, arith, ap, beq→eq,
  beq_iff, is_ok-unit, Option-cases,
}
use pkgre.AcceptedRef.{AcceptedRef, RepositoryConfig, validate, valid_hex}
use pkgre.AcceptedRef.Startup.{
  AcceptedRecordState, ObjectState, StartupInput, TransitionDecision, TransitionReason,
  TransitionOutcome, startup_absent, startup_present, startup_dispatch, startup_outcome,
  evaluate_startup,
}
use pkgre.AcceptedRef.Records.{IsLowerHex, valid_hex_iff, IsBound, validate_iff}

-- The two ways in which a commit is the authority.
pub data Authority (input : StartupInput) (config : RepositoryConfig) (commit : Bytes)
    : Type 0 where
  bootstrapped :
      input.accepted_record_state ≡ AcceptedRecordState.absent
      → input.bootstrap_object ≡ ObjectState.valid
      → IsLowerHex 40 commit
      → input.bootstrap_commit ≡ commit
      → Authority input config commit
  recorded :
      (r : AcceptedRef)
      → input.accepted_record_state ≡ AcceptedRecordState.present
      → input.accepted_record ≡ some r
      → IsBound config r
      → input.local_accepted_object ≡ ObjectState.valid
      → r.accepted_commit ≡ commit
      → Authority input config commit

-- Startup ends with `commit` as the commit to serve.
abbrev pub StartsAt : StartupInput → RepositoryConfig → Bytes → Type 0
StartsAt input config commit =
    (o : TransitionOutcome) × (evaluate_startup input config ≡ ok o)
    × (o.active_commit ≡ some commit)

absent_sound :
    (commit : Bytes) (object : ObjectState) (o : TransitionOutcome) (active : Bytes)
    → startup_absent commit object ≡ ok o
    → o.active_commit ≡ some active
    → (object ≡ ObjectState.valid) × (valid_hex commit 40 ≡ true) × (commit ≡ active)
unfolding startup_absent
absent_sound commit object o active h e = ground arith

present_sound :
    (record' : Option AcceptedRef) (object : ObjectState) (config : RepositoryConfig)
    (o : TransitionOutcome) (active : Bytes)
    → startup_present record' object config ≡ ok o
    → o.active_commit ≡ some active
    → (r : AcceptedRef) × (record' ≡ some r)
      × IsBound config r
      × (object ≡ ObjectState.valid)
      × (r.accepted_commit ≡ active)
unfolding startup_present
present_sound none object config o active h e = ground arith
present_sound (some r) object config o active h e = (
  r,
  refl,
  record {
    canonical = (validate_iff r).0 (is_ok-unit (validate r) (ground arith));
    identity = beq→eq r.repository_identity config.repository_identity (ground arith);
    full_ref = beq→eq r.full_ref config.full_ref (ground arith);
  },
  ground arith,
  ground arith,
)

present_complete :
    (r : AcceptedRef) (config : RepositoryConfig)
    → IsBound config r
    → startup_present (some r) ObjectState.valid config
      ≡ ok (
          startup_outcome TransitionDecision.start_accepted
            TransitionReason.accepted_record_authority
            (some r.accepted_commit)
            (some r.accepted_commit)
            false)
unfolding startup_present
present_complete r config b = rw (
  (validate_iff r).1 b.canonical,
  (beq_iff r.repository_identity config.repository_identity).1 b.identity,
  (beq_iff r.full_ref config.full_ref).1 b.full_ref,
)

Authority-sound :
    (state : AcceptedRecordState) (input : StartupInput) (config : RepositoryConfig)
    (o : TransitionOutcome) (commit : Bytes)
    → input.accepted_record_state ≡ state
    → startup_dispatch state input config ≡ ok o
    → o.active_commit ≡ some commit
    → Authority input config commit
unfolding startup_dispatch
Authority-sound AcceptedRecordState.absent input config o commit at h e =
    let (valid, hex, same) =
      absent_sound input.bootstrap_commit input.bootstrap_object o commit h e in
    bootstrapped at valid
      (subst (IsLowerHex 40) same ((valid_hex_iff input.bootstrap_commit 40).0 hex)) same
Authority-sound AcceptedRecordState.malformed input config o commit at h e = ground arith
Authority-sound AcceptedRecordState.present input config o commit at h e =
    let (r, given, bound, valid, same) =
      present_sound input.accepted_record input.local_accepted_object config o commit h e in
    recorded r at given bound valid same

Authority-complete :
    (input : StartupInput) (config : RepositoryConfig) (commit : Bytes)
    → Authority input config commit
    → StartsAt input config commit
unfolding evaluate_startup
Authority-complete input config commit (bootstrapped at valid hex same) = (
  startup_outcome TransitionDecision.bootstrap TransitionReason.accepted_record_absent
      (some input.bootstrap_commit) (some input.bootstrap_commit) true,
  rw (at, valid, same, (valid_hex_iff commit 40).1 hex),
  ap some same,
)
Authority-complete input config commit (recorded r at given bound valid same) = (
  startup_outcome TransitionDecision.start_accepted TransitionReason.accepted_record_authority
      (some r.accepted_commit) (some r.accepted_commit) false,
  rw (at, given, valid, present_complete r config bound),
  ap some same,
)

-- Startup ends with a commit to serve exactly in two cases: no record exists, and the commit is the
-- configured bootstrap commit, well formed and present as a commit object; or a canonical record
-- that is bound to the configuration names the commit, and its object is valid.
pub StartsAt-iff :
    (input : StartupInput) (config : RepositoryConfig) (commit : Bytes)
    → StartsAt input config commit ↔ Authority input config commit
unfolding evaluate_startup
StartsAt-iff input config commit = (
  λ s. Authority-sound input.accepted_record_state input config s.0 commit refl s.1 s.2,
  Authority-complete input config commit,
)

-- What an outcome of startup says about itself.
pub record IsCoherent (o : TransitionOutcome) : Type 0 where
  pub persists_on_bootstrap : o.decision ≡ TransitionDecision.bootstrap → o.persist_record ≡ true
  pub persists_only : o.persist_record ≡ true → o.decision ≡ TransitionDecision.bootstrap
  pub fails_inactive : o.decision ≡ TransitionDecision.fail_startup → o.active_commit ≡ none
  pub inactive_fails : o.active_commit ≡ none → o.decision ≡ TransitionDecision.fail_startup
  pub starts :
      (o.decision ≡ TransitionDecision.bootstrap)
      ⊎ (o.decision ≡ TransitionDecision.start_accepted)
      ⊎ (o.decision ≡ TransitionDecision.fail_startup)
  pub serves_accepted :
      (commit : Bytes) → o.active_commit ≡ some commit → o.accepted_commit ≡ some commit

dispatch-IsCoherent :
    (state : AcceptedRecordState) (input : StartupInput) (config : RepositoryConfig)
    (o : TransitionOutcome)
    → startup_dispatch state input config ≡ ok o
    → IsCoherent o
unfolding startup_dispatch
dispatch-IsCoherent state input config o h = record {
  persists_on_bootstrap = ground arith;
  persists_only = ground arith;
  fails_inactive = ground arith;
  inactive_fails = ground arith;
  starts = ground arith;
  serves_accepted = λ commit e. ground arith;
}

-- An outcome of startup is a bootstrap, a start from the record, or a failure. It asks for the record
-- to be written exactly on a bootstrap, it has no active commit exactly on a failure, and a commit
-- that becomes active is also the accepted one.
pub startup-IsCoherent :
    (input : StartupInput) (config : RepositoryConfig) (o : TransitionOutcome)
    → evaluate_startup input config ≡ ok o
    → IsCoherent o
unfolding evaluate_startup
startup-IsCoherent input config o h =
    dispatch-IsCoherent input.accepted_record_state input config o h

absent_decides :
    (commit : Bytes) (object : ObjectState) (o : TransitionOutcome)
    → startup_absent commit object ≡ ok o
    → o.decision ≢ TransitionDecision.start_accepted
unfolding startup_absent
absent_decides commit object o h = λ d. ground arith

present_decides :
    (record' : Option AcceptedRef) (object : ObjectState) (config : RepositoryConfig)
    (o : TransitionOutcome)
    → startup_present record' object config ≡ ok o
    → o.decision ≢ TransitionDecision.bootstrap
unfolding startup_present
present_decides none object config o h = λ d. ground arith
present_decides (some r) object config o h = λ d. ground arith

dispatch_bootstrap :
    (state : AcceptedRecordState) (input : StartupInput) (config : RepositoryConfig)
    (o : TransitionOutcome)
    → startup_dispatch state input config ≡ ok o
    → o.decision ≡ TransitionDecision.bootstrap
    → (state ≡ AcceptedRecordState.absent)
      × IsLowerHex 40 input.bootstrap_commit
      × (o.active_commit ≡ some input.bootstrap_commit)
unfolding startup_dispatch
dispatch_bootstrap AcceptedRecordState.absent input config o h d =
    (refl, (valid_hex_iff input.bootstrap_commit 40).0 (ground arith), ground arith)
dispatch_bootstrap AcceptedRecordState.malformed input config o h d = absurd (ground arith)
dispatch_bootstrap AcceptedRecordState.present input config o h d =
    absurd (present_decides input.accepted_record input.local_accepted_object config o h d)

-- A bootstrap happens only without a record.
pub bootstrap_sound :
    (input : StartupInput) (config : RepositoryConfig) (o : TransitionOutcome)
    → evaluate_startup input config ≡ ok o
    → o.decision ≡ TransitionDecision.bootstrap
    → (input.accepted_record_state ≡ AcceptedRecordState.absent)
      × IsLowerHex 40 input.bootstrap_commit
      × (o.active_commit ≡ some input.bootstrap_commit)
unfolding evaluate_startup
bootstrap_sound input config o h d =
    dispatch_bootstrap input.accepted_record_state input config o h d

dispatch_accepted :
    (state : AcceptedRecordState) (input : StartupInput) (config : RepositoryConfig)
    (o : TransitionOutcome)
    → startup_dispatch state input config ≡ ok o
    → o.decision ≡ TransitionDecision.start_accepted
    → (r : AcceptedRef) × (state ≡ AcceptedRecordState.present)
      × (input.accepted_record ≡ some r)
      × IsBound config r
unfolding startup_dispatch
dispatch_accepted AcceptedRecordState.absent input config o h d =
    absurd (absent_decides input.bootstrap_commit input.bootstrap_object o h d)
dispatch_accepted AcceptedRecordState.malformed input config o h d = absurd (ground arith)
dispatch_accepted AcceptedRecordState.present input config o h d =
    elim (Option-cases o.active_commit) [
      | inl inactive ↦
          let c = dispatch-IsCoherent AcceptedRecordState.present input config o h in
          absurd (ground (arith, c.inactive_fails inactive))
      | inr (commit, active) ↦
          let (r, given, bound, _, _) =
            present_sound input.accepted_record input.local_accepted_object config o commit h
              active in
          (r, refl, given, bound)
    ]

-- A start from the record has a canonical record that is bound to the configuration.
pub start_accepted_sound :
    (input : StartupInput) (config : RepositoryConfig) (o : TransitionOutcome)
    → evaluate_startup input config ≡ ok o
    → o.decision ≡ TransitionDecision.start_accepted
    → (r : AcceptedRef) × (input.accepted_record_state ≡ AcceptedRecordState.present)
      × (input.accepted_record ≡ some r)
      × IsBound config r
unfolding evaluate_startup
start_accepted_sound input config o h d =
    dispatch_accepted input.accepted_record_state input config o h d
