-- ===== src/AcceptedRef/Startup.antt =====
-- `evaluate_startup` of rust/src/accepted_ref.rs: who is the authority when the service starts.
use pkgre.Prelude.{
  Bytes, Bool, true, false, Option, none, some, Result, ok, err, is_ok, beq, if◌then◌else◌,
}
use pkgre.AcceptedRef.{
  Error, bootstrap_not_applicable, record_required, accepted_not_applicable, AcceptedRef,
  RepositoryConfig, valid_hex, validate,
}

pub data AcceptedRecordState : Type 0 where
  absent malformed present : AcceptedRecordState

pub data ObjectState : Type 0 where
  corrupt malformed missing not_applicable valid : ObjectState

pub record StartupInput : Type 0 where
  pub accepted_record : Option AcceptedRef
  pub accepted_record_state : AcceptedRecordState
  pub bootstrap_commit : Bytes
  pub bootstrap_object : ObjectState
  pub local_accepted_object : ObjectState

pub data TransitionDecision : Type 0 where
  accept_forward bootstrap fail_startup retain_accepted start_accepted unchanged :
      TransitionDecision

pub data TransitionReason : Type 0 where
  accepted_object_invalid accepted_object_unavailable accepted_record_absent : TransitionReason
  accepted_record_authority accepted_record_malformed bootstrap_object_invalid : TransitionReason
  bootstrap_object_unavailable candidate_ancestry_unknown : TransitionReason
  candidate_commit_malformed candidate_equals_accepted candidate_not_descendant : TransitionReason
  candidate_object_unavailable durable_persistence_failed full_ref_mismatch : TransitionReason
  rejected_hash_suppressed remote_unavailable repository_identity_mismatch : TransitionReason
  semantic_validation_failed valid_forward_candidate : TransitionReason

pub record TransitionOutcome : Type 0 where
  pub accepted_commit : Option Bytes
  pub active_commit : Option Bytes
  pub candidate_load : Option Bool
  pub decision : TransitionDecision
  pub persist_record : Bool
  pub reason : TransitionReason

unfoldable pub startup_outcome :
    TransitionDecision → TransitionReason → Option Bytes → Option Bytes → Bool → TransitionOutcome
startup_outcome decision reason accepted_commit active_commit persist_record = record {
  accepted_commit = accepted_commit;
  active_commit = active_commit;
  candidate_load = none;
  decision = decision;
  persist_record = persist_record;
  reason = reason;
}

abbrev pub failure : TransitionReason → Option Bytes → Result Error TransitionOutcome
unfolding startup_outcome
failure reason accepted_commit =
    ok (startup_outcome TransitionDecision.fail_startup reason accepted_commit none false)

-- The arm for an absent record: a valid object whose name is no commit name falls through to the
-- arm of the invalid ones.
unfoldable pub startup_absent : Bytes → ObjectState → Result Error TransitionOutcome
unfolding startup_outcome
startup_absent commit ObjectState.valid =
    if valid_hex commit 40
    then ok (
        startup_outcome TransitionDecision.bootstrap TransitionReason.accepted_record_absent
          (some commit) (some commit) true)
    else failure TransitionReason.bootstrap_object_invalid none
startup_absent commit ObjectState.missing =
    failure TransitionReason.bootstrap_object_unavailable none
startup_absent commit ObjectState.corrupt = failure TransitionReason.bootstrap_object_invalid none
startup_absent commit ObjectState.malformed = failure TransitionReason.bootstrap_object_invalid none
startup_absent commit ObjectState.not_applicable = err bootstrap_not_applicable

-- The last match: the state of the accepted object in the local mirror.
unfoldable pub startup_object : Bytes → ObjectState → Result Error TransitionOutcome
unfolding startup_outcome
startup_object commit ObjectState.valid = ok (
    startup_outcome TransitionDecision.start_accepted TransitionReason.accepted_record_authority
      (some commit) (some commit) false)
startup_object commit ObjectState.missing =
    failure TransitionReason.accepted_object_unavailable (some commit)
startup_object commit ObjectState.corrupt =
    failure TransitionReason.accepted_object_invalid (some commit)
startup_object commit ObjectState.malformed =
    failure TransitionReason.accepted_object_invalid (some commit)
startup_object commit ObjectState.not_applicable = err accepted_not_applicable

-- What follows the first match: the record is claimed to be present.
unfoldable pub startup_present :
    Option AcceptedRef → ObjectState → RepositoryConfig → Result Error TransitionOutcome
unfolding startup_object
startup_present none object config = err record_required
startup_present (some r) object config =
    if is_ok (validate r)
    then if beq r.repository_identity config.repository_identity
      then if beq r.full_ref config.full_ref
        then startup_object r.accepted_commit object
        else failure TransitionReason.full_ref_mismatch none
      else failure TransitionReason.repository_identity_mismatch none
    else failure TransitionReason.accepted_record_malformed none

unfoldable pub startup_dispatch :
    AcceptedRecordState → StartupInput → RepositoryConfig → Result Error TransitionOutcome
unfolding startup_absent startup_present
startup_dispatch AcceptedRecordState.malformed input config =
    failure TransitionReason.accepted_record_malformed none
startup_dispatch AcceptedRecordState.absent input config =
    startup_absent input.bootstrap_commit input.bootstrap_object
startup_dispatch AcceptedRecordState.present input config =
    startup_present input.accepted_record input.local_accepted_object config

unfoldable pub evaluate_startup : StartupInput → RepositoryConfig → Result Error TransitionOutcome
unfolding startup_dispatch
evaluate_startup input config = startup_dispatch input.accepted_record_state input config
