-- ===== src/AcceptedRef/Reload.antt =====
-- `evaluate_reload` of rust/src/accepted_ref.rs: what one observed candidate does to the accepted
-- commit.
use pkgre.Prelude.{
  Bytes, Bool, true, false, not, ◌||◌, Option, none, some, Result, ok, err, beq, if◌then◌else◌,
  ◌>>◌,
}
use pkgre.AcceptedRef.{
  Error, inconsistent_ancestry, validity_not_evaluated, persistence_not_attempted, AcceptedRef,
  RepositoryConfig, valid_hex, validate_record,
}
use pkgre.AcceptedRef.Startup.{ObjectState, TransitionDecision, TransitionReason, TransitionOutcome}

pub data Ancestry : Type 0 where
  descendant divergent equal not_evaluated predecessor unknown : Ancestry

pub data Persistence : Type 0 where
  interrupted_before_rename not_attempted success : Persistence

pub data SemanticValidity : Type 0 where
  invalid not_evaluated valid : SemanticValidity

pub record ReloadCandidate : Type 0 where
  pub ancestry : Ancestry
  pub commit : Bytes
  pub full_ref : Bytes
  pub object_state : ObjectState
  pub persistence : Persistence
  pub repository_identity : Bytes
  pub semantic_validity : SemanticValidity
  pub suppressed : Bool

unfoldable pub reload_outcome :
    TransitionDecision → TransitionReason → Bytes → Bool → Bool → TransitionOutcome
reload_outcome decision reason accepted_commit candidate_load persist_record = record {
  accepted_commit = some accepted_commit;
  active_commit = some accepted_commit;
  candidate_load = some candidate_load;
  decision = decision;
  persist_record = persist_record;
  reason = reason;
}

abbrev pub retain : TransitionReason → Bytes → Bool → Result Error TransitionOutcome
unfolding reload_outcome
retain reason accepted candidate_load =
    ok (reload_outcome TransitionDecision.retain_accepted reason accepted candidate_load false)

-- `candidate.object_state == ObjectState::Malformed` and `… == ObjectState::Valid`.
unfoldable pub object_is_malformed : ObjectState → Bool
object_is_malformed ObjectState.malformed = true
object_is_malformed _ = false

unfoldable pub object_is_valid : ObjectState → Bool
object_is_valid ObjectState.valid = true
object_is_valid _ = false

-- The match on the persistence of a valid candidate.
unfoldable pub reload_persistence : Bytes → Bytes → Persistence → Result Error TransitionOutcome
unfolding reload_outcome
reload_persistence accepted commit Persistence.interrupted_before_rename =
    retain TransitionReason.durable_persistence_failed accepted true
reload_persistence accepted commit Persistence.success = ok (record {
  accepted_commit = some commit;
  active_commit = some commit;
  candidate_load = some true;
  decision = TransitionDecision.accept_forward;
  persist_record = true;
  reason = TransitionReason.valid_forward_candidate;
})
reload_persistence accepted commit Persistence.not_attempted = err persistence_not_attempted

-- The match on semantic validity.
unfoldable pub reload_validity :
    Bytes → ReloadCandidate → SemanticValidity → Result Error TransitionOutcome
unfolding reload_persistence
reload_validity accepted c SemanticValidity.invalid =
    retain TransitionReason.semantic_validation_failed accepted true
reload_validity accepted c SemanticValidity.valid =
    reload_persistence accepted c.commit c.persistence
reload_validity accepted c SemanticValidity.not_evaluated = err validity_not_evaluated

-- The match on ancestry.
unfoldable pub reload_ancestry : Bytes → ReloadCandidate → Ancestry → Result Error TransitionOutcome
unfolding reload_validity
reload_ancestry accepted c Ancestry.predecessor =
    retain TransitionReason.candidate_not_descendant accepted false
reload_ancestry accepted c Ancestry.divergent =
    retain TransitionReason.candidate_not_descendant accepted false
reload_ancestry accepted c Ancestry.unknown =
    retain TransitionReason.candidate_ancestry_unknown accepted false
reload_ancestry accepted c Ancestry.descendant = reload_validity accepted c c.semantic_validity
reload_ancestry accepted c Ancestry.equal = err inconsistent_ancestry
reload_ancestry accepted c Ancestry.not_evaluated = err inconsistent_ancestry

-- The guards in front of the ancestry match, in the source's order.
unfoldable pub reload_candidate :
    Bytes → ReloadCandidate → RepositoryConfig → Result Error TransitionOutcome
unfolding reload_outcome reload_ancestry object_is_malformed object_is_valid
reload_candidate accepted c config =
    if not (beq c.repository_identity config.repository_identity)
    then retain TransitionReason.repository_identity_mismatch accepted false
    else if not (beq c.full_ref config.full_ref)
    then retain TransitionReason.full_ref_mismatch accepted false
    else if not (valid_hex c.commit 40) || object_is_malformed c.object_state
    then retain TransitionReason.candidate_commit_malformed accepted false
    else if c.suppressed
    then retain TransitionReason.rejected_hash_suppressed accepted false
    else if not (object_is_valid c.object_state)
    then retain TransitionReason.candidate_object_unavailable accepted false
    else if beq c.commit accepted
    then ok (
        reload_outcome TransitionDecision.unchanged TransitionReason.candidate_equals_accepted
          accepted false false)
    else reload_ancestry accepted c c.ancestry

unfoldable pub reload_observed :
    Bytes → Option ReloadCandidate → RepositoryConfig → Result Error TransitionOutcome
unfolding reload_candidate
reload_observed accepted none config = retain TransitionReason.remote_unavailable accepted false
reload_observed accepted (some c) config = reload_candidate accepted c config

unfoldable pub evaluate_reload :
    AcceptedRef → Option ReloadCandidate → RepositoryConfig → Result Error TransitionOutcome
unfolding reload_observed
evaluate_reload accepted_record candidate config = do
  validate_record config accepted_record
  reload_observed accepted_record.accepted_commit candidate config
