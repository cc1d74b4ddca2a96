-- ===== src/Examples/References.antt =====
-- The theorems on accepted-ref records and transitions, applied.
use mathlib.Core.Path.{subst}
use pkgre.Prelude.{◌≡◌, ◌↔◌, refl, [], ◌∷◌, ◌++◌, Bytes, codes, true, false, none, some, ok}
use pkgre.AcceptedRef.{
  validate, validate_record, valid_hex, valid_full_ref, is_lower_hex, is_ascii_whitespace,
  is_ascii_control, identity_frame, derive_repository_identity, canonical_accepted_ref_bytes,
  parse_accepted_ref,
}
use pkgre.AcceptedRef.Startup.{
  AcceptedRecordState, ObjectState, StartupInput, TransitionDecision, TransitionReason,
  TransitionOutcome, evaluate_startup,
}
use pkgre.AcceptedRef.Reload.{
  Ancestry, Persistence, SemanticValidity, ReloadCandidate, evaluate_reload,
}
use pkgre.AcceptedRef.Records.{IsBound}
use pkgre.AcceptedRef.Authority.{Authority, StartsAt, StartsAt-iff, IsCoherent, startup-IsCoherent}
use pkgre.AcceptedRef.Forward.{
  Takes, IsRetained, IsPhased, accept_forward_iff, reload-IsRetained, forward_outcome,
}
use pkgre.AcceptedRef.Canonical.{parse-canonical_iff}
use pkgre.Examples.Fixture.{
  forty, other_forty, main_ref, sixty_four, config, first_record, plain_json, plain_json-ReadsBack,
}

abbrev first_start : StartupInput
first_start = record {
  accepted_record = none;
  accepted_record_state = AcceptedRecordState.absent;
  bootstrap_commit = forty;
  bootstrap_object = ObjectState.valid;
  local_accepted_object = ObjectState.not_applicable;
}

StartsAt-iff_example : StartsAt first_start config forty ↔ Authority first_start config forty
StartsAt-iff_example = StartsAt-iff first_start config forty

abbrev bootstrapped_outcome : TransitionOutcome
bootstrapped_outcome = record {
  accepted_commit = some forty;
  active_commit = some forty;
  candidate_load = none;
  decision = TransitionDecision.bootstrap;
  persist_record = true;
  reason = TransitionReason.accepted_record_absent;
}

first_start_runs : evaluate_startup first_start config ≡ ok bootstrapped_outcome
unfolding evaluate_startup valid_hex is_lower_hex
first_start_runs = refl

startup-IsCoherent_example : IsCoherent bootstrapped_outcome
startup-IsCoherent_example =
    startup-IsCoherent first_start config bootstrapped_outcome first_start_runs

abbrev forward_candidate : ReloadCandidate
forward_candidate = record {
  ancestry = Ancestry.descendant;
  commit = other_forty;
  full_ref = main_ref;
  object_state = ObjectState.valid;
  persistence = Persistence.success;
  repository_identity = sixty_four;
  semantic_validity = SemanticValidity.valid;
  suppressed = false;
}

accept_forward_iff_example :
    ((evaluate_reload first_record (some forward_candidate) config
        ≡ ok (forward_outcome other_forty))
      × (TransitionDecision.accept_forward ≡ TransitionDecision.accept_forward))
    ↔ (IsBound config first_record
        × Takes forty config (some forward_candidate) (forward_outcome other_forty))
accept_forward_iff_example =
    accept_forward_iff first_record (some forward_candidate) config (forward_outcome other_forty)

abbrev retained_outcome : TransitionOutcome
retained_outcome = record {
  accepted_commit = some forty;
  active_commit = some forty;
  candidate_load = some false;
  decision = TransitionDecision.retain_accepted;
  persist_record = false;
  reason = TransitionReason.remote_unavailable;
}

offline_runs : evaluate_reload first_record none config ≡ ok retained_outcome
unfolding evaluate_reload validate_record validate valid_hex is_lower_hex valid_full_ref
    is_ascii_whitespace is_ascii_control
offline_runs = refl

reload-IsRetained_example : IsRetained forty retained_outcome
reload-IsRetained_example =
    reload-IsRetained first_record none config retained_outcome offline_runs (λ e. absurd (cc))

forward-IsPhased : IsPhased forward_candidate
forward-IsPhased = record {
  compared = λ _. ((λ e. absurd (cc)), (λ e. absurd (cc)));
  validated = λ _ _ e. absurd (cc);
  attempted = λ _ _ _ e. absurd (cc);
}

only-IsPhased : (c : ReloadCandidate) → some forward_candidate ≡ some c → IsPhased c
only-IsPhased c e = let same : forward_candidate ≡ c = cc in subst IsPhased same forward-IsPhased

abbrev first_bytes : Bytes
first_bytes = elim (plain_json.to_vec_pretty first_record) [ none ↦ [] | some b ↦ b ++ b'\n' ∷ [] ]

first_printed : canonical_accepted_ref_bytes plain_json first_record config ≡ ok first_bytes
unfolding canonical_accepted_ref_bytes validate_record validate valid_hex is_lower_hex
    valid_full_ref is_ascii_whitespace is_ascii_control
first_printed = refl

parse-canonical_iff_example :
    (parse_accepted_ref plain_json first_bytes config ≡ ok first_record)
    ↔ (canonical_accepted_ref_bytes plain_json first_record config ≡ ok first_bytes)
parse-canonical_iff_example =
    parse-canonical_iff plain_json plain_json-ReadsBack config first_bytes first_record

first_parsed : parse_accepted_ref plain_json first_bytes config ≡ ok first_record
first_parsed = parse-canonical_iff_example.1 first_printed

-- A digest that keeps its input, so that it has no collision.
abbrev keep_all : Bytes → Bytes
keep_all bytes = bytes

abbrev origin : Bytes
origin = codes "https://example.org/catalog"

origin_identity :
    derive_repository_identity keep_all origin main_ref ≡ ok (identity_frame origin main_ref)
unfolding derive_repository_identity
origin_identity = refl
