-- ===== src/Plan/Check.antt =====
-- The validation of an update plan: `validate_update_plan_with` and `validate_candidate` of
-- rust/src/update/plan.rs. The package's version and the texts of versions are parameters.
use pkgre.Prelude.{
  [], ◌∷◌, List, Bytes, any, beq, leb, ltb, ◌==◌, Bool, true, false, not, ◌&&◌, Option, none, some,
  Result, ok, ◌>>=◌, ◌>>◌, ensure, ok_or,
}
use pkgre.Release.{Version, leb_bytes, min_release_age_days, dormant_release_gap_days}
use pkgre.Download.{then_by, lowercase}
use pkgre.Plan.Order.{increasing, is_some, before_reason, package_identity}
use pkgre.Plan.Candidate.{
  if_some, validate_candidate_route, validate_candidate_release, validate_candidate_archives,
}
use pkgre.Plan.Evidence.{
  validate_dependency_delta, validate_publication_gap, validate_api_evidence,
  validate_source_evidence,
}
use pkgre.Plan.Reasons.{validate_reason_consistency, validate_decision}
use pkgre.Plan.{
  update_plan_schema, validate_hash, UpdateCandidate, UpdatePlan, PlanError, bad_schema,
  bad_indexer, other_indexer, bad_constants, zero_threshold, not_ordered, repeated_identity,
  reasons_not_ordered,
}

-- The order of the candidates' keys.
unfoldable pub leb_key : UpdateCandidate → UpdateCandidate → Bool
leb_key =
    then_by (λ a b. leb_bytes a.registry b.registry)
      (then_by (λ a b. leb_bytes (lowercase a.name) (lowercase b.name))
        (then_by (λ a b. leb_bytes a.name b.name)
          (then_by (λ a b. leb a.candidate.version.major b.candidate.version.major)
            (then_by (λ a b. leb a.candidate.version.minor b.candidate.version.minor)
              (then_by (λ a b. leb a.candidate.version.patch b.candidate.version.patch)
                (λ a b. leb_bytes a.candidate.version.pre b.candidate.version.pre))))))

-- The equality of the Cargo package identities of two candidates.
unfoldable pub same_identity : UpdateCandidate → UpdateCandidate → Bool
unfolding package_identity
same_identity a b =
    beq a.registry b.registry
    && beq (package_identity a.name) (package_identity b.name)
    && (a.candidate.version.major == b.candidate.version.major)
    && (a.candidate.version.minor == b.candidate.version.minor)
    && (a.candidate.version.patch == b.candidate.version.patch)
    && beq a.candidate.version.pre b.candidate.version.pre

-- `previous.is_none_or(|value| value < &key)`.
unfoldable pub follows : Option UpdateCandidate → UpdateCandidate → Bool
unfolding leb_key
follows none candidate = true
follows (some previous) candidate = not (leb_key candidate previous)

module _ (leb_version : Version → Version → Bool) where
  unfoldable pub validate_candidate : UpdatePlan → UpdateCandidate → Result PlanError (Unit {0})
  unfolding validate_candidate_route validate_candidate_release validate_hash
      validate_candidate_archives validate_dependency_delta validate_publication_gap
      validate_api_evidence validate_source_evidence validate_reason_consistency validate_decision
  validate_candidate plan candidate = do
    validate_candidate_route candidate
    validate_candidate_release leb_version plan candidate
    validate_hash candidate.sparse_index_sha256
    validate_hash candidate.decision_history_sha256
    validate_candidate_archives candidate
    validate_dependency_delta candidate.dependencies
    if_some (validate_publication_gap candidate plan.dormant_release_gap_days) candidate.dormant_gap
    if_some (validate_api_evidence (is_some candidate.base)) candidate.api
    validate_source_evidence candidate candidate.source
    ensure (increasing before_reason candidate.reasons) reasons_not_ordered
    validate_reason_consistency candidate
    validate_decision candidate

  -- The loop over the candidates, with the previous one and the ones whose identities are taken.
  unfoldable pub validate_candidates :
      UpdatePlan
      → Option UpdateCandidate
      → List UpdateCandidate
      → List UpdateCandidate
      → Result PlanError (Unit {0})
  unfolding same_identity validate_candidate
  validate_candidates plan previous identities [] = ok tt
  validate_candidates plan previous identities (candidate ∷ candidates) = do
    ensure (follows previous candidate) not_ordered
    ensure (not (any (same_identity candidate) identities)) repeated_identity
    validate_candidate plan candidate
    validate_candidates plan (some candidate) (candidate ∷ identities) candidates

  module _ (parse_version : Bytes → Option Version) (to_string : Version → Bytes)
      (pkg_version : Bytes) where
    abbrev pub check_constants : UpdatePlan → Bool → Result PlanError (Unit {0})
    check_constants plan true = do
      ensure (beq plan.indexer_version pkg_version) other_indexer
      ensure
          ((plan.min_release_age_days == min_release_age_days)
            && (plan.dormant_release_gap_days == dormant_release_gap_days))
          bad_constants
    check_constants plan false =
        ensure (ltb 0 plan.min_release_age_days && ltb 0 plan.dormant_release_gap_days)
          zero_threshold

    unfoldable pub validate_update_plan_with : UpdatePlan → Bool → Result PlanError (Unit {0})
    unfolding validate_hash validate_candidates
    validate_update_plan_with plan require_current_indexer = do
      ensure (plan.schema == update_plan_schema) bad_schema
      indexer_version ← ok_or (parse_version plan.indexer_version) bad_indexer
      ensure (beq plan.indexer_version (to_string indexer_version)) bad_indexer
      check_constants plan require_current_indexer
      validate_hash plan.catalog_sha256
      validate_candidates plan none [] plan.candidates

    unfoldable pub validate_update_plan : UpdatePlan → Result PlanError (Unit {0})
    unfolding validate_update_plan_with
    validate_update_plan plan = validate_update_plan_with plan true

    unfoldable pub validate_historical_update_plan : UpdatePlan → Result PlanError (Unit {0})
    unfolding validate_update_plan_with
    validate_historical_update_plan plan = validate_update_plan_with plan false
