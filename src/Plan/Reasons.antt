-- ===== src/Plan/Reasons.antt =====
-- The reasons of a candidate and its decision: `validate_reason_consistency` and `validate_decision`
-- of rust/src/update/plan.rs.
use pkgre.Prelude.{
  [], ◌∷◌, List, any, beq, ◌==◌, Bool, true, false, not, ◌&&◌, ◌||◌, Option, none, some, Result, ok,
  ◌>>=◌, ◌>>◌, ensure, ok_or, if◌then◌else◌,
}
use pkgre.Release.{new_name, inactive_name}
use pkgre.Plan.Order.{
  same_flag, same_option, is_some, same_activity, contains_reason, decision_rank,
}
use pkgre.Plan.{
  PlannedIdentity, ArchiveSummary, ArchiveDelta, ApiVersionEvidence, ApiEvidence, SourceEvidence,
  UpdateDecision, DecisionReason, UpdateCandidate, PlanError, unavailable, mismatch, automatic,
  review_required, blocked, new_package, inactive_revival, dormant_wakeup, new_dependency,
  build_surface_change, publisher_discontinuity, repository_discontinuity, unknown_dependency_home,
  forbidden_category_dependency, source_unavailable, source_mismatch, reason_disagrees,
  decision_disagrees, panicked,
}

-- `new_packages.is_empty()` and `build_surface.is_empty()`.
abbrev pub no_element {ℓ} : {A : Type ℓ} → List A → Bool
no_element [] = true
no_element (x ∷ xs) = false

abbrev pub build_surface_changes : Option ArchiveDelta → ArchiveSummary → Bool
build_surface_changes none candidate_archive = not (no_element candidate_archive.build_surface)
build_surface_changes (some delta) candidate_archive = delta.build_surface_changed

-- Two facts that are unknown or differ.
abbrev pub is_discontinuous {ℓ} : {A : Type ℓ} → (A → A → Bool) → Option A → Option A → Bool
is_discontinuous same base candidate =
    not (is_some base) || not (is_some candidate) || not (same_option same base candidate)

abbrev pub compare_versions : ApiVersionEvidence → ApiVersionEvidence → Bool × Bool
compare_versions base candidate = (
  is_discontinuous ◌==◌ base.publisher_id candidate.publisher_id,
  is_discontinuous beq base.repository candidate.repository,
)

-- The publisher and the repository discontinuity, of the base and the API evidence; an API base that
-- is absent panics.
unfoldable pub discontinuities :
    Option PlannedIdentity → Option ApiEvidence → Result PlanError (Bool × Bool)
discontinuities none api = ok (false, false)
discontinuities (some identity) none = ok (true, true)
discontinuities (some identity) (some api) = do
  base ← ok_or api.base panicked
  ok (compare_versions base api.candidate)

abbrev pub is_promoting : DecisionReason → Bool
is_promoting new_package = true
is_promoting inactive_revival = true
is_promoting dormant_wakeup = true
is_promoting new_dependency = true
is_promoting build_surface_change = true
is_promoting publisher_discontinuity = true
is_promoting repository_discontinuity = true
is_promoting _ = false

abbrev pub is_unavailable : SourceEvidence → Bool
is_unavailable (unavailable reason) = true
is_unavailable _ = false

abbrev pub is_mismatch : SourceEvidence → Bool
is_mismatch (mismatch comparison_sha256) = true
is_mismatch _ = false

-- `ensure!(candidate.reasons.contains(&reason) == expected)`.
abbrev pub agree : UpdateCandidate → DecisionReason → Bool → Result PlanError (Unit {0})
agree candidate reason expected =
    ensure (same_flag (contains_reason reason candidate.reasons) expected) reason_disagrees

unfoldable pub validate_reason_consistency : UpdateCandidate → Result PlanError (Unit {0})
unfolding discontinuities
validate_reason_consistency candidate = do
  agree candidate new_package (same_activity candidate.activity new_name)
  agree candidate inactive_revival (same_activity candidate.activity inactive_name)
  agree candidate dormant_wakeup (is_some candidate.dormant_gap)
  agree candidate new_dependency (not (no_element candidate.dependencies.new_packages))
  agree candidate build_surface_change
      (build_surface_changes candidate.archive_delta candidate.candidate_archive)
  changed ← discontinuities candidate.base candidate.api
  agree candidate publisher_discontinuity changed.0
  agree candidate repository_discontinuity changed.1
  agree candidate source_unavailable
      (any is_promoting candidate.reasons && is_unavailable candidate.source)
  agree candidate source_mismatch (is_mismatch candidate.source)

abbrev pub is_blocking : DecisionReason → Bool
is_blocking unknown_dependency_home = true
is_blocking forbidden_category_dependency = true
is_blocking source_mismatch = true
is_blocking _ = false

abbrev pub is_reviewed : DecisionReason → Bool
is_reviewed source_unavailable = true
is_reviewed reason = is_promoting reason

unfoldable pub expected_decision : List DecisionReason → UpdateDecision
expected_decision reasons =
    if any is_blocking reasons
    then blocked
    else if any is_reviewed reasons
    then review_required
    else automatic

unfoldable pub validate_decision : UpdateCandidate → Result PlanError (Unit {0})
unfolding expected_decision
validate_decision candidate =
    ensure (decision_rank candidate.decision == decision_rank (expected_decision candidate.reasons))
      decision_disagrees
