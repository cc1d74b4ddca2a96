-- ===== src/Plan/Candidate.antt =====
-- The checks of a candidate's route, release, lane and archives: the functions
-- `validate_candidate_route` to `validate_archive_delta` of rust/src/update/plan.rs.
use pkgre.Prelude.{
  ◌*◌, [], ◌∷◌, List, Bytes, any, beq, leb, ltb, ◌==◌, Bool, not, ◌&&◌, Option, none, some, Result,
  ok, err, ◌>>=◌, ◌>>◌, ensure, ok_or, map_err,
}
use pkgre.Time.Stamp.{duration_since, checked_mul}
use pkgre.Category.{is_empty, from_str}
use pkgre.Release.{
  Version, CompatibilityLane, PackageActivity, new_name, inactive_name, active_name, implicit_lane,
  in_lane, leb_time,
}
use pkgre.Policy.{validate_package_name}
use pkgre.Transition.{each}
use pkgre.Plan.Order.{
  increasing, before, same_flag, is_some, same_surface, equal_version, same_activity,
  contains_reason,
}
use pkgre.Plan.{
  validate_hash, validate_git_commit, validate_relative_path, PlannedIdentity, ArchiveSummary,
  ArchiveDelta, UpdateCandidate, UpdatePlan, PlanError, explicit_candidate, wrong_registry,
  future_candidate, wrong_age, threshold_overflow, too_young, repeated_base, candidate_before_base,
  unexpected_base, missing_base, lane_of_inactive, wrong_lane, wrong_base_lane, not_newer_than_base,
  explicit_disagrees, empty_archive, empty_surface, path_without_commit, archives_disagree,
  surface_disagrees, paths_not_ordered, paths_overlap, panicked, bad_package, bad_category,
}

-- `validate_candidate_route`.
unfoldable pub validate_candidate_route : UpdateCandidate → Result PlanError (Unit {0})
unfolding validate_package_name from_str
validate_candidate_route candidate = do
  map_err bad_package (validate_package_name candidate.name)
  category ← map_err bad_category (from_str candidate.category)
  ensure (beq category.registry candidate.registry) wrong_registry

unfoldable pub validate_identity : PlannedIdentity → Result PlanError (Unit {0})
unfolding validate_hash
validate_identity identity = do
  validate_hash identity.source_row_sha256
  validate_hash identity.crate_sha256

-- `if let Some(value) = option { ... }`.
abbrev pub if_some {ℓ κ} :
    {A : Type ℓ} {E : Type κ} → (A → Result E (Unit {0})) → Option A → Result E (Unit {0})
if_some check none = ok tt
if_some check (some a) = check a

unfoldable pub validate_base : PlannedIdentity → PlannedIdentity → Result PlanError (Unit {0})
unfolding validate_identity
validate_base candidate base = do
  validate_identity base
  ensure (not (equal_version base.version candidate.version)) repeated_base
  ensure (leb_time base.published_at candidate.published_at) candidate_before_base

abbrev pub check_activity : PackageActivity → Option PlannedIdentity → Result PlanError (Unit {0})
check_activity new_name base = ensure (not (is_some base)) unexpected_base
check_activity inactive_name base = ensure (is_some base) missing_base
check_activity active_name base = ensure (is_some base) missing_base

-- The age of a candidate, against the plan's time and its release-age floor.
unfoldable pub validate_age : UpdatePlan → UpdateCandidate → Result PlanError (Unit {0})
unfolding duration_since
validate_age plan candidate = do
  age ←
      map_err (λ e. future_candidate)
        (duration_since plan.evaluated_at candidate.candidate.published_at)
  ensure (candidate.age_seconds == age) wrong_age
  floor ← ok_or (checked_mul plan.min_release_age_days (24 * 60 * 60)) threshold_overflow
  ensure (leb floor candidate.age_seconds) too_young

module _ (leb_version : Version → Version → Bool) where
  -- The lane's own checks; the base that is absent panics.
  unfoldable pub validate_lane : UpdateCandidate → CompatibilityLane → Result PlanError (Unit {0})
  unfolding implicit_lane in_lane
  validate_lane candidate lane = do
    ensure (same_activity candidate.activity active_name) lane_of_inactive
    ensure (in_lane lane (implicit_lane candidate.candidate.version)) wrong_lane
    base ← ok_or candidate.base panicked
    ensure (in_lane lane (implicit_lane base.version)) wrong_base_lane
    ensure (not (leb_version candidate.candidate.version base.version)) not_newer_than_base

  unfoldable pub validate_candidate_lane : UpdateCandidate → Result PlanError (Unit {0})
  unfolding validate_lane
  validate_candidate_lane candidate = do
    if_some (validate_lane candidate) candidate.lane
    ensure
        (same_flag (not (is_some candidate.lane))
          (contains_reason explicit_candidate candidate.reasons))
        explicit_disagrees

  unfoldable pub validate_candidate_release :
      UpdatePlan → UpdateCandidate → Result PlanError (Unit {0})
  unfolding validate_identity validate_age validate_base validate_candidate_lane
  validate_candidate_release plan candidate = do
    validate_identity candidate.candidate
    validate_age plan candidate
    if_some (validate_base candidate.candidate) candidate.base
    check_activity candidate.activity candidate.base
    validate_candidate_lane candidate

unfoldable pub validate_surface : Bytes × Bytes → Result PlanError (Unit {0})
unfolding validate_hash
validate_surface (surface, hash) = do
  ensure (not (is_empty surface)) empty_surface
  validate_hash hash

unfoldable pub validate_vcs : Option Bytes → Option Bytes → Result PlanError (Unit {0})
unfolding validate_git_commit
validate_vcs none none = ok tt
validate_vcs none (some path) = err path_without_commit
validate_vcs (some commit) path = validate_git_commit commit

unfoldable pub validate_archive_summary : ArchiveSummary → Result PlanError (Unit {0})
unfolding validate_hash validate_relative_path
validate_archive_summary summary = do
  validate_hash summary.analysis_sha256
  ensure (ltb 0 summary.compressed_bytes) empty_archive
  ensure (ltb 0 summary.unpacked_bytes) empty_archive
  ensure (ltb 0 summary.files) empty_archive
  each validate_surface summary.build_surface
  validate_vcs summary.vcs_commit summary.vcs_path
  if_some validate_relative_path summary.vcs_path

abbrev pub is_disjoint : List Bytes → List Bytes → Bool
is_disjoint xs ys = not (any (λ x. any (beq x) ys) xs)

unfoldable pub validate_paths : List Bytes → Result PlanError (Unit {0})
unfolding validate_relative_path
validate_paths paths = do
  ensure (increasing before paths) paths_not_ordered
  each validate_relative_path paths

unfoldable pub validate_archive_delta : ArchiveDelta → Result PlanError (Unit {0})
unfolding validate_hash validate_paths
validate_archive_delta delta = do
  validate_hash delta.delta_sha256
  each validate_paths (delta.added ∷ delta.removed ∷ delta.changed ∷ [])
  ensure
      (is_disjoint delta.added delta.removed
        && is_disjoint delta.added delta.changed
        && is_disjoint delta.removed delta.changed)
      paths_overlap

-- The delta of a candidate; a base archive that is absent panics.
unfoldable pub validate_candidate_delta :
    UpdateCandidate → ArchiveDelta → Result PlanError (Unit {0})
unfolding validate_archive_delta
validate_candidate_delta candidate delta = do
  validate_archive_delta delta
  base ← ok_or candidate.base_archive panicked
  ensure
      (same_flag delta.build_surface_changed
        (not (same_surface base.build_surface candidate.candidate_archive.build_surface)))
      surface_disagrees

unfoldable pub validate_candidate_archives : UpdateCandidate → Result PlanError (Unit {0})
unfolding validate_archive_summary validate_candidate_delta
validate_candidate_archives candidate = do
  validate_archive_summary candidate.candidate_archive
  ensure (same_flag (is_some candidate.base) (is_some candidate.base_archive)) archives_disagree
  if_some validate_archive_summary candidate.base_archive
  ensure (same_flag (is_some candidate.base) (is_some candidate.archive_delta)) archives_disagree
  if_some (validate_candidate_delta candidate) candidate.archive_delta
