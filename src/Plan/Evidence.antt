-- ===== src/Plan/Evidence.antt =====
-- The checks of a candidate's dependencies, publication gap, API evidence and source evidence: the
-- functions `validate_dependency_delta` to `validate_source_evidence` of rust/src/update/plan.rs.
use pkgre.Prelude.{
  ℕ, ◌*◌, [], ◌++◌, List, Bytes, codes, any, beq, leb, ◌==◌, Bool, not, ◌&&◌, ◌||◌, Option, none,
  some, Result, ◌>>=◌, ◌>>◌, ensure, ok_or, map_err,
}
use pkgre.Time.Stamp.{duration_since, checked_mul}
use pkgre.Category.{is_empty}
use pkgre.Release.{PublicationGap, leb_time}
use pkgre.Policy.{validate_package_name}
use pkgre.Transition.{each}
use pkgre.Plan.Order.{
  increasing, same_flag, same_option, is_some, before_dependency, before_package, package_identity,
}
use pkgre.Plan.Candidate.{if_some}
use pkgre.Plan.{
  is_trimmed, validate_hash, validate_git_commit, validate_relative_path, IndexDependency,
  DependencyDelta, TrustedPublishingEvidence, ApiVersionEvidence, ApiEvidence, SourceEvidence,
  UpdateCandidate, PlanError, unavailable, publisher_asserted, registry_context_attested, mismatch,
  threshold_overflow, dependencies_not_ordered, empty_alias, no_added_edge, gap_not_chronological,
  gap_seconds, gap_too_short, gap_after_candidate, gap_in_future, api_disagrees, bad_login,
  bad_repository, bad_provider, bad_reason_text, source_repository, source_disagrees,
  no_trusted_publishing, bad_package,
}

unfoldable pub validate_dependency : IndexDependency → Result PlanError (Unit {0})
unfolding validate_package_name
validate_dependency dependency = do
  map_err bad_package (validate_package_name dependency.package_name)
  ensure (not (is_empty dependency.name)) empty_alias

-- A new package, against the packages of the added edges.
unfoldable pub validate_new_package : List IndexDependency → Bytes → Result PlanError (Unit {0})
unfolding validate_package_name package_identity
validate_new_package added name = do
  map_err bad_package (validate_package_name name)
  ensure
      (any
        (λ (edge : IndexDependency).
          beq (package_identity edge.package_name) (package_identity name))
        added)
      no_added_edge

unfoldable pub validate_dependency_delta : DependencyDelta → Result PlanError (Unit {0})
unfolding before_dependency before_package
validate_dependency_delta delta = do
  ensure (increasing before_dependency delta.added) dependencies_not_ordered
  ensure (increasing before_dependency delta.removed) dependencies_not_ordered
  ensure (increasing before_package delta.new_packages) dependencies_not_ordered
  each validate_dependency (delta.added ++ delta.removed)
  each (validate_new_package delta.added) delta.new_packages

unfoldable pub validate_publication_gap :
    UpdateCandidate → ℕ → PublicationGap → Result PlanError (Unit {0})
unfolding duration_since
validate_publication_gap candidate dormant_release_gap_days gap = do
  ensure (not (leb_time gap.after_published_at gap.before_published_at)) gap_not_chronological
  seconds ←
      map_err (λ e. gap_in_future) (duration_since gap.after_published_at gap.before_published_at)
  ensure (gap.seconds == seconds) gap_seconds
  floor ← ok_or (checked_mul dormant_release_gap_days (24 * 60 * 60)) threshold_overflow
  ensure (leb floor gap.seconds) gap_too_short
  ensure (leb_time gap.after_published_at candidate.candidate.published_at) gap_after_candidate

unfoldable pub validate_trusted : TrustedPublishingEvidence → Result PlanError (Unit {0})
unfolding validate_git_commit validate_hash
validate_trusted trusted = do
  ensure (beq trusted.provider (codes "github") || beq trusted.provider (codes "gitlab"))
      bad_provider
  ensure (not (is_empty trusted.repository)) bad_repository
  validate_git_commit trusted.commit
  validate_hash trusted.evidence_sha256

unfoldable pub validate_api_version : ApiVersionEvidence → Result PlanError (Unit {0})
unfolding is_trimmed
validate_api_version version = do
  if_some (λ login. ensure (is_trimmed login) bad_login) version.publisher_login
  if_some (λ repository. ensure (is_trimmed repository) bad_repository) version.repository
  if_some validate_trusted version.trusted_publishing

unfoldable pub validate_api_evidence : Bool → ApiEvidence → Result PlanError (Unit {0})
unfolding validate_hash validate_api_version
validate_api_evidence has_base api = do
  validate_hash api.response_sha256
  ensure (same_flag (is_some api.base) has_base) api_disagrees
  if_some validate_api_version api.base
  validate_api_version api.candidate

-- `option.as_deref().unwrap_or("")`.
abbrev pub or_empty : Option Bytes → Bytes
or_empty none = []
or_empty (some path) = path

-- `candidate.api...trusted_publishing`.
abbrev pub trusted_of : Option ApiEvidence → Option TrustedPublishingEvidence
trusted_of none = none
trusted_of (some api) = api.candidate.trusted_publishing

-- The claim of the archive, against an attested commit and path.
abbrev pub check_claim : Option Bytes → Option Bytes → Bytes → Bytes → Result PlanError (Unit {0})
check_claim (some archive_commit) archive_path commit path = do
  ensure (beq archive_commit commit) source_disagrees
  ensure (beq (or_empty archive_path) path) source_disagrees
check_claim none archive_path commit path = ensure (is_empty path) source_disagrees

unfoldable pub check_trusted :
    Bytes → Bytes → Bytes → TrustedPublishingEvidence → Result PlanError (Unit {0})
check_trusted repository commit attestation_sha256 trusted =
    ensure
      (beq trusted.repository repository
        && beq trusted.commit commit
        && beq trusted.evidence_sha256 attestation_sha256)
      source_disagrees

unfoldable pub validate_location : Bytes → Bytes → Bytes → Bytes → Result PlanError (Unit {0})
unfolding validate_git_commit validate_relative_path validate_hash
validate_location repository commit path comparison_sha256 = do
  ensure (not (is_empty repository)) source_repository
  validate_git_commit commit
  validate_relative_path path
  validate_hash comparison_sha256

unfoldable pub validate_source_evidence :
    UpdateCandidate → SourceEvidence → Result PlanError (Unit {0})
unfolding is_trimmed validate_hash check_trusted
validate_source_evidence candidate (unavailable reason) = ensure (is_trimmed reason) bad_reason_text
validate_source_evidence candidate (publisher_asserted repository commit path comparison_sha256) =
    do
      validate_location repository commit path comparison_sha256
      ensure (same_option beq candidate.candidate_archive.vcs_commit (some commit)) source_disagrees
      ensure (beq (or_empty candidate.candidate_archive.vcs_path) path) source_disagrees
validate_source_evidence candidate
      (registry_context_attested repository commit path comparison_sha256 attestation_sha256) =
    do
      validate_location repository commit path comparison_sha256
      validate_hash attestation_sha256
      check_claim candidate.candidate_archive.vcs_commit candidate.candidate_archive.vcs_path commit
          path
      trusted ← ok_or (trusted_of candidate.api) no_trusted_publishing
      check_trusted repository commit attestation_sha256 trusted
validate_source_evidence candidate (mismatch comparison_sha256) = validate_hash comparison_sha256
