-- ===== src/Plan/Total.antt =====
-- No check of an update candidate panics: rust/src/update/plan.rs.
use pkgre.Prelude.{◌≡◌, refl, ℕ, List, Bytes, Bool, false, Option, none, some}
use pkgre.Release.{PackageActivity, PublicationGap, new_name, inactive_name, active_name}
use pkgre.Plan.Candidate.{
  validate_identity, validate_archive_summary, validate_surface, validate_vcs, validate_paths,
  validate_archive_delta, validate_candidate_route, validate_base, validate_age, check_activity,
}
use pkgre.Plan.Evidence.{
  validate_dependency, validate_new_package, validate_dependency_delta, validate_publication_gap,
  validate_trusted, validate_api_version, validate_api_evidence, validate_location, check_claim,
  check_trusted, validate_source_evidence,
}
use pkgre.Plan.Reasons.{validate_decision}
use pkgre.Plan.Calm.{panics, panics-ensure, calm}
use pkgre.Plan.{
  validate_hash, validate_git_commit, validate_relative_path, PlannedIdentity, ArchiveSummary,
  ArchiveDelta, IndexDependency, DependencyDelta, TrustedPublishingEvidence, ApiVersionEvidence,
  ApiEvidence, SourceEvidence, UpdateCandidate, UpdatePlan, unavailable, publisher_asserted,
  registry_context_attested, mismatch,
}

pub panics-validate_hash : (value : Bytes) → panics (validate_hash value) ≡ false
unfolding validate_hash
panics-validate_hash value = panics-ensure _ _ refl

panics-validate_git_commit : (value : Bytes) → panics (validate_git_commit value) ≡ false
unfolding validate_git_commit
panics-validate_git_commit value = panics-ensure _ _ refl

panics-validate_relative_path : (value : Bytes) → panics (validate_relative_path value) ≡ false
unfolding validate_relative_path
panics-validate_relative_path value = search (calm)

pub panics-validate_identity :
    (identity : PlannedIdentity) → panics (validate_identity identity) ≡ false
unfolding validate_identity
panics-validate_identity identity = search (calm, panics-validate_hash)

panics-validate_surface : (s : Bytes × Bytes) → panics (validate_surface s) ≡ false
unfolding validate_surface
panics-validate_surface (surface, hash) = search (calm, panics-validate_hash)

panics-validate_vcs : (commit path : Option Bytes) → panics (validate_vcs commit path) ≡ false
unfolding validate_vcs
panics-validate_vcs none none = refl
panics-validate_vcs none (some path) = refl
panics-validate_vcs (some commit) path = panics-validate_git_commit commit

pub panics-validate_archive_summary :
    (summary : ArchiveSummary) → panics (validate_archive_summary summary) ≡ false
unfolding validate_archive_summary
panics-validate_archive_summary summary =
    search
      (
        calm, panics-validate_hash, panics-validate_surface, panics-validate_vcs,
        panics-validate_relative_path,
      )
      depth 12

panics-validate_paths : (paths : List Bytes) → panics (validate_paths paths) ≡ false
unfolding validate_paths
panics-validate_paths paths = search (calm, panics-validate_relative_path)

pub panics-validate_archive_delta :
    (delta : ArchiveDelta) → panics (validate_archive_delta delta) ≡ false
unfolding validate_archive_delta
panics-validate_archive_delta delta =
    search (calm, panics-validate_hash, panics-validate_paths) depth 12

pub panics-validate_candidate_route :
    (c : UpdateCandidate) → panics (validate_candidate_route c) ≡ false
unfolding validate_candidate_route
panics-validate_candidate_route c = search (calm) depth 12

pub panics-validate_base :
    (candidate base : PlannedIdentity) → panics (validate_base candidate base) ≡ false
unfolding validate_base
panics-validate_base candidate base = search (calm, panics-validate_identity)

pub panics-validate_age :
    (plan : UpdatePlan) (c : UpdateCandidate) → panics (validate_age plan c) ≡ false
unfolding validate_age
panics-validate_age plan c = search (calm) depth 12

pub panics-check_activity :
    (activity : PackageActivity) (base : Option PlannedIdentity)
    → panics (check_activity activity base) ≡ false
panics-check_activity new_name base = panics-ensure _ _ refl
panics-check_activity inactive_name base = panics-ensure _ _ refl
panics-check_activity active_name base = panics-ensure _ _ refl

panics-validate_dependency : (d : IndexDependency) → panics (validate_dependency d) ≡ false
unfolding validate_dependency
panics-validate_dependency d = search (calm) depth 12

panics-validate_new_package :
    (added : List IndexDependency) (name : Bytes) → panics (validate_new_package added name) ≡ false
unfolding validate_new_package
panics-validate_new_package added name = search (calm) depth 12

pub panics-validate_dependency_delta :
    (delta : DependencyDelta) → panics (validate_dependency_delta delta) ≡ false
unfolding validate_dependency_delta
panics-validate_dependency_delta delta =
    search (calm, panics-validate_dependency, panics-validate_new_package) depth 12

pub panics-validate_publication_gap :
    (c : UpdateCandidate) (days : ℕ) (gap : PublicationGap)
    → panics (validate_publication_gap c days gap) ≡ false
unfolding validate_publication_gap
panics-validate_publication_gap c days gap = search (calm) depth 14

panics-validate_trusted :
    (trusted : TrustedPublishingEvidence) → panics (validate_trusted trusted) ≡ false
unfolding validate_trusted
panics-validate_trusted trusted =
    search (calm, panics-validate_git_commit, panics-validate_hash) depth 12

panics-validate_api_version :
    (version : ApiVersionEvidence) → panics (validate_api_version version) ≡ false
unfolding validate_api_version
panics-validate_api_version version = search (calm, panics-validate_trusted) depth 12

pub panics-validate_api_evidence :
    (has_base : Bool) (api : ApiEvidence) → panics (validate_api_evidence has_base api) ≡ false
unfolding validate_api_evidence
panics-validate_api_evidence has_base api =
    search (calm, panics-validate_hash, panics-validate_api_version) depth 12

panics-validate_location :
    (repository commit path hash : Bytes)
    → panics (validate_location repository commit path hash) ≡ false
unfolding validate_location
panics-validate_location repository commit path hash =
    search (calm, panics-validate_git_commit, panics-validate_relative_path, panics-validate_hash)
      depth 12

panics-check_claim :
    (archive_commit archive_path : Option Bytes) (commit path : Bytes)
    → panics (check_claim archive_commit archive_path commit path) ≡ false
panics-check_claim none archive_path commit path = panics-ensure _ _ refl
panics-check_claim (some archive_commit) archive_path commit path = search (calm)

panics-check_trusted :
    (repository commit hash : Bytes) (trusted : TrustedPublishingEvidence)
    → panics (check_trusted repository commit hash trusted) ≡ false
unfolding check_trusted
panics-check_trusted repository commit hash trusted = panics-ensure _ _ refl

pub panics-validate_source_evidence :
    (c : UpdateCandidate) (source : SourceEvidence)
    → panics (validate_source_evidence c source) ≡ false
unfolding validate_source_evidence
panics-validate_source_evidence c (unavailable reason) = panics-ensure _ _ refl
panics-validate_source_evidence c (publisher_asserted repository commit path hash) =
    search (calm, panics-validate_location)
panics-validate_source_evidence c
      (registry_context_attested repository commit path hash attestation) =
    search
      (
        calm, panics-validate_location, panics-validate_hash, panics-check_claim,
        panics-check_trusted,
      )
      depth 12
panics-validate_source_evidence c (mismatch hash) = panics-validate_hash hash

pub panics-validate_decision : (c : UpdateCandidate) → panics (validate_decision c) ≡ false
unfolding validate_decision
panics-validate_decision c = panics-ensure _ _ refl
