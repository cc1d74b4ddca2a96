-- ===== src/Plan.antt =====
-- The records of an update plan, and the tests on their texts: rust/src/update/plan.rs and the
-- dependency of rust/src/index.rs.
pub mod Order
pub mod Candidate
pub mod Evidence
pub mod Reasons
pub mod Check
pub mod Steps
pub mod Listed
pub mod Routine
pub mod Calm
pub mod Total
pub mod Expects
pub mod Canonical
pub mod Codec
pub mod Delta
use pkgre.Prelude.{
  ℕ, zero, suc, [], ◌∷◌, List, Bytes, codes, length, all, any, beq, leb, ltb, ◌==◌, Bool, true,
  false, not, ◌&&◌, ◌||◌, Option, none, some, Result, ok, err, ◌>>=◌, ◌>>◌, ensure, split,
  if◌then◌else◌,
}
use pkgre.Schema.{UtcTimestamp}
use pkgre.Category.{is_empty}
use pkgre.AcceptedRef.{is_lower_hex, starts_with}
use pkgre.Release.{Version, CompatibilityLane, PackageActivity, PublicationGap, leb_bytes}
use pkgre.Policy.{PolicyError, ends_with, lower}
use pkgre.Category

abbrev pub update_plan_schema : ℕ
update_plan_schema = 2

pub record PlannedIdentity : Type 0 where
  pub version : Version
  pub published_at : UtcTimestamp
  pub source_row_sha256 : Bytes
  pub crate_sha256 : Bytes

pub record ArchiveSummary : Type 0 where
  pub analysis_sha256 : Bytes
  pub compressed_bytes : ℕ
  pub unpacked_bytes : ℕ
  pub files : ℕ
  pub build_surface : List (Bytes × Bytes)
  pub vcs_commit : Option Bytes
  pub vcs_path : Option Bytes

pub record ArchiveDelta : Type 0 where
  pub delta_sha256 : Bytes
  pub added : List Bytes
  pub removed : List Bytes
  pub changed : List Bytes
  pub build_surface_changed : Bool

pub record IndexDependency : Type 0 where
  pub name : Bytes
  pub package_name : Bytes
  pub requirement : Bytes
  pub features : List Bytes
  pub optional : Bool
  pub default_features : Bool
  pub target : Option Bytes
  pub kind : Bytes
  pub registry : Option Bytes

pub record DependencyDelta : Type 0 where
  pub added : List IndexDependency
  pub removed : List IndexDependency
  pub new_packages : List Bytes

pub record TrustedPublishingEvidence : Type 0 where
  pub provider : Bytes
  pub repository : Bytes
  pub commit : Bytes
  pub evidence_sha256 : Bytes

pub record ApiVersionEvidence : Type 0 where
  pub publisher_id : Option ℕ
  pub publisher_login : Option Bytes
  pub repository : Option Bytes
  pub trusted_publishing : Option TrustedPublishingEvidence

pub record ApiEvidence : Type 0 where
  pub response_sha256 : Bytes
  pub base : Option ApiVersionEvidence
  pub candidate : ApiVersionEvidence

pub data SourceEvidence : Type 0 where
  unavailable : (reason : Bytes) → SourceEvidence
  publisher_asserted : (repository commit path comparison_sha256 : Bytes) → SourceEvidence
  registry_context_attested :
      (repository commit path comparison_sha256 attestation_sha256 : Bytes) → SourceEvidence
  mismatch : (comparison_sha256 : Bytes) → SourceEvidence

pub data UpdateDecision : Type 0 where
  automatic review_required blocked : UpdateDecision

pub data DecisionReason : Type 0 where
  new_package inactive_revival dormant_wakeup new_dependency build_surface_change : DecisionReason
  publisher_discontinuity repository_discontinuity unknown_dependency_home : DecisionReason
  forbidden_category_dependency source_unavailable source_mismatch : DecisionReason
  explicit_candidate : DecisionReason

pub record UpdateCandidate : Type 0 where
  pub registry : Bytes
  pub category : Bytes
  pub name : Bytes
  pub activity : PackageActivity
  pub lane : Option CompatibilityLane
  pub base : Option PlannedIdentity
  pub candidate : PlannedIdentity
  pub sparse_index_sha256 : Bytes
  pub decision_history_sha256 : Bytes
  pub age_seconds : ℕ
  pub dormant_gap : Option PublicationGap
  pub base_archive : Option ArchiveSummary
  pub candidate_archive : ArchiveSummary
  pub archive_delta : Option ArchiveDelta
  pub dependencies : DependencyDelta
  pub api : Option ApiEvidence
  pub source : SourceEvidence
  pub decision : UpdateDecision
  pub reasons : List DecisionReason

pub record UpdatePlan : Type 0 where
  pub schema : ℕ
  pub indexer_version : Bytes
  pub catalog_sha256 : Bytes
  pub evaluated_at : UtcTimestamp
  pub min_release_age_days : ℕ
  pub dormant_release_gap_days : ℕ
  pub candidates : List UpdateCandidate

-- The errors, by what they are about; `panicked` stands for an `expect` that fails.
pub data PlanError : Type 0 where
  bad_schema bad_indexer other_indexer bad_constants zero_threshold bad_hash : PlanError
  not_ordered repeated_identity wrong_registry future_candidate wrong_age threshold_overflow :
      PlanError
  too_young repeated_base candidate_before_base unexpected_base missing_base : PlanError
  lane_of_inactive wrong_lane wrong_base_lane not_newer_than_base explicit_disagrees : PlanError
  empty_archive empty_surface path_without_commit bad_commit bad_path : PlanError
  archives_disagree surface_disagrees paths_not_ordered paths_overlap : PlanError
  dependencies_not_ordered empty_alias no_added_edge : PlanError
  gap_not_chronological gap_seconds gap_too_short gap_after_candidate : PlanError
  gap_in_future api_disagrees bad_login bad_repository bad_provider bad_reason_text : PlanError
  source_repository source_disagrees no_trusted_publishing : PlanError
  reasons_not_ordered reason_disagrees decision_disagrees : PlanError
  panicked repeated_path serialization_failure not_regular unreadable malformed not_canonical :
      PlanError
  bad_package : PolicyError → PlanError
  bad_category : Category.Error → PlanError

-- The encodings of the characters that `str::trim` removes.
abbrev pub white_space : List Bytes
white_space =
    (9 ∷ [])
    ∷ (10 ∷ [])
    ∷ (11 ∷ [])
    ∷ (12 ∷ [])
    ∷ (13 ∷ [])
    ∷ (32 ∷ [])
    ∷ (0xc2 ∷ 0x85 ∷ [])
    ∷ (0xc2 ∷ 0xa0 ∷ [])
    ∷ (0xe1 ∷ 0x9a ∷ 0x80 ∷ [])
    ∷ (0xe2 ∷ 0x80 ∷ 0x80 ∷ [])
    ∷ (0xe2 ∷ 0x80 ∷ 0x81 ∷ [])
    ∷ (0xe2 ∷ 0x80 ∷ 0x82 ∷ [])
    ∷ (0xe2 ∷ 0x80 ∷ 0x83 ∷ [])
    ∷ (0xe2 ∷ 0x80 ∷ 0x84 ∷ [])
    ∷ (0xe2 ∷ 0x80 ∷ 0x85 ∷ [])
    ∷ (0xe2 ∷ 0x80 ∷ 0x86 ∷ [])
    ∷ (0xe2 ∷ 0x80 ∷ 0x87 ∷ [])
    ∷ (0xe2 ∷ 0x80 ∷ 0x88 ∷ [])
    ∷ (0xe2 ∷ 0x80 ∷ 0x89 ∷ [])
    ∷ (0xe2 ∷ 0x80 ∷ 0x8a ∷ [])
    ∷ (0xe2 ∷ 0x80 ∷ 0xa8 ∷ [])
    ∷ (0xe2 ∷ 0x80 ∷ 0xa9 ∷ [])
    ∷ (0xe2 ∷ 0x80 ∷ 0xaf ∷ [])
    ∷ (0xe2 ∷ 0x81 ∷ 0x9f ∷ [])
    ∷ (0xe3 ∷ 0x80 ∷ 0x80 ∷ [])
    ∷ []

-- `!text.trim().is_empty() && text == text.trim()`, of UTF-8.
unfoldable pub is_trimmed : Bytes → Bool
is_trimmed text =
    not (is_empty text)
    && not (any (λ space. starts_with space text) white_space)
    && not (any (λ space. ends_with space text) white_space)

unfoldable pub validate_hash : Bytes → Result PlanError (Unit {0})
validate_hash value = ensure (length value == 64 && all is_lower_hex value) bad_hash

unfoldable pub validate_git_commit : Bytes → Result PlanError (Unit {0})
validate_git_commit value =
    ensure ((length value == 40 || length value == 64) && all is_lower_hex value) bad_commit

abbrev pub is_component : Bytes → Bool
is_component piece =
    not (is_empty piece) && not (beq piece (codes ".")) && not (beq piece (codes ".."))

unfoldable pub validate_relative_path : Bytes → Result PlanError (Unit {0})
validate_relative_path value = do
  ensure (not (starts_with (codes "/") value)) bad_path
  ensure (not (any (λ byte. byte == b'\\') value)) bad_path
  ensure
      (is_empty value || is_component (split b'/' value).0 && all is_component (split b'/' value).1)
      bad_path
