-- ===== src/Examples/Plans.antt =====
-- A small update plan, its admission manifest and a batch that admits it.
use pkgre.Prelude.{
  ◌≡◌, refl, arith, ℕ, ◌*◌, [], ◌∷◌, Bytes, codes, beq_iff, Bool, true, false, Option, none, some,
  ok, Elem, head,
}
use pkgre.Schema.{UtcTimestamp}
use pkgre.Category.{validate, new, from_str, from_components, to_string}
use pkgre.Release.{
  Version, major_lane, new_name, active_name, same_key, leb_time, implicit_lane, in_lane,
}
use pkgre.Time.Stamp.{duration_since}
use pkgre.Policy.{validate_package_name, package_collision_key}
use pkgre.AcceptedRef.{is_lower_hex, is_ascii, starts_with}
use pkgre.Examples.Releases.{by_numbers}
use pkgre.Prelude.{split, beq}
use pkgre.Category.{is_empty}
use pkgre.Release.Lists.{each-Elem}
use pkgre.Plan.Order.{before_dependency, leb_dependency, before_package, package_identity}
use pkgre.Plan.Candidate.{
  validate_candidate_route, validate_candidate_release, validate_identity, validate_age,
  validate_base, validate_candidate_lane, validate_lane, validate_candidate_archives,
  validate_archive_summary, validate_surface, validate_vcs, validate_paths, validate_archive_delta,
  validate_candidate_delta,
}
use pkgre.Plan.Evidence.{
  validate_dependency_delta, validate_publication_gap, validate_api_evidence, validate_api_version,
  validate_trusted, validate_source_evidence,
}
use pkgre.Plan.Reasons.{
  validate_reason_consistency, discontinuities, validate_decision, expected_decision,
}
use pkgre.Plan.Calm.{panics}
use pkgre.Plan.Expects.{panics-validate_update_plan_with}
use pkgre.Plan.Routine.{IsRoutine}
use pkgre.Plan.Canonical.{
  IsCanonical, validate_update_plan_with-IsCanonical, validate_update_plan_with-IsRoutine,
}
use pkgre.Manifest.{AdmissionManifest, manifest_from_candidates, validate_admission_manifest}
use pkgre.Manifest.Valid.{manifest_from_candidates-valid}
use pkgre.Plan.Check.{
  validate_update_plan_with, validate_candidates, validate_candidate, leb_key, same_identity,
  follows,
}
use pkgre.Plan.{
  is_trimmed, validate_hash, validate_git_commit, validate_relative_path, PlannedIdentity,
  ArchiveSummary, ApiVersionEvidence, UpdateCandidate, UpdatePlan, unavailable, automatic,
  review_required, new_package, source_unavailable, explicit_candidate,
}

abbrev pub sha : Bytes
sha = codes "00112233445566778899aabbccddeeff00112233445566778899aabbccddeeff"

-- An injective text of versions, and its inverse.
abbrev pub version_text : Version → Bytes
version_text v = v.major ∷ v.minor ∷ v.patch ∷ v.pre

abbrev pub parse_version : Bytes → Option Version
parse_version (a ∷ b ∷ c ∷ pre) =
    some (record { major = a; minor = b; patch = c; pre = pre; build = [] })
parse_version _ = none

abbrev pub pkg_version : Bytes
pkg_version = 0 ∷ 1 ∷ 0 ∷ []

abbrev pub minor_version : ℕ → Version
minor_version n = record { major = 1; minor = n; patch = 0; pre = []; build = [] }

abbrev pub at_day : ℕ → UtcTimestamp
at_day n = record { seconds = n * 86400; text = codes "day" }

abbrev pub identity_at : ℕ → ℕ → PlannedIdentity
identity_at minor day = record {
  version = minor_version minor;
  published_at = at_day day;
  source_row_sha256 = sha;
  crate_sha256 = sha;
}

abbrev pub summary : ArchiveSummary
summary = record {
  analysis_sha256 = sha;
  compressed_bytes = 10;
  unpacked_bytes = 20;
  files = 2;
  build_surface = (codes "build.rs", sha) ∷ [];
  vcs_commit = none;
  vcs_path = none;
}

abbrev pub published_by : ℕ → ApiVersionEvidence
published_by id = record {
  publisher_id = some id;
  publisher_login = some (codes "owner");
  repository = some (codes "https://example.org/demo");
  trusted_publishing = none;
}

-- The next version of an active package, with nothing changed.
abbrev pub routine : UpdateCandidate
routine = record {
  registry = codes "main";
  category = codes "main/general";
  name = codes "demo";
  activity = active_name;
  lane = some (major_lane 1);
  base = some (identity_at 0 10);
  candidate = identity_at 1 40;
  sparse_index_sha256 = sha;
  decision_history_sha256 = sha;
  age_seconds = 60 * 86400;
  dormant_gap = none;
  base_archive = some summary;
  candidate_archive = summary;
  archive_delta = some (record {
    delta_sha256 = sha;
    added = codes "src/a.rs" ∷ codes "src/b.rs" ∷ [];
    removed = [];
    changed = codes "src/lib.rs" ∷ [];
    build_surface_changed = false;
  });
  dependencies = record { added = []; removed = []; new_packages = [] };
  api =
      some (record {
        response_sha256 = sha;
        base = some (published_by 7);
        candidate = published_by 7;
      });
  source = unavailable (codes "no repository");
  decision = automatic;
  reasons = [];
}

-- A new package, which a person has to review.
abbrev pub reviewed : UpdateCandidate
reviewed = record {
  registry = codes "main";
  category = codes "main/general";
  name = codes "extra";
  activity = new_name;
  lane = none;
  base = none;
  candidate = identity_at 2 50;
  sparse_index_sha256 = sha;
  decision_history_sha256 = sha;
  age_seconds = 50 * 86400;
  dormant_gap = none;
  base_archive = none;
  candidate_archive = record {
    analysis_sha256 = sha;
    compressed_bytes = 10;
    unpacked_bytes = 20;
    files = 2;
    build_surface = [];
    vcs_commit = none;
    vcs_path = none;
  };
  archive_delta = none;
  dependencies = record { added = []; removed = []; new_packages = [] };
  api = none;
  source = unavailable (codes "no repository");
  decision = review_required;
  reasons = new_package ∷ source_unavailable ∷ explicit_candidate ∷ [];
}

abbrev pub plan : UpdatePlan
plan = record {
  schema = 2;
  indexer_version = 0 ∷ 1 ∷ 0 ∷ [];
  catalog_sha256 = sha;
  evaluated_at = at_day 100;
  min_release_age_days = 30;
  dormant_release_gap_days = 365;
  candidates = routine ∷ reviewed ∷ [];
}

plan_run :
    (b : Bool)
    → validate_update_plan_with by_numbers parse_version version_text pkg_version plan b ≡ ok tt
unfolding validate_update_plan_with validate_candidates validate_candidate leb_key same_identity
    follows validate_hash validate_candidate_route validate_candidate_release validate_identity
    validate_age validate_base validate_candidate_lane validate_lane validate_candidate_archives
    validate_archive_summary validate_surface validate_vcs validate_paths validate_archive_delta
    validate_candidate_delta validate_relative_path validate_git_commit validate_dependency_delta
    validate_publication_gap validate_api_evidence validate_api_version validate_trusted
    validate_source_evidence is_trimmed validate_reason_consistency discontinuities
    validate_decision expected_decision before_dependency leb_dependency before_package
    package_identity package_collision_key validate_package_name from_str from_components validate
    new to_string duration_since same_key leb_time implicit_lane in_lane is_lower_hex is_ascii
    starts_with split
plan_run true = refl
plan_run false = refl

validate_update_plan_with-IsCanonical_example : IsCanonical by_numbers plan plan.candidates
validate_update_plan_with-IsCanonical_example =
    validate_update_plan_with-IsCanonical by_numbers plan parse_version version_text pkg_version
      true (plan_run true)

validate_update_plan_with-IsRoutine_example : IsRoutine routine
validate_update_plan_with-IsRoutine_example =
    validate_update_plan_with-IsRoutine by_numbers plan parse_version version_text pkg_version true
      (plan_run true) routine head refl

panics-validate_update_plan_with_example :
    panics (validate_update_plan_with by_numbers parse_version version_text pkg_version plan true)
    ≡ false
panics-validate_update_plan_with_example =
    panics-validate_update_plan_with by_numbers plan parse_version version_text pkg_version true

text_key : (v w : Version) → version_text v ≡ version_text w → same_key v w ≡ true
unfolding same_key
text_key v w h =
    let same : beq (version_text v) (version_text w) ≡ true =
      (beq_iff (version_text v) (version_text w)).1 h in
    ground arith

released :
    (c : UpdateCandidate) → Elem c plan.candidates → is_empty c.candidate.version.build ≡ true
released c e =
    each-Elem (λ (c : UpdateCandidate). is_empty c.candidate.version.build ≡ true) routine
      (reviewed ∷ []) refl
      (each-Elem (λ (c : UpdateCandidate). is_empty c.candidate.version.build ≡ true) reviewed []
        refl (λ c e. elim e [ ]))
      c e

manifest_from_candidates-valid_example :
    (manifest : AdmissionManifest) × (manifest_from_candidates by_numbers version_text
        plan.candidates
      ≡ ok manifest)
    × (validate_admission_manifest by_numbers version_text manifest ≡ ok tt)
manifest_from_candidates-valid_example =
    manifest_from_candidates-valid by_numbers version_text text_key parse_version pkg_version plan
      true (plan_run true) released
