-- ===== src/Examples/Admissions.antt =====
-- A directory with one admission batch, and a catalog whose approvals name it.
use pkgre.Prelude.{
  ap, sym, ◌≡◌, refl, ℕ, [], ◌∷◌, List, Bytes, codes, none, some, ok, head, tail, split,
}
use pkgre.Schema.{Approval, Catalog, PackageState, Source}
use pkgre.Category.{CategoryId, validate, new, from_str, from_components, to_string}
use pkgre.Release.{Version, same_key, leb_time, implicit_lane, in_lane}
use pkgre.Time.Stamp.{duration_since}
use pkgre.Policy.{validate_package_name, package_collision_key, validate_sha256}
use pkgre.AcceptedRef.{is_lower_hex, is_ascii, starts_with}
use pkgre.Examples.Releases.{by_numbers}
use pkgre.Examples.Policies.{small_catalog}
use pkgre.Examples.Plans.{
  sha, plan, version_text, parse_version, pkg_version, minor_version, at_day,
}
use pkgre.Plan.{validate_hash, validate_relative_path, validate_git_commit, is_trimmed}
use pkgre.Plan.Order.{before_dependency, leb_dependency, before_package, package_identity}
use pkgre.Plan.Candidate.{
  validate_candidate_route, validate_candidate_release, validate_identity, validate_age,
  validate_base, validate_candidate_lane, validate_lane, validate_candidate_archives,
  validate_archive_summary, validate_surface, validate_vcs, validate_paths, validate_archive_delta,
  validate_candidate_delta,
}
use pkgre.Plan.Evidence.{
  validate_dependency_delta, validate_publication_gap, validate_api_evidence, validate_api_version,
  validate_trusted, validate_source_evidence,
}
use pkgre.Plan.Reasons.{
  validate_reason_consistency, discontinuities, validate_decision, expected_decision,
}
use pkgre.Plan.Check.{
  validate_historical_update_plan, validate_update_plan_with, validate_candidates,
  validate_candidate, leb_key, same_identity, follows,
}
use pkgre.Plan.Codec.{Toml, regular}
use pkgre.Manifest.{
  AdmissionRequest, AdmissionManifest, manual_full_archive, manual_source_delta, leb_request,
  same_request, check_target, validate_requests, validate_evidence, validate_admission_manifest,
  validate_admission_filename,
}
use pkgre.Manifest.Codec.{serialize_admission_manifest, load_admission_manifest}
use pkgre.Admission.{
  Tools, AdmissionLock, same_admission, remove, identity_of, request_identity, candidate_identity,
  approval_identity, validate_request_evidence, collect_requests, check_match, match_candidates,
}
use pkgre.Admission.Lock.{
  prepare_admission_lock, check_adjacent, check_matches, validate_admission_lock,
  serialize_admission_lock, load_admission_lock,
}
use pkgre.Admission.Directory.{
  DirEntry, directory, collect_pairs, validate_admission_tree_structure,
}
use pkgre.Admission.Inventory.{
  bind_approval, admission_bound_approvals, validate_candidate_lock, cover_candidates, cover_batch,
  cover_batches, cover_tree, validate_admission_inventory,
}
use pkgre.Admission.Prepared.{Carries, prepare_admission_lock-load}
use pkgre.Admission.Covered.{IsCovered, validate_admission_inventory-IsCovered}

abbrev general : CategoryId
general = record { registry = codes "main"; local = codes "general" }

abbrev requests : List AdmissionRequest
requests =
    record {
      category = general;
      name = codes "demo";
      version = some (minor_version 1);
      tag = none;
      evidence = manual_source_delta (minor_version 0) (codes "Read the delta.") ∷ [];
    }
    ∷ record {
      category = general;
      name = codes "extra";
      version = some (minor_version 2);
      tag = none;
      evidence = manual_full_archive (codes "Read the archive.") ∷ [];
    }
    ∷ []

abbrev manifest : AdmissionManifest
manifest = record { schema = 2; entries = requests }

abbrev lock : AdmissionLock
lock = record {
  schema = 2;
  manifest_sha256 = sha;
  admitted_at = at_day 101;
  plan = plan;
  requests = requests;
}

abbrev manifest_toml : Toml AdmissionManifest
manifest_toml = record {
  to_string_pretty = λ m. some (codes "[[admit]]");
  from_slice = λ bytes. some manifest;
}

abbrev lock_toml : Toml AdmissionLock
lock_toml = record {
  to_string_pretty = λ l. some (codes "[plan]");
  from_slice = λ bytes. some lock;
}

abbrev digest : Bytes → Bytes
digest bytes = sha

abbrev tools : Tools
tools = record {
  leb_version = by_numbers;
  parse_version = parse_version;
  version_text = version_text;
  pkg_version = pkg_version;
  sha256 = digest;
  manifest_toml = manifest_toml;
  lock_toml = lock_toml;
}

abbrev files : List DirEntry
files =
    record { file_name = codes "first.toml"; file = regular (codes "[[admit]]") }
    ∷ record { file_name = codes "first.lock"; file = regular (codes "[plan]") }
    ∷ []

abbrev approval_of : Bytes → ℕ → Approval Version
approval_of name minor = record {
  registry = codes "main";
  category = general;
  name = name;
  version = minor_version minor;
  archive_sha256 = sha;
  index_record_sha256 = sha;
  index_row_sha256 = sha;
  admission_sha256 = some sha;
  admitted_at = at_day 101;
  state = PackageState.active;
  source = Source.crates_io;
  declared_in = codes "main.lock";
}

abbrev catalog : Catalog Version
catalog = record {
  schema = small_catalog.schema;
  cname = small_catalog.cname;
  cargo_version = small_catalog.cargo_version;
  registries = small_catalog.registries;
  categories = small_catalog.categories;
  homes_schema = small_catalog.homes_schema;
  homes = small_catalog.homes;
  mirror_names = small_catalog.mirror_names;
  publish_names = small_catalog.publish_names;
  approvals = approval_of (codes "extra") 2 ∷ approval_of (codes "demo") 1 ∷ [];
}

inventory_run : validate_admission_inventory tools (directory files) catalog ≡ ok tt
unfolding validate_admission_inventory validate_admission_tree_structure collect_pairs
    validate_admission_filename admission_bound_approvals bind_approval validate_sha256
    approval_identity cover_tree cover_batches cover_batch cover_candidates validate_candidate_lock
    load_admission_manifest serialize_admission_manifest validate_admission_manifest
    validate_requests check_target same_request leb_request validate_evidence load_admission_lock
    serialize_admission_lock validate_admission_lock check_adjacent check_matches collect_requests
    match_candidates check_match validate_request_evidence remove same_admission request_identity
    identity_of candidate_identity validate_historical_update_plan validate_update_plan_with
    validate_candidates validate_candidate leb_key same_identity follows validate_hash
    validate_candidate_route validate_candidate_release validate_identity validate_age validate_base
    validate_candidate_lane validate_lane validate_candidate_archives validate_archive_summary
    validate_surface validate_vcs validate_paths validate_archive_delta validate_candidate_delta
    validate_relative_path validate_git_commit validate_dependency_delta validate_publication_gap
    validate_api_evidence validate_api_version validate_trusted validate_source_evidence is_trimmed
    validate_reason_consistency discontinuities validate_decision expected_decision
    before_dependency leb_dependency before_package package_identity package_collision_key
    validate_package_name from_str from_components validate new to_string duration_since same_key
    leb_time implicit_lane in_lane is_lower_hex is_ascii starts_with split
inventory_run = refl

validate_admission_inventory-IsCovered_example :
    (entries : List DirEntry) × (directory files ≡ directory entries)
    × IsCovered tools entries (approval_of (codes "demo") 1)
validate_admission_inventory-IsCovered_example =
    validate_admission_inventory-IsCovered tools (directory files) catalog inventory_run
      (approval_of (codes "demo") 1) sha (tail head) refl

reads :
    (l : AdmissionLock) (text : Bytes)
    → Carries tools manifest plan (at_day 101) l
    → tools.lock_toml.to_string_pretty l ≡ some text
    → tools.lock_toml.from_slice text ≡ some l
reads l text c printed =
    let current = sym c.current in
    let bound = sym c.bound in
    let time = sym c.time_kept in
    let planned = sym c.plan_kept in
    let requested = sym c.requests_kept in
    ap some (λ i. record {
      schema = current i;
      manifest_sha256 = bound i;
      admitted_at = time i;
      plan = planned i;
      requests = requested i;
    })

prepare_run : prepare_admission_lock tools manifest plan (at_day 101) ≡ ok (codes "[plan]", sha)
unfolding prepare_admission_lock validate_admission_tree_structure collect_pairs
    validate_admission_filename admission_bound_approvals bind_approval validate_sha256
    approval_identity cover_tree cover_batches cover_batch cover_candidates validate_candidate_lock
    load_admission_manifest serialize_admission_manifest validate_admission_manifest
    validate_requests check_target same_request leb_request validate_evidence load_admission_lock
    serialize_admission_lock validate_admission_lock check_adjacent check_matches collect_requests
    match_candidates check_match validate_request_evidence remove same_admission request_identity
    identity_of candidate_identity validate_historical_update_plan validate_update_plan_with
    validate_candidates validate_candidate leb_key same_identity follows validate_hash
    validate_candidate_route validate_candidate_release validate_identity validate_age validate_base
    validate_candidate_lane validate_lane validate_candidate_archives validate_archive_summary
    validate_surface validate_vcs validate_paths validate_archive_delta validate_candidate_delta
    validate_relative_path validate_git_commit validate_dependency_delta validate_publication_gap
    validate_api_evidence validate_api_version validate_trusted validate_source_evidence is_trimmed
    validate_reason_consistency discontinuities validate_decision expected_decision
    before_dependency leb_dependency before_package package_identity package_collision_key
    validate_package_name from_str from_components validate new to_string duration_since same_key
    leb_time implicit_lane in_lane is_lower_hex is_ascii starts_with split
prepare_run = refl

prepare_admission_lock-load_example :
    (l : AdmissionLock) × (load_admission_lock tools (regular (codes "[plan]")) manifest
      ≡ ok (l, codes "[plan]"))
    × Carries tools manifest plan (at_day 101) l
    × (sha ≡ digest (codes "[plan]"))
prepare_admission_lock-load_example =
    prepare_admission_lock-load tools manifest plan (at_day 101) (codes "[plan]") sha reads
      prepare_run
