-- ===== src/Admission/Lock.antt =====
-- The validation, the bytes and the file of an admission lock: rust/src/update/admission.rs.
use pkgre.Prelude.{
  [], Bytes, length, beq, ◌==◌, not, Option, none, some, Result, ok, ◌>>=◌, ◌>>◌, ensure, ok_or,
  map_err,
}
use pkgre.Schema.{UtcTimestamp}
use pkgre.Time.Stamp.{duration_since}
use pkgre.Policy.{validate_sha256}
use pkgre.Plan.{UpdatePlan}
use pkgre.Plan.Reasons.{no_element}
use pkgre.Plan.Check.{validate_historical_update_plan}
use pkgre.Plan.Codec.{File, load_canonical}
use pkgre.Manifest.{AdmissionManifest, admission_manifest_schema}
use pkgre.Manifest.Codec.{serialize_admission_manifest}
use pkgre.Admission.{
  Tools, AdmissionLock, AdmissionError, bad_schema, bad_hash, bad_plan, bad_manifest, no_candidates,
  predates_evaluation, other_manifest, stale_hash, count_differs, unmatched_request,
  serialization_failure, admission_lock_schema, equal_manifest, collect_requests, match_candidates,
  lock_errors,
}

module _ (tools : Tools) where
  -- The requests of a lock, as a manifest.
  abbrev pub requests_manifest : AdmissionLock → AdmissionManifest
  requests_manifest lock = record { schema = admission_manifest_schema; entries = lock.requests }

  -- A lock, against the manifest beside it if one is given.
  unfoldable pub check_adjacent :
      AdmissionLock → Option AdmissionManifest → Result AdmissionError (Unit {0})
  unfolding serialize_admission_manifest
  check_adjacent lock none = ok tt
  check_adjacent lock (some manifest) = do
    ensure (equal_manifest (requests_manifest lock) manifest) other_manifest
    bytes ← map_err bad_manifest (
        serialize_admission_manifest tools.leb_version tools.version_text tools.manifest_toml
          manifest)
    ensure (beq lock.manifest_sha256 (tools.sha256 bytes)) stale_hash

  -- The requests and the candidates of a lock, one to one.
  unfoldable pub check_matches : AdmissionLock → Result AdmissionError (Unit {0})
  unfolding collect_requests match_candidates
  check_matches lock = do
    entries ← collect_requests [] lock.requests
    ensure (length entries == length lock.plan.candidates) count_differs
    rest ← match_candidates entries lock.plan.candidates
    ensure (no_element rest) unmatched_request

  unfoldable pub validate_admission_lock :
      AdmissionLock → Option AdmissionManifest → Result AdmissionError (Unit {0})
  unfolding validate_sha256 validate_historical_update_plan duration_since
      serialize_admission_manifest check_adjacent check_matches
  validate_admission_lock lock manifest = do
    ensure (lock.schema == admission_lock_schema) bad_schema
    map_err bad_hash (validate_sha256 lock.manifest_sha256)
    map_err bad_plan (
        validate_historical_update_plan tools.leb_version tools.parse_version tools.version_text
          tools.pkg_version lock.plan)
    ensure (not (no_element lock.plan.candidates)) no_candidates
    age ←
        map_err (λ e. predates_evaluation) (duration_since lock.admitted_at lock.plan.evaluated_at)
    bytes ← map_err bad_manifest (
        serialize_admission_manifest tools.leb_version tools.version_text tools.manifest_toml
          (requests_manifest lock))
    check_adjacent lock manifest
    check_matches lock

  unfoldable pub serialize_admission_lock :
      Option AdmissionManifest → AdmissionLock → Result AdmissionError Bytes
  unfolding validate_admission_lock
  serialize_admission_lock manifest lock = do
    validate_admission_lock lock manifest
    ok_or (tools.lock_toml.to_string_pretty lock) serialization_failure

  unfoldable pub load_admission_lock :
      File → AdmissionManifest → Result AdmissionError (AdmissionLock × Bytes)
  unfolding serialize_admission_lock
  load_admission_lock file manifest =
      load_canonical lock_errors tools.lock_toml.from_slice
        (serialize_admission_lock (some manifest)) file

  -- The bytes of a new lock and their hash, which binds it.
  unfoldable pub prepare_admission_lock :
      AdmissionManifest → UpdatePlan → UtcTimestamp → Result AdmissionError (Bytes × Bytes)
  unfolding serialize_admission_manifest serialize_admission_lock
  prepare_admission_lock manifest plan admitted_at = do
    manifest_bytes ← map_err bad_manifest (
        serialize_admission_manifest tools.leb_version tools.version_text tools.manifest_toml
          manifest)
    bytes ← serialize_admission_lock (some manifest) (record {
      schema = admission_lock_schema;
      manifest_sha256 = tools.sha256 manifest_bytes;
      admitted_at = admitted_at;
      plan = plan;
      requests = manifest.entries;
    })
    ok (bytes, tools.sha256 bytes)
