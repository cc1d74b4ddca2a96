-- ===== src/Manifest.antt =====
-- The human admission manifest: rust/src/update/manifest.rs. The order and the text of versions and
-- the TOML printer and reader are parameters.
pub mod Template
pub mod Valid
pub mod Codec
use pkgre.Prelude.{
  ℕ, ◌*◌, [], ◌∷◌, List, Bytes, length, all, any, beq, leb, ◌==◌, Bool, true, false, not, ◌&&◌,
  ◌||◌, Option, none, some, Result, ok, err, ◌>>=◌, ◌>>◌, ensure, ok_or, map_err, if◌then◌else◌,
  last,
}
use pkgre.Category.{
  CategoryId, is_empty, to_string, from_str, is_lowercase_or_digit, is_ascii_alphanumeric, first,
  is_some_and,
}
use pkgre.Release.{Version, leb_bytes, same_key, sort_by}
use pkgre.Download.{then_by, lowercase}
use pkgre.Policy.{PolicyError, validate_package_name, validate_git_tag}
use pkgre.Transition.{each}
use pkgre.Plan.{UpdateCandidate, UpdateDecision, automatic, review_required, blocked, is_trimmed}
use pkgre.Plan.Order.{increasing, package_identity, decision_rank}

abbrev pub admission_manifest_schema : ℕ
admission_manifest_schema = 2

abbrev pub max_note_bytes : ℕ
max_note_bytes = 16 * 1024

pub data AdmissionEvidence : Type 0 where
  manual_full_archive : (note : Bytes) → AdmissionEvidence
  manual_source_delta : (base : Version) (note : Bytes) → AdmissionEvidence

pub record AdmissionRequest : Type 0 where
  pub category : CategoryId
  pub name : Bytes
  pub version : Option Version
  pub tag : Option Bytes
  pub evidence : List AdmissionEvidence

pub record AdmissionManifest : Type 0 where
  pub schema : ℕ
  pub entries : List AdmissionRequest

-- The errors, by what they are about; `panicked` stands for an `expect` that fails.
pub data ManifestError : Type 0 where
  bad_schema not_ordered build_metadata repeated_identity repeated_tag both_targets : ManifestError
  no_target evidence_not_ordered note_not_trimmed note_too_long bad_extension : ManifestError
  bad_stem serialization_failure not_regular unreadable malformed not_canonical panicked :
      ManifestError
  bad_package bad_tag : PolicyError → ManifestError

module _ (leb_version : Version → Version → Bool) where
  -- The derived order of evidence: the constructors in order, then their fields.
  abbrev pub leb_evidence : AdmissionEvidence → AdmissionEvidence → Bool
  leb_evidence (manual_full_archive note) (manual_full_archive other) = leb_bytes note other
  leb_evidence (manual_full_archive note) (manual_source_delta base other) = true
  leb_evidence (manual_source_delta base note) (manual_full_archive other) = false
  leb_evidence (manual_source_delta base note) (manual_source_delta other_base other) =
      if leb_version other_base base
      then leb_version base other_base && leb_bytes note other
      else leb_version base other_base

  abbrev pub before_evidence : AdmissionEvidence → AdmissionEvidence → Bool
  before_evidence a b = not (leb_evidence b a)

abbrev pub note_of : AdmissionEvidence → Bytes
note_of (manual_full_archive note) = note
note_of (manual_source_delta base note) = note

unfoldable pub validate_evidence : AdmissionEvidence → Result ManifestError (Unit {0})
unfolding is_trimmed
validate_evidence evidence = do
  ensure (is_trimmed (note_of evidence)) note_not_trimmed
  ensure (leb (length (note_of evidence)) max_note_bytes) note_too_long

-- The two targets of requests that are one identity: versions up to build metadata, or tags.
abbrev pub same_target : Option Version → Option Bytes → Option Version → Option Bytes → Bool
same_target (some v) none (some w) none = same_key v w
same_target none (some s) none (some t) = beq s t
same_target _ _ _ _ = false

unfoldable pub same_request : AdmissionRequest → AdmissionRequest → Bool
unfolding package_identity
same_request a b =
    beq a.category.registry b.category.registry
    && beq (package_identity a.name) (package_identity b.name)
    && same_target a.version a.tag b.version b.tag

-- The part of a path's last component in front of its last dot, and the part behind it.
abbrev pub with_byte : ℕ → Bytes → Option (Bytes × Bytes) → Option (Bytes × Bytes)
with_byte c name (some (before, after)) = some (c ∷ before, after)
with_byte c name none = if c == b'.' then some ([], name) else none

abbrev pub at_last_dot : Bytes → Option (Bytes × Bytes)
at_last_dot [] = none
at_last_dot (c ∷ name) = with_byte c name (at_last_dot name)

abbrev pub is_kebab_stem : Bytes → Bool
is_kebab_stem stem =
    all (λ byte. is_lowercase_or_digit byte || byte == b'-') stem
    && is_some_and is_ascii_alphanumeric (first stem)
    && is_some_and is_ascii_alphanumeric (last stem)

abbrev pub check_stem : Bytes → Option (Bytes × Bytes) → Result ManifestError (Unit {0})
check_stem extension none = err bad_extension
check_stem extension (some (stem, found)) = do
  ensure (not (is_empty stem) && beq found extension) bad_extension
  ensure (leb (length stem) 128) bad_stem
  ensure (is_kebab_stem stem) bad_stem

-- `validate_admission_filename`, of the last component of the path.
unfoldable pub validate_admission_filename : Bytes → Bytes → Result ManifestError (Unit {0})
validate_admission_filename file_name extension = check_stem extension (at_last_dot file_name)

module _ (leb_version : Version → Version → Bool) (version_text : Version → Bytes) where
  -- The last part of a request's key: the text of the version, or else the tag.
  abbrev pub target : Option Version → Option Bytes → Bytes
  target (some version) tag = version_text version
  target none (some tag) = tag
  target none none = []

  -- The order of `AdmissionRequest::key`.
  unfoldable pub leb_request : AdmissionRequest → AdmissionRequest → Bool
  leb_request =
      then_by (λ a b. leb_bytes (to_string a.category) (to_string b.category))
        (then_by (λ a b. leb_bytes (lowercase a.name) (lowercase b.name))
          (then_by (λ a b. leb_bytes a.name b.name)
            (λ a b. leb_bytes (target a.version a.tag) (target b.version b.tag))))

  abbrev pub follows : Option AdmissionRequest → AdmissionRequest → Bool
  follows none request = true
  follows (some previous) request = not (leb_request request previous)

  -- The target of a request, against the requests in front of it.
  unfoldable pub check_target :
      List AdmissionRequest
      → AdmissionRequest
      → Option Version
      → Option Bytes
      → Result ManifestError (Unit {0})
  unfolding same_request validate_git_tag
  check_target identities request (some version) none = do
    ensure (is_empty version.build) build_metadata
    ensure (not (any (same_request request) identities)) repeated_identity
  check_target identities request none (some tag) = do
    map_err bad_tag (validate_git_tag tag)
    ensure (not (any (same_request request) identities)) repeated_tag
  check_target identities request (some version) (some tag) = err both_targets
  check_target identities request none none = err no_target

  -- The loop over the requests, with the previous one and the ones in front.
  unfoldable pub validate_requests :
      Option AdmissionRequest
      → List AdmissionRequest
      → List AdmissionRequest
      → Result ManifestError (Unit {0})
  unfolding validate_package_name check_target validate_evidence
  validate_requests previous identities [] = ok tt
  validate_requests previous identities (request ∷ requests) = do
    ensure (follows previous request) not_ordered
    map_err bad_package (validate_package_name request.name)
    check_target identities request request.version request.tag
    ensure (increasing (before_evidence leb_version) request.evidence) evidence_not_ordered
    each validate_evidence request.evidence
    validate_requests (some request) (request ∷ identities) requests

  unfoldable pub validate_admission_manifest : AdmissionManifest → Result ManifestError (Unit {0})
  unfolding validate_requests
  validate_admission_manifest manifest = do
    ensure (manifest.schema == admission_manifest_schema) bad_schema
    validate_requests none [] manifest.entries

  -- One entry of the template; a category that is not valid panics.
  unfoldable pub request_of : UpdateCandidate → Result ManifestError AdmissionRequest
  unfolding from_str
  request_of candidate = do
    category ← map_err (λ e. panicked) (from_str candidate.category)
    ok (record {
      category = category;
      name = candidate.name;
      version = some candidate.candidate.version;
      tag = none;
      evidence = [];
    })

  -- The entries for the candidates that are not blocked.
  unfoldable pub requests_of : List UpdateCandidate → Result ManifestError (List AdmissionRequest)
  unfolding request_of
  requests_of [] = ok []
  requests_of (candidate ∷ candidates) =
      let rest = requests_of candidates in
      if decision_rank candidate.decision == decision_rank blocked
      then rest
      else (do request ← request_of candidate; requests ← rest; ok (request ∷ requests))

  unfoldable pub manifest_from_candidates :
      List UpdateCandidate → Result ManifestError AdmissionManifest
  unfolding requests_of
  manifest_from_candidates candidates = do
    requests ← requests_of candidates
    ok (record { schema = admission_manifest_schema; entries = sort_by leb_request requests })
