-- ===== src/Admission.antt =====
-- The generated lock of one admission batch: rust/src/update/admission.rs. SHA-256, the TOML printers
-- and readers and the text and order of versions are parameters.
pub mod Lock
pub mod Directory
pub mod Inventory
pub mod Matching
pub mod Requested
pub mod Prepared
pub mod Bound
pub mod Covered
use pkgre.Prelude.{
  ℕ, suc, [], ◌∷◌, List, Bytes, length, all, any, beq, leb, ◌==◌, Bool, true, false, not, ◌&&◌,
  ◌||◌, Option, none, some, Result, ok, err, ◌>>=◌, ◌>>◌, ensure, ok_or, map_err, if◌then◌else◌,
}
use pkgre.Category.{CategoryId, to_string}
use pkgre.Schema.{UtcTimestamp, Approval}
use pkgre.Time.Stamp.{duration_since}
use pkgre.Release.{Version, same_key}
use pkgre.Policy.{PolicyError, validate_sha256}
use pkgre.Transition.{each}
use pkgre.Plan.{UpdatePlan, UpdateCandidate, PlannedIdentity, PlanError, UpdateDecision, blocked}
use pkgre.Plan.Order.{is_some, same_option, equal_version, decision_rank, package_identity}
use pkgre.Plan.Reasons.{no_element}
use pkgre.Plan.Check.{validate_historical_update_plan}
use pkgre.Plan.Codec.{Toml, File, LoadErrors, load_canonical}
use pkgre.Manifest.{
  AdmissionManifest, AdmissionRequest, AdmissionEvidence, manual_full_archive, manual_source_delta,
  ManifestError, admission_manifest_schema,
}
use pkgre.Manifest.Codec.{serialize_admission_manifest}

abbrev pub admission_lock_schema : ℕ
admission_lock_schema = 2

pub record AdmissionLock : Type 0 where
  pub schema : ℕ
  pub manifest_sha256 : Bytes
  pub admitted_at : UtcTimestamp
  pub plan : UpdatePlan
  pub requests : List AdmissionRequest

-- The triple of `AdmissionIdentity`; two versions are one identity up to their build metadata.
pub record AdmissionIdentity : Type 0 where
  pub registry : Bytes
  pub name : Bytes
  pub version : Version

-- What the functions take from other crates: the order, the text and the reading of versions, SHA-256
-- and TOML; and the version of the package itself.
pub record Tools : Type 0 where
  pub leb_version : Version → Version → Bool
  pub parse_version : Bytes → Option Version
  pub version_text : Version → Bytes
  pub pkg_version : Bytes
  pub sha256 : Bytes → Bytes
  pub manifest_toml : Toml AdmissionManifest
  pub lock_toml : Toml AdmissionLock

pub data AdmissionError : Type 0 where
  bad_schema no_candidates predates_evaluation other_manifest stale_hash : AdmissionError
  repeated_request count_differs blocked_candidate unmatched_candidate other_route : AdmissionError
  evidence_without_base evidence_base_differs unmatched_request tag_request no_target :
      AdmissionError
  serialization_failure not_regular unreadable malformed not_canonical : AdmissionError
  not_directory empty_directory bad_extension repeated_file incomplete_pair : AdmissionError
  missing_batches unbound_manifest repeated_batch covered_twice no_locked_identity : AdmissionError
  facts_differ uncovered_identity foreign_source repeated_binding : AdmissionError
  bad_hash : PolicyError → AdmissionError
  bad_plan : PlanError → AdmissionError
  bad_manifest : ManifestError → AdmissionError

unfoldable pub same_admission : AdmissionIdentity → AdmissionIdentity → Bool
same_admission a b = beq a.registry b.registry && beq a.name b.name && same_key a.version b.version

-- A map from identities: the list of its entries.
abbrev pub Entries : Type 0 → Type 0
Entries A = List (AdmissionIdentity × A)

abbrev pub has_key : {A : Type 0} → AdmissionIdentity → Entries A → Bool
has_key identity entries = any (λ entry. same_admission identity entry.0) entries

-- `HashMap::remove`: the value and the map that is left.
abbrev pub put_back :
    {A : Type 0} → AdmissionIdentity × A → Option (A × Entries A) → Option (A × Entries A)
put_back entry none = none
put_back entry (some (a, entries)) = some (a, entry ∷ entries)

unfoldable pub remove : {A : Type 0} → AdmissionIdentity → Entries A → Option (A × Entries A)
unfolding same_admission
remove identity [] = none
remove identity (entry ∷ entries) =
    let rest = remove identity entries in
    if same_admission identity entry.0 then some (entry.1, entries) else put_back entry rest

unfoldable pub identity_of :
    AdmissionRequest → Option Version → Option Bytes → Result AdmissionError AdmissionIdentity
unfolding package_identity
identity_of request (some version) none = ok (record {
  registry = request.category.registry;
  name = package_identity request.name;
  version = version;
})
identity_of request none (some tag) = err tag_request
identity_of request (some version) (some tag) = err no_target
identity_of request none none = err no_target

unfoldable pub request_identity : AdmissionRequest → Result AdmissionError AdmissionIdentity
unfolding identity_of
request_identity request = identity_of request request.version request.tag

unfoldable pub candidate_identity : UpdateCandidate → AdmissionIdentity
unfolding package_identity
candidate_identity candidate = record {
  registry = candidate.registry;
  name = package_identity candidate.name;
  version = candidate.candidate.version;
}

unfoldable pub approval_identity : Approval Version → AdmissionIdentity
unfolding package_identity
approval_identity approval = record {
  registry = approval.registry;
  name = package_identity approval.name;
  version = approval.version;
}

-- The derived equality of manifests.
abbrev pub same_evidence : AdmissionEvidence → AdmissionEvidence → Bool
same_evidence (manual_full_archive a) (manual_full_archive b) = beq a b
same_evidence (manual_source_delta v a) (manual_source_delta w b) = equal_version v w && beq a b
same_evidence _ _ = false

abbrev pub same_list {ℓ} : {A : Type ℓ} → (A → A → Bool) → List A → List A → Bool
same_list same [] [] = true
same_list same [] (y ∷ ys) = false
same_list same (x ∷ xs) [] = false
same_list same (x ∷ xs) (y ∷ ys) = same x y && same_list same xs ys

abbrev pub equal_request : AdmissionRequest → AdmissionRequest → Bool
equal_request a b =
    (beq a.category.registry b.category.registry && beq a.category.local b.category.local)
    && beq a.name b.name
    && same_option equal_version a.version b.version
    && same_option beq a.tag b.tag
    && same_list same_evidence a.evidence b.evidence

abbrev pub equal_manifest : AdmissionManifest → AdmissionManifest → Bool
equal_manifest a b = (a.schema == b.schema) && same_list equal_request a.entries b.entries

-- One piece of evidence, against the candidate.
abbrev pub check_delta_base :
    Version → Option PlannedIdentity → Bool → Result AdmissionError (Unit {0})
check_delta_base base none has_delta = err evidence_without_base
check_delta_base base (some candidate_base) has_delta =
    ensure (same_key base candidate_base.version && has_delta) evidence_base_differs

abbrev pub check_evidence : UpdateCandidate → AdmissionEvidence → Result AdmissionError (Unit {0})
check_evidence candidate (manual_full_archive note) = ok tt
check_evidence candidate (manual_source_delta base note) =
    check_delta_base base candidate.base (is_some candidate.archive_delta)

unfoldable pub validate_request_evidence :
    AdmissionRequest → UpdateCandidate → Result AdmissionError (Unit {0})
validate_request_evidence request candidate = each (check_evidence candidate) request.evidence

-- The loop that builds the map of the requests.
unfoldable pub collect_requests :
    Entries AdmissionRequest
    → List AdmissionRequest
    → Result AdmissionError (Entries AdmissionRequest)
unfolding request_identity same_admission
collect_requests entries [] = ok entries
collect_requests entries (request ∷ requests) = do
  identity ← request_identity request
  ensure (not (has_key identity entries)) repeated_request
  collect_requests ((identity, request) ∷ entries) requests

-- One candidate, with the request that its identity removed.
unfoldable pub check_match : UpdateCandidate → AdmissionRequest → Result AdmissionError (Unit {0})
unfolding validate_request_evidence
check_match candidate request = do
  ensure (beq request.name candidate.name && beq (to_string request.category) candidate.category)
      other_route
  validate_request_evidence request candidate

-- The loop over the candidates, which leaves the requests that no candidate took.
unfoldable pub match_candidates :
    Entries AdmissionRequest
    → List UpdateCandidate
    → Result AdmissionError (Entries AdmissionRequest)
unfolding candidate_identity remove check_match
match_candidates entries [] = ok entries
match_candidates entries (candidate ∷ candidates) = do
  ensure (not (decision_rank candidate.decision == decision_rank blocked)) blocked_candidate
  taken ← ok_or (remove (candidate_identity candidate) entries) unmatched_candidate
  check_match candidate taken.0
  match_candidates taken.1 candidates

abbrev pub lock_errors : LoadErrors AdmissionError
lock_errors = record {
  not_regular = AdmissionError.not_regular;
  unreadable = AdmissionError.unreadable;
  malformed = AdmissionError.malformed;
  not_canonical = AdmissionError.not_canonical;
}
