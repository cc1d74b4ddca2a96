-- ===== src/Admission/Inventory.antt =====
-- The admission batches against the locked identities of a catalog: `validate_admission_inventory` of
-- rust/src/update/admission.rs.
use pkgre.Prelude.{
  [], ◌∷◌, ◌++◌, List, Bytes, codes, any, keep, map, beq, Bool, true, false, not, ◌&&◌, Option,
  none, some, Result, ok, err, ◌>>=◌, ◌>>◌, ensure, ok_or, map_err, if◌then◌else◌,
}
use pkgre.Category.{to_string, is_empty}
use pkgre.Schema.{Approval, Catalog, Source, crates_io, git_tag}
use pkgre.Release.{Version, leb_bytes, same_key, sort_by}
use pkgre.Policy.{validate_sha256}
use pkgre.Plan.{UpdateCandidate}
use pkgre.Plan.Order.{same_option}
use pkgre.Plan.Reasons.{no_element}
use pkgre.Plan.Codec.{File, unread}
use pkgre.Manifest.{at_last_dot}
use pkgre.Manifest.Codec.{serialize_admission_manifest, load_admission_manifest}
use pkgre.Admission.{
  Tools, AdmissionIdentity, AdmissionError, Entries, has_key, remove, same_admission,
  candidate_identity, approval_identity, bad_hash, bad_manifest, foreign_source, repeated_binding,
  missing_batches, unbound_manifest, repeated_batch, covered_twice, no_locked_identity,
  facts_differ, uncovered_identity, not_directory,
}
use pkgre.Admission.Lock.{load_admission_lock}
use pkgre.Admission.Directory.{
  Tree, DirEntry, absent, other_kind, directory, sorted_entries, stem_of,
  validate_admission_tree_structure,
}

abbrev pub is_crates_io : Source Version → Bool
is_crates_io crates_io = true
is_crates_io (git_tag repository tag tag_oid commit name subdir cargo_version) = false

-- One approval of the catalog; one without a binding is skipped.
unfoldable pub bind_approval :
    Approval Version
    → Option Bytes
    → Entries (Approval Version)
    → Result AdmissionError (Entries (Approval Version))
unfolding validate_sha256 approval_identity
bind_approval approval none expected = ok expected
bind_approval approval (some binding) expected = do
  map_err bad_hash (validate_sha256 binding)
  ensure (is_crates_io approval.source) foreign_source
  ensure (not (has_key (approval_identity approval) expected)) repeated_binding
  ok ((approval_identity approval, approval) ∷ expected)

-- The loop of `admission_bound_approvals`.
unfoldable pub admission_bound_approvals :
    Entries (Approval Version)
    → List (Approval Version)
    → Result AdmissionError (Entries (Approval Version))
unfolding bind_approval
admission_bound_approvals expected [] = ok expected
admission_bound_approvals expected (approval ∷ approvals) = do
  more ← bind_approval approval approval.admission_sha256 expected
  admission_bound_approvals more approvals

unfoldable pub validate_candidate_lock :
    UpdateCandidate → Approval Version → Bytes → Result AdmissionError (Unit {0})
validate_candidate_lock candidate approval batch_hash =
    ensure
      (beq approval.registry candidate.registry
        && beq (to_string approval.category) candidate.category
        && beq approval.name candidate.name
        && same_key approval.version candidate.candidate.version
        && beq approval.archive_sha256 candidate.candidate.crate_sha256
        && beq approval.index_record_sha256 candidate.candidate.source_row_sha256
        && same_option beq approval.admission_sha256 (some batch_hash)
        && is_crates_io approval.source)
      facts_differ

-- What the loop over the batches carries.
pub record Progress : Type 0 where
  pub covered : List AdmissionIdentity
  pub batch_hashes : List Bytes
  pub expected : Entries (Approval Version)

-- The candidates of one batch.
unfoldable pub cover_candidates :
    Bytes → Progress → List UpdateCandidate → Result AdmissionError Progress
unfolding candidate_identity remove same_admission validate_candidate_lock
cover_candidates batch_hash progress [] = ok progress
cover_candidates batch_hash progress (candidate ∷ candidates) = do
  ensure (not (any (same_admission (candidate_identity candidate)) progress.covered)) covered_twice
  taken ← ok_or (remove (candidate_identity candidate) progress.expected) no_locked_identity
  validate_candidate_lock candidate taken.0 batch_hash
  cover_candidates batch_hash
      (record {
        covered = candidate_identity candidate ∷ progress.covered;
        batch_hashes = progress.batch_hashes;
        expected = taken.1;
      })
      candidates

-- The file of a name.
abbrev pub find_file : Bytes → List DirEntry → File
find_file name [] = unread
find_file name (entry ∷ entries) =
    if beq entry.file_name name then entry.file else find_file name entries

abbrev pub has_toml : Option (Bytes × Bytes) → Bool
has_toml none = false
has_toml (some (stem, extension)) = not (is_empty stem) && beq extension (codes "toml")

-- The stems of the manifests, in order.
abbrev pub stems : List DirEntry → List Bytes
stems entries = sort_by leb_bytes (
    map (λ (entry : DirEntry). stem_of (at_last_dot entry.file_name))
      (keep (λ (entry : DirEntry). has_toml (at_last_dot entry.file_name))
        (sorted_entries entries)))

module _ (tools : Tools) where
  -- One batch: its manifest, its lock and the candidates.
  unfoldable pub cover_batch : List DirEntry → Progress → Bytes → Result AdmissionError Progress
  unfolding load_admission_manifest serialize_admission_manifest load_admission_lock
      cover_candidates
  cover_batch entries progress stem = do
    manifest ← map_err bad_manifest (
        load_admission_manifest tools.leb_version tools.version_text tools.manifest_toml
          (find_file (stem ++ codes ".toml") entries))
    manifest_bytes ← map_err bad_manifest (
        serialize_admission_manifest tools.leb_version tools.version_text tools.manifest_toml
          manifest)
    loaded ← load_admission_lock tools (find_file (stem ++ codes ".lock") entries) manifest
    ensure (beq loaded.0.manifest_sha256 (tools.sha256 manifest_bytes)) unbound_manifest
    ensure (not (any (beq (tools.sha256 loaded.1)) progress.batch_hashes)) repeated_batch
    cover_candidates (tools.sha256 loaded.1)
        (record {
          covered = progress.covered;
          batch_hashes = tools.sha256 loaded.1 ∷ progress.batch_hashes;
          expected = progress.expected;
        })
        loaded.0.plan.candidates

  unfoldable pub cover_batches :
      List DirEntry → Progress → List Bytes → Result AdmissionError Progress
  unfolding cover_batch
  cover_batches entries progress [] = ok progress
  cover_batches entries progress (stem ∷ stems) = do
    next ← cover_batch entries progress stem
    cover_batches entries next stems

  -- The batches of the directory that is found, against the identities that are expected.
  unfoldable pub cover_tree : Tree → Entries (Approval Version) → Result AdmissionError (Unit {0})
  unfolding cover_batches
  cover_tree absent expected = ensure (no_element expected) missing_batches
  cover_tree other_kind expected = err not_directory
  cover_tree (directory entries) expected = do
    progress ←
        cover_batches entries (record { covered = []; batch_hashes = []; expected = expected })
          (stems entries)
    ensure (no_element progress.expected) uncovered_identity

  unfoldable pub validate_admission_inventory :
      Tree → Catalog Version → Result AdmissionError (Unit {0})
  unfolding validate_admission_tree_structure admission_bound_approvals cover_tree
  validate_admission_inventory tree catalog = do
    validate_admission_tree_structure tree
    expected ← admission_bound_approvals [] catalog.approvals
    cover_tree tree expected
