-- ===== src/Plan/Delta.antt =====
-- The comparison of two archive analyses: `compare_archive_analyses` and `ArchiveSummary::from_analysis`
-- of rust/src/update/plan.rs. SHA-256 and the JSON printers are parameters, and a map is the list of its
-- values in the order of their keys.
pub mod Sorted
pub mod Exact
pub mod Changes
pub mod Checked
use pkgre.Prelude.{
  ℕ, [], ◌∷◌, List, Bytes, map, length, any, keep, find, beq, ◌==◌, Bool, true, false, not, ◌&&◌,
  Option, none, some, Result, ok, err, ◌>>=◌, ◌>>◌, ensure, ok_or,
}
use pkgre.Release.{leb_bytes, sort_by}
use pkgre.Policy.Topology.{each_after}
use pkgre.Plan.{ArchiveSummary, ArchiveDelta, PlanError, repeated_path, serialization_failure}
use pkgre.Plan.Order.{same_flag, same_surface}

pub record ArchiveFile : Type 0 where
  pub path : Bytes
  pub size : ℕ
  pub mode : ℕ
  pub sha256 : Bytes
  pub binary : Bool

pub record EmbeddedVcsInfo : Type 0 where
  pub commit : Bytes
  pub path_in_vcs : Option Bytes
  pub file_sha256 : Bytes

pub record ArchiveAnalysis : Type 0 where
  pub compressed_bytes : ℕ
  pub unpacked_bytes : ℕ
  pub files : List ArchiveFile
  pub build_surface : List (Bytes × Bytes)
  pub vcs : Option EmbeddedVcsInfo

pub record CompleteDelta : Type 0 where
  pub added : List ArchiveFile
  pub removed : List ArchiveFile
  pub changed : List (ArchiveFile × ArchiveFile)
  pub build_surface_before : List (Bytes × Bytes)
  pub build_surface_after : List (Bytes × Bytes)

abbrev pub equal_file : ArchiveFile → ArchiveFile → Bool
equal_file a b =
    beq a.path b.path
    && (a.size == b.size)
    && (a.mode == b.mode)
    && beq a.sha256 b.sha256
    && same_flag a.binary b.binary

abbrev pub leb_path : ArchiveFile → ArchiveFile → Bool
leb_path a b = leb_bytes a.path b.path

abbrev pub has_path : List ArchiveFile → Bytes → Bool
has_path files path = any (λ (file : ArchiveFile). beq path file.path) files

abbrev pub get : Bytes → List ArchiveFile → Option ArchiveFile
get path files = find (λ (file : ArchiveFile). beq path file.path) files

abbrev pub check_path : List ArchiveFile → ArchiveFile → Result PlanError (Unit {0})
check_path seen file = ensure (not (has_path seen file.path)) repeated_path

unfoldable pub archive_files_by_path : List ArchiveFile → Result PlanError (List ArchiveFile)
archive_files_by_path files = do each_after check_path [] files; ok (sort_by leb_path files)

-- A file of the candidate whose entry in the base differs, with the changes behind it.
abbrev pub with_change :
    Option ArchiveFile
    → ArchiveFile
    → List (ArchiveFile × ArchiveFile)
    → List (ArchiveFile × ArchiveFile)
with_change none file rest = rest
with_change (some previous) file rest = elim (equal_file previous file) [
  | true ↦ rest
  | false ↦ (previous, file) ∷ rest
]

abbrev pub changed_files : List ArchiveFile → List ArchiveFile → List (ArchiveFile × ArchiveFile)
changed_files base [] = []
changed_files base (file ∷ files) = with_change (get file.path base) file (changed_files base files)

abbrev pub only_in : List ArchiveFile → List ArchiveFile → List ArchiveFile
only_in files others = keep (λ (file : ArchiveFile). not (has_path others file.path)) files

-- What is compared: the files of both archives by path.
abbrev pub complete_delta :
    ArchiveAnalysis → ArchiveAnalysis → List ArchiveFile → List ArchiveFile → CompleteDelta
complete_delta base candidate base_files candidate_files = record {
  added = only_in candidate_files base_files;
  removed = only_in base_files candidate_files;
  changed = changed_files base_files candidate_files;
  build_surface_before = base.build_surface;
  build_surface_after = candidate.build_surface;
}

abbrev pub path_of : ArchiveFile → Bytes
path_of file = file.path

module _ (sha256 : Bytes → Bytes) where
  module _ (to_vec : CompleteDelta → Option Bytes) where
    -- The public summary of a complete delta.
    unfoldable pub summarise :
        ArchiveAnalysis → ArchiveAnalysis → CompleteDelta → Result PlanError ArchiveDelta
    summarise base candidate complete = do
      canonical ← ok_or (to_vec complete) serialization_failure
      ok (record {
        delta_sha256 = sha256 canonical;
        added = map path_of complete.added;
        removed = map path_of complete.removed;
        changed = map (λ (change : ArchiveFile × ArchiveFile). path_of change.1) complete.changed;
        build_surface_changed = not (same_surface base.build_surface candidate.build_surface);
      })

    unfoldable pub compare_archive_analyses :
        ArchiveAnalysis → ArchiveAnalysis → Result PlanError ArchiveDelta
    unfolding archive_files_by_path summarise
    compare_archive_analyses base candidate = do
      base_files ← archive_files_by_path base.files
      candidate_files ← archive_files_by_path candidate.files
      summarise base candidate (complete_delta base candidate base_files candidate_files)

  module _ (to_vec : ArchiveAnalysis → Option Bytes) where
    abbrev pub commit_of : Option EmbeddedVcsInfo → Option Bytes
    commit_of none = none
    commit_of (some vcs) = some vcs.commit

    abbrev pub path_in_vcs_of : Option EmbeddedVcsInfo → Option Bytes
    path_in_vcs_of none = none
    path_in_vcs_of (some vcs) = vcs.path_in_vcs

    unfoldable pub from_analysis : ArchiveAnalysis → Result PlanError ArchiveSummary
    from_analysis analysis = do
      canonical ← ok_or (to_vec analysis) serialization_failure
      ok (record {
        analysis_sha256 = sha256 canonical;
        compressed_bytes = analysis.compressed_bytes;
        unpacked_bytes = analysis.unpacked_bytes;
        files = length analysis.files;
        build_surface = analysis.build_surface;
        vcs_commit = commit_of analysis.vcs;
        vcs_path = path_in_vcs_of analysis.vcs;
      })
