-- ===== src/Examples/Deltas.antt =====
-- The comparison of two small archives.
use mathlib.Core.Path.{subst}
use pkgre.Prelude.{
  ◌≡◌, refl, ℕ, [], ◌∷◌, List, Bytes, codes, Option, none, some, ok, err, false, split,
}
use pkgre.AcceptedRef.{is_lower_hex, starts_with}
use pkgre.Release.Lists.{each-Elem}
use pkgre.Examples.Plans.{sha}
use pkgre.Plan.{ArchiveDelta, repeated_path, validate_hash, validate_relative_path}
use pkgre.Plan.Candidate.{validate_archive_delta}
use pkgre.Plan.Delta.{
  ArchiveFile, ArchiveAnalysis, CompleteDelta, archive_files_by_path, summarise,
  compare_archive_analyses,
}
use pkgre.Plan.Delta.Exact.{Has}
use pkgre.Plan.Delta.Checked.{
  IsDelta, compare_archive_analyses-IsDelta, compare_archive_analyses-valid,
}

abbrev file_at : Bytes → ℕ → ArchiveFile
file_at path mode = record { path = path; size = 1; mode = mode; sha256 = sha; binary = false }

abbrev analysis : List ArchiveFile → ArchiveAnalysis
analysis files = record {
  compressed_bytes = 1;
  unpacked_bytes = 1;
  files = files;
  build_surface = [];
  vcs = none;
}

abbrev digest : Bytes → Bytes
digest bytes = sha

abbrev to_vec : CompleteDelta → Option Bytes
to_vec complete = some (codes "{}")

abbrev base : ArchiveAnalysis
base = analysis (file_at (codes "removed") 420 ∷ file_at (codes "changed") 420 ∷ [])

abbrev candidate : ArchiveAnalysis
candidate = analysis (file_at (codes "added") 420 ∷ file_at (codes "changed") 493 ∷ [])

abbrev delta : ArchiveDelta
delta = record {
  delta_sha256 = sha;
  added = codes "added" ∷ [];
  removed = codes "removed" ∷ [];
  changed = codes "changed" ∷ [];
  build_surface_changed = false;
}

delta_run : compare_archive_analyses digest to_vec base candidate ≡ ok delta
unfolding compare_archive_analyses archive_files_by_path summarise
delta_run = refl

repeated_run :
    compare_archive_analyses digest to_vec base
      (analysis (file_at (codes "a") 1 ∷ file_at (codes "a") 1 ∷ []))
    ≡ err repeated_path
unfolding compare_archive_analyses archive_files_by_path summarise
repeated_run = refl

digest_run : (bytes : Bytes) → validate_hash (digest bytes) ≡ ok tt
unfolding validate_hash is_lower_hex
digest_run bytes = refl

relative :
    (first second : ArchiveFile)
    → validate_relative_path first.path ≡ ok tt
    → validate_relative_path second.path ≡ ok tt
    → (path : Bytes) → Has (first ∷ second ∷ []) path
    → validate_relative_path path ≡ ok tt
relative first second one two path (file, inside, same) =
    subst (λ p. validate_relative_path p ≡ ok tt) same
      (each-Elem (λ (file : ArchiveFile). validate_relative_path file.path ≡ ok tt) first
        (second ∷ []) one
        (each-Elem (λ (file : ArchiveFile). validate_relative_path file.path ≡ ok tt) second [] two
          (λ f e. elim e [ ]))
        file inside)

compare_archive_analyses-IsDelta_example : IsDelta base candidate delta
compare_archive_analyses-IsDelta_example =
    compare_archive_analyses-IsDelta digest to_vec base candidate delta delta_run

base_paths : (path : Bytes) → Has base.files path → validate_relative_path path ≡ ok tt
unfolding validate_relative_path starts_with split
base_paths = relative (file_at (codes "removed") 420) (file_at (codes "changed") 420) refl refl

candidate_paths : (path : Bytes) → Has candidate.files path → validate_relative_path path ≡ ok tt
unfolding validate_relative_path starts_with split
candidate_paths = relative (file_at (codes "added") 420) (file_at (codes "changed") 493) refl refl

compare_archive_analyses-valid_example : validate_archive_delta delta ≡ ok tt
compare_archive_analyses-valid_example =
    compare_archive_analyses-valid digest to_vec base candidate delta digest_run base_paths
      candidate_paths delta_run
