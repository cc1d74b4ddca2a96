-- ===== src/Plan/Delta/Checked.antt =====
-- The delta of two archives is exact, and the validation of a candidate accepts it:
-- `compare_archive_analyses` of rust/src/update/plan.rs.
use mathlib.Core.Path.{subst}
use pkgre.Prelude.{
  ◌≡◌, ◌↔◌, refl, sym, ap, ◌∙◌, [], ◌∷◌, List, Bytes, map, Elem, head, tail, not, true, ◌&&◌,
  Option, ok, ok_or, >>=-eq-ok, ok_inj,
}
use pkgre.Release.{sort_by}
use pkgre.Transition.{each}
use pkgre.Transition.Evidence.{and_then, ensure_passes}
use pkgre.Policy.Topology.{each_after}
use pkgre.Plan.{ArchiveDelta, validate_hash, validate_relative_path, serialization_failure}
use pkgre.Plan.Order.{increasing, before, same_surface}
use pkgre.Plan.Candidate.{is_disjoint, validate_paths, validate_archive_delta}
use pkgre.Plan.Delta.{
  ArchiveFile, ArchiveAnalysis, CompleteDelta, leb_path, check_path, archive_files_by_path,
  changed_files, only_in, complete_delta, path_of, summarise, compare_archive_analyses,
}
use pkgre.Plan.Delta.Sorted.{
  Ascending, check_path-Ascending, keep-Ascending, increasing-map, disjoint,
}
use pkgre.Plan.Delta.Exact.{Has, is_changed, changed_paths, changed_files-keep}
use pkgre.Plan.Delta.Changes.{Changes, only_in_sorted_iff, changed_sorted_iff}

-- The added, the removed and the changed paths, and whether the build surface changed.
pub record IsDelta (base candidate : ArchiveAnalysis) (delta : ArchiveDelta) : Type 0 where
  pub added :
      (path : Bytes)
      → Elem path delta.added ↔ (Has candidate.files path × (Has base.files path → ⊥))
  pub removed :
      (path : Bytes)
      → Elem path delta.removed ↔ (Has base.files path × (Has candidate.files path → ⊥))
  pub changed : (path : Bytes) → Elem path delta.changed ↔ Changes base.files candidate.files path
  pub surface :
      delta.build_surface_changed ≡ not (same_surface base.build_surface candidate.build_surface)

files_by_path-Ascending :
    (files found : List ArchiveFile)
    → archive_files_by_path files ≡ ok found
    → Ascending (sort_by leb_path files) × (sort_by leb_path files ≡ found)
unfolding archive_files_by_path
files_by_path-Ascending files found h =
    let (u, fresh, same) = >>=-eq-ok (each_after check_path [] files) _ h in
    (check_path-Ascending files fresh, ok_inj same)

validate_paths-ok :
    (paths : List Bytes)
    → increasing before paths ≡ true
    → ((path : Bytes) → Elem path paths → validate_relative_path path ≡ ok tt)
    → validate_paths paths ≡ ok tt
unfolding validate_paths
validate_paths-ok paths up valid = (and_then _ _).1 ((ensure_passes _ _).1 up, each-ok paths valid)
  where
    each-ok :
        (paths : List Bytes)
        → ((path : Bytes) → Elem path paths → validate_relative_path path ≡ ok tt)
        → each validate_relative_path paths ≡ ok tt
    each-ok [] valid = refl
    each-ok (path ∷ paths) valid =
        (and_then _ _).1 (valid path head, each-ok paths (λ p e. valid p (tail e)))

module _ (sha256 : Bytes → Bytes) (to_vec : CompleteDelta → Option Bytes)
    (base candidate : ArchiveAnalysis) where
  -- What a comparison that succeeds has computed.
  record Computed (delta : ArchiveDelta) : Type 0 where
    pub base_up : Ascending (sort_by leb_path base.files)
    pub candidate_up : Ascending (sort_by leb_path candidate.files)
    pub digest : Bytes
    pub hashed : delta.delta_sha256 ≡ sha256 digest
    pub added :
        delta.added
        ≡ map path_of (only_in (sort_by leb_path candidate.files) (sort_by leb_path base.files))
    pub removed :
        delta.removed
        ≡ map path_of (only_in (sort_by leb_path base.files) (sort_by leb_path candidate.files))
    pub changed :
        delta.changed
        ≡ changed_paths
            (changed_files (sort_by leb_path base.files) (sort_by leb_path candidate.files))
    pub surface :
        delta.build_surface_changed ≡ not (same_surface base.build_surface candidate.build_surface)

  abbrev summary_of : Bytes → CompleteDelta → ArchiveDelta
  summary_of bytes complete = record {
    delta_sha256 = sha256 bytes;
    added = map path_of complete.added;
    removed = map path_of complete.removed;
    changed = changed_paths complete.changed;
    build_surface_changed = not (same_surface base.build_surface candidate.build_surface);
  }

  compare-Computed :
      (delta : ArchiveDelta)
      → compare_archive_analyses sha256 to_vec base candidate ≡ ok delta
      → Computed delta
  unfolding compare_archive_analyses summarise
  compare-Computed delta h =
      let (xs, first, s0) = >>=-eq-ok (archive_files_by_path base.files) _ h in
      let (ys, second, s1) = >>=-eq-ok (archive_files_by_path candidate.files) _ s0 in
      let (base_up, base_same) = files_by_path-Ascending base.files xs first in
      let (candidate_up, candidate_same) = files_by_path-Ascending candidate.files ys second in
      let complete =
        complete_delta base candidate (sort_by leb_path base.files)
          (sort_by leb_path candidate.files) in
      let whole : summarise sha256 to_vec base candidate complete ≡ ok delta =
        (λ i.
          summarise sha256 to_vec base candidate
            (complete_delta base candidate (base_same i) (candidate_same i)))
        ∙ s1 in
      let (bytes, printed, made) =
        >>=-eq-ok (ok_or (to_vec complete) serialization_failure) _ whole in
      let same : delta ≡ summary_of bytes complete = sym (ok_inj made) in
      record {
        base_up = base_up;
        candidate_up = candidate_up;
        digest = bytes;
        hashed = ap (λ (d : ArchiveDelta). d.delta_sha256) same;
        added = ap (λ (d : ArchiveDelta). d.added) same;
        removed = ap (λ (d : ArchiveDelta). d.removed) same;
        changed = ap (λ (d : ArchiveDelta). d.changed) same;
        surface = ap (λ (d : ArchiveDelta). d.build_surface_changed) same;
      }

  -- A comparison of two archives that succeeds gives an exact delta: the added paths are the ones of the
  -- candidate alone, the removed ones those of the base alone, the changed ones those with a file in
  -- both that differs, and the flag says whether the build surfaces differ.
  pub compare_archive_analyses-IsDelta :
      (delta : ArchiveDelta)
      → compare_archive_analyses sha256 to_vec base candidate ≡ ok delta
      → IsDelta base candidate delta
  compare_archive_analyses-IsDelta delta h =
      let c = compare-Computed delta h in
      record {
        added = λ path.
            subst
              (λ paths. Elem path paths ↔ (Has candidate.files path × (Has base.files path → ⊥)))
              (sym c.added) (only_in_sorted_iff candidate.files base.files path);
        removed = λ path.
            subst
              (λ paths. Elem path paths ↔ (Has base.files path × (Has candidate.files path → ⊥)))
              (sym c.removed) (only_in_sorted_iff base.files candidate.files path);
        changed = λ path.
            subst (λ paths. Elem path paths ↔ Changes base.files candidate.files path)
              (sym c.changed) (changed_sorted_iff base.files candidate.files c.base_up path);
        surface = c.surface;
      }

  -- A comparison of two archives that succeeds gives a delta that the validation of a plan accepts, if
  -- the digest is a lower case SHA-256 and every path of the archives is a relative one.
  pub compare_archive_analyses-valid :
      (delta : ArchiveDelta)
      → ((bytes : Bytes) → validate_hash (sha256 bytes) ≡ ok tt)
      → ((path : Bytes) → Has base.files path → validate_relative_path path ≡ ok tt)
      → ((path : Bytes) → Has candidate.files path → validate_relative_path path ≡ ok tt)
      → compare_archive_analyses sha256 to_vec base candidate ≡ ok delta
      → validate_archive_delta delta ≡ ok tt
  unfolding validate_archive_delta
  compare_archive_analyses-valid delta digests base_paths candidate_paths h =
      let c = compare-Computed delta h in
      let d = compare_archive_analyses-IsDelta delta h in
      let ups = sort_by leb_path candidate.files in
      let added_up : increasing before delta.added ≡ true =
        ap (increasing before) c.added ∙ increasing-map _ (keep-Ascending _ ups c.candidate_up) in
      let removed_up : increasing before delta.removed ≡ true =
        ap (increasing before) c.removed
        ∙ increasing-map _ (keep-Ascending _ (sort_by leb_path base.files) c.base_up) in
      let changed_up : increasing before delta.changed ≡ true =
        ap (increasing before) c.changed
        ∙ ap (increasing before) (changed_files-keep (sort_by leb_path base.files) ups)
        ∙ increasing-map _
            (keep-Ascending (is_changed (sort_by leb_path base.files)) ups c.candidate_up) in
      let added =
        validate_paths-ok delta.added added_up (λ p e. candidate_paths p ((d.added p).0 e).0) in
      let removed =
        validate_paths-ok delta.removed removed_up (λ p e. base_paths p ((d.removed p).0 e).0) in
      let changed =
        validate_paths-ok delta.changed changed_up
          (λ p e. candidate_paths p (in_candidate p ((d.changed p).0 e))) in
      let classes : (is_disjoint delta.added delta.removed
            && is_disjoint delta.added delta.changed
            && is_disjoint delta.removed delta.changed)
          ≡ true =
        rw
          (
            disjoint delta.added delta.removed (λ p e k. ((d.added p).0 e).1 ((d.removed p).0 k).0),
            disjoint delta.added delta.changed
                (λ p e k. ((d.added p).0 e).1 (in_base p ((d.changed p).0 k))),
            disjoint delta.removed delta.changed
                (λ p e k. ((d.removed p).0 e).1 (in_candidate p ((d.changed p).0 k))),
          )
          refl in
      (and_then _ _).1 (
        ap validate_hash c.hashed ∙ digests c.digest,
        (and_then _ _).1 (
          (and_then _ _).1 (added, (and_then _ _).1 (removed, (and_then _ _).1 (changed, refl))),
          (ensure_passes _ _).1 classes,
        ),
      )
    where
      in_base : (p : Bytes) → Changes base.files candidate.files p → Has base.files p
      in_base p (a, b, there, inside, pa, pb, other) = (a, there, pa)

      in_candidate : (p : Bytes) → Changes base.files candidate.files p → Has candidate.files p
      in_candidate p (a, b, there, inside, pa, pb, other) = (b, inside, pb)
