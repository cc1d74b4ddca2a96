-- ===== src/Plan/Delta/Changes.antt =====
-- The paths of the changed files of two archives: rust/src/update/plan.rs.
use mathlib.Core.Path.{subst}
use pkgre.Prelude.{
  ◌≡◌, ◌↔◌, refl, sym, ap, ◌∙◌, arith, List, Bytes, map, keep, beq, beq→eq, Elem, not, true, false,
  Option, none, some,
}
use pkgre.Release.{sort_by}
use pkgre.Release.Lists.{keep-Elem, Elem-keep, sort_by-Elem, Elem-sort_by}
use pkgre.Plan.Delta.{ArchiveFile, equal_file, leb_path, get, changed_files, only_in, path_of}
use pkgre.Plan.Delta.Sorted.{Ascending, leb_path-IsPreorder, map-Elem, Elem-map}
use pkgre.Plan.Delta.Exact.{
  Has, only_in_iff, is_changed, differs, changed_paths, changed_files-keep, find-Elem,
  get-Ascending,
}

-- A path has a file in both lists, and the two files differ.
abbrev pub Changes : List ArchiveFile → List ArchiveFile → Bytes → Type 0
Changes base candidate path =
    (a : ArchiveFile) × (b : ArchiveFile) × Elem a base
    × Elem b candidate
    × (a.path ≡ path)
    × (b.path ≡ path)
    × (equal_file a b ≡ false)

is_changed-Changes :
    (base : List ArchiveFile) (b : ArchiveFile)
    → is_changed base b ≡ true
    → (a : ArchiveFile) × Elem a base × (a.path ≡ b.path) × (equal_file a b ≡ false)
is_changed-Changes base b h = go (get b.path base) refl h
  where
    go :
        (found : Option ArchiveFile)
        → get b.path base ≡ found
        → differs found b ≡ true
        → (a : ArchiveFile) × Elem a base × (a.path ≡ b.path) × (equal_file a b ≡ false)
    go none eq d = absurd (cc)
    go (some a) eq d =
        let (inside, same) = find-Elem (λ (file : ArchiveFile). beq b.path file.path) base a eq in
        (a, inside, sym (beq→eq b.path a.path same), ground arith)

Changes-is_changed :
    (base : List ArchiveFile)
    → Ascending base
    → (a b : ArchiveFile) → Elem a base
    → a.path ≡ b.path
    → equal_file a b ≡ false
    → is_changed base b ≡ true
Changes-is_changed base up a b inside same other =
    let found : get b.path base ≡ some a =
      ap (λ p. get p base) (sym same) ∙ get-Ascending base up a inside in
    ap (λ o. differs o b) found ∙ ap not other

changed_iff :
    (base candidate : List ArchiveFile)
    → Ascending base
    → (path : Bytes)
    → Elem path (changed_paths (changed_files base candidate)) ↔ Changes base candidate path
changed_iff base candidate up path = (
  λ e.
      let (b, kept, here) =
        map-Elem (keep (is_changed base) candidate) path
          (subst (λ paths. Elem path paths) (changed_files-keep base candidate) e) in
      let (inside, changed) = keep-Elem (is_changed base) candidate b kept in
      let (a, there, same, other) = is_changed-Changes base b changed in
      (a, b, there, inside, same ∙ here, here, other),
  λ h.
      let (a, b, there, inside, pa, pb, other) = h in
      let kept =
        Elem-keep (is_changed base) candidate b inside
          (Changes-is_changed base up a b there (pa ∙ sym pb) other) in
      subst (λ p. Elem p (changed_paths (changed_files base candidate))) pb
        (subst (λ paths. Elem b.path paths) (sym (changed_files-keep base candidate))
          (Elem-map (keep (is_changed base) candidate) b kept)),
)

sorted-Has :
    (files : List ArchiveFile) (path : Bytes) → Has (sort_by leb_path files) path → Has files path
sorted-Has files path (file, inside, same) =
    (file, sort_by-Elem leb_path leb_path-IsPreorder files file inside, same)

Has-sorted :
    (files : List ArchiveFile) (path : Bytes) → Has files path → Has (sort_by leb_path files) path
Has-sorted files path (file, inside, same) =
    (file, Elem-sort_by leb_path leb_path-IsPreorder files file inside, same)

pub only_in_sorted_iff :
    (files others : List ArchiveFile) (path : Bytes)
    → Elem path (map path_of (only_in (sort_by leb_path files) (sort_by leb_path others)))
      ↔ (Has files path × (Has others path → ⊥))
only_in_sorted_iff files others path =
    let both = only_in_iff (sort_by leb_path files) (sort_by leb_path others) path in
    (
      λ e.
          let (there, alone) = both.0 e in
          (sorted-Has files path there, λ k. alone (Has-sorted others path k)),
      λ h. both.1 (Has-sorted files path h.0, λ k. h.1 (sorted-Has others path k)),
    )

pub changed_sorted_iff :
    (base candidate : List ArchiveFile)
    → Ascending (sort_by leb_path base)
    → (path : Bytes)
    → Elem path (changed_paths (changed_files (sort_by leb_path base) (sort_by leb_path candidate)))
      ↔ Changes base candidate path
changed_sorted_iff base candidate up path =
    let both = changed_iff (sort_by leb_path base) (sort_by leb_path candidate) up path in
    let o = leb_path-IsPreorder in
    (
      λ e.
          let (a, b, there, inside, pa, pb, other) = both.0 e in
          (
            a,
            b,
            sort_by-Elem leb_path o base a there,
            sort_by-Elem leb_path o candidate b inside,
            pa,
            pb,
            other,
          ),
      λ h.
          let (a, b, there, inside, pa, pb, other) = h in
          both.1 (
            a,
            b,
            Elem-sort_by leb_path o base a there,
            Elem-sort_by leb_path o candidate b inside,
            pa,
            pb,
            other,
          ),
    )
