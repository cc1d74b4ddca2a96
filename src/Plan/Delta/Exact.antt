-- ===== src/Plan/Delta/Exact.antt =====
-- Which paths stand in a comparison of two lists of files: rust/src/update/plan.rs.
use mathlib.Core.Path.{subst}
use mathlib.Core.Option.{some_inj}
use pkgre.Prelude.{
  ◌≡◌, ◌↔◌, inl, inr, refl, sym, ap, ◌∙◌, arith, [], ◌∷◌, List, Bytes, map, keep, find, beq, beq→eq,
  beq_iff, beq_refl, Elem, head, tail, not, Bool, true, false, Option, none, some, Bool-cases,
}
use pkgre.Release.{leb_bytes}
use pkgre.Release.Order.{total_refl}
use pkgre.Release.Lists.{each-Elem, keep-Elem, Elem-keep, any-Elem, any→Elem}
use pkgre.Plan.Delta.{
  ArchiveFile, equal_file, has_path, get, with_change, changed_files, only_in, path_of,
}
use pkgre.Plan.Delta.Sorted.{Ascending, leb_path-IsPreorder, map-Elem, Elem-map}

-- A file of the list has the path.
abbrev pub Has : List ArchiveFile → Bytes → Type 0
Has files path = (file : ArchiveFile) × Elem file files × (file.path ≡ path)

has_path-Has :
    (files : List ArchiveFile) (path : Bytes) → has_path files path ≡ true → Has files path
has_path-Has files path h =
    let (file, inside, same) = any→Elem (λ (file : ArchiveFile). beq path file.path) files h in
    (file, inside, sym (beq→eq path file.path same))

Has-has_path :
    (files : List ArchiveFile) (path : Bytes) → Has files path → has_path files path ≡ true
Has-has_path files path (file, inside, same) =
    any-Elem (λ (file : ArchiveFile). beq path file.path) files file inside
      ((beq_iff path file.path).1 (sym same))

absent-Has :
    (files : List ArchiveFile) (path : Bytes)
    → not (has_path files path) ≡ true
    → Has files path
    → ⊥
absent-Has files path h k = ground (arith, Has-has_path files path k)

Has-absent :
    (files : List ArchiveFile) (path : Bytes)
    → (Has files path → ⊥)
    → not (has_path files path) ≡ true
Has-absent files path h = elim (Bool-cases (has_path files path)) [
  | inl found ↦ absurd (h (has_path-Has files path found))
  | inr free ↦ rw free refl
]

pub only_in_iff :
    (files others : List ArchiveFile) (path : Bytes)
    → Elem path (map path_of (only_in files others)) ↔ (Has files path × (Has others path → ⊥))
only_in_iff files others path = (
  λ e.
      let (file, inside, same) = map-Elem (only_in files others) path e in
      let (there, alone) =
        keep-Elem (λ (file : ArchiveFile). not (has_path others file.path)) files file inside in
      ((file, there, same), subst (λ p. Has others p → ⊥) same (absent-Has others file.path alone)),
  λ h.
      let (file, inside, same) = h.0 in
      subst (λ p. Elem p (map path_of (only_in files others))) same
        (Elem-map (only_in files others) file (
          Elem-keep (λ (file : ArchiveFile). not (has_path others file.path)) files file inside
            (Has-absent others file.path (subst (λ p. Has others p → ⊥) (sym same) h.1)))),
)

-- A file differs from the one of its path.
abbrev pub differs : Option ArchiveFile → ArchiveFile → Bool
differs none file = false
differs (some previous) file = not (equal_file previous file)

abbrev pub is_changed : List ArchiveFile → ArchiveFile → Bool
is_changed base file = differs (get file.path base) file

abbrev pub changed_paths : List (ArchiveFile × ArchiveFile) → List Bytes
changed_paths changes = map (λ (change : ArchiveFile × ArchiveFile). path_of change.1) changes

pub changed_files-keep :
    (base files : List ArchiveFile)
    → changed_paths (changed_files base files) ≡ map path_of (keep (is_changed base) files)
changed_files-keep base [] = refl
changed_files-keep base (x ∷ files) = go (get x.path base) (changed_files-keep base files)
  where
    step :
        (p : ArchiveFile) (b : Bool)
        → changed_paths (changed_files base files) ≡ map path_of (keep (is_changed base) files)
        → changed_paths
            (elim b [ true ↦ changed_files base files | false ↦ (p, x) ∷ changed_files base files ])
          ≡ map path_of (elim (not b) [
            | true ↦ x ∷ keep (is_changed base) files
            | false ↦ keep (is_changed base) files
          ])
    step p true rest = rest
    step p false rest = ap (λ paths. x.path ∷ paths) rest

    go :
        (previous : Option ArchiveFile)
        → changed_paths (changed_files base files) ≡ map path_of (keep (is_changed base) files)
        → changed_paths (with_change previous x (changed_files base files))
          ≡ map path_of (elim (differs previous x) [
            | true ↦ x ∷ keep (is_changed base) files
            | false ↦ keep (is_changed base) files
          ])
    go none rest = rest
    go (some p) rest = step p (equal_file p x) rest

pub find-Elem :
    (p : ArchiveFile → Bool) (files : List ArchiveFile) (a : ArchiveFile)
    → find p files ≡ some a
    → Elem a files × (p a ≡ true)
find-Elem p [] a h = absurd (cc)
find-Elem p (x ∷ files) a h = go (find-Elem p files a) (p x) refl h
  where
    go :
        (find p files ≡ some a → Elem a files × (p a ≡ true))
        → (b : Bool) → p x ≡ b
        → elim b [ true ↦ some x | false ↦ find p files ] ≡ some a
        → Elem a (x ∷ files) × (p a ≡ true)
    go below true found eq =
        subst (λ a. Elem a (x ∷ files) × (p a ≡ true)) (some_inj.0 eq) (head, found)
    go below false other eq = let (inside, holds) = below eq in (tail inside, holds)

-- In strict order, a file is the one that is found under its path.
pub get-Ascending :
    (files : List ArchiveFile)
    → Ascending files
    → (a : ArchiveFile) → Elem a files
    → get a.path files ≡ some a
get-Ascending [] h a e = elim e [ ]
get-Ascending (x ∷ files) h a e =
    each-Elem (λ (a : ArchiveFile). get a.path (x ∷ files) ≡ some a) x files
      (subst (λ b. elim b [ true ↦ some x | false ↦ get x.path files ] ≡ some x)
        (sym (beq_refl x.path)) refl)
      (λ a k. elim (Bool-cases (beq a.path x.path)) [
        | inl same ↦
            let equal = beq→eq a.path x.path same in
            let le : leb_bytes a.path x.path ≡ true =
              ap (λ p. leb_bytes p x.path) equal ∙ total_refl leb_path-IsPreorder x in
            absurd (ground (arith, h.0 a k))
        | inr other ↦
            subst (λ b. elim b [ true ↦ some x | false ↦ get a.path files ] ≡ some a) (sym other)
              (get-Ascending files h.1 a k)
      ])
      a e
