-- ===== src/Plan/Delta/Sorted.antt =====
-- Lists of archive files in the strict order of their paths: rust/src/update/plan.rs.
use mathlib.Core.Path.{subst}
use pkgre.Prelude.{
  ◌≡◌, inl, inr, refl, sym, arith, [], ◌∷◌, List, Bytes, map, any, keep, beq, beq→eq, beq_iff, Elem,
  head, tail, Bool, true, false, Bool-cases, ok,
}
use pkgre.Release.{leb_bytes, sort_by}
use pkgre.Release.Order.{IsPreorder, bytes_antisym}
use pkgre.Release.Lists.{
  each-Elem, keep-Elem, any→Elem, IsSorted, sorted_nil, sorted_cons, sort_by-IsSorted,
}
use pkgre.Transition.Evidence.{ensure_passes}
use pkgre.Policy.Distinct.{Pairs, each_after-Pairs}
use pkgre.Policy.Topology.{each_after}
use pkgre.Download.Order.{bytes-IsPreorder, sort_by-Pairs}
use pkgre.Plan.Order.{increasing, before}
use pkgre.Plan.Candidate.{is_disjoint}
use pkgre.Plan.Canonical.{free-any}
use pkgre.Plan.Delta.{ArchiveFile, leb_path, check_path, path_of}

abbrev Other : ArchiveFile → ArchiveFile → Type 0
Other a b = beq a.path b.path ≡ false

Other-sym : (a b : ArchiveFile) → Other a b → Other b a
Other-sym a b h = elim (Bool-cases (beq b.path a.path)) [
  | inl found ↦
      absurd (ground (arith, (beq_iff a.path b.path).1 (sym (beq→eq b.path a.path found))))
  | inr free ↦ free
]

-- The first path stands in front of the second.
abbrev pub Precedes : ArchiveFile → ArchiveFile → Type 0
Precedes a b = before a.path b.path ≡ true

abbrev pub Ascending : List ArchiveFile → Type 0
Ascending files = Pairs (λ later earlier. Precedes earlier later) files

pub leb_path-IsPreorder : IsPreorder leb_path
leb_path-IsPreorder = bytes-IsPreorder (λ (file : ArchiveFile). file.path)

strict :
    (files : List ArchiveFile)
    → IsSorted leb_path leb_path-IsPreorder files
    → Pairs Other files
    → Ascending files
strict [] sorted_nil p = tt
strict (x ∷ xs) (sorted_cons below rest) p = (
  λ y e. elim (Bool-cases (leb_bytes y.path x.path)) [
    | inl found ↦
        let same = bytes_antisym y.path x.path found (below y e) in
        absurd (ground (arith, (beq_iff y.path x.path).1 same, p.0 y e))
    | inr free ↦ rw free refl
  ],
  strict xs rest p.1,
)

pub check_path-Ascending :
    (files : List ArchiveFile)
    → each_after check_path [] files ≡ ok tt
    → Ascending (sort_by leb_path files)
check_path-Ascending files h =
    let one : (seen : List ArchiveFile) (x : ArchiveFile)
        → check_path seen x ≡ ok tt
        → (y : ArchiveFile) → Elem y seen
        → Other x y =
      λ seen x h y e.
        free-any (λ (file : ArchiveFile). beq x.path file.path) seen ((ensure_passes _ _).0 h) y
          e in
    strict (sort_by leb_path files) (sort_by-IsSorted leb_path leb_path-IsPreorder files) (
      sort_by-Pairs leb_path leb_path-IsPreorder Other Other-sym files
        (each_after-Pairs check_path Other one [] files h).1)

pub keep-Ascending :
    (p : ArchiveFile → Bool) (files : List ArchiveFile) → Ascending files → Ascending (keep p files)
keep-Ascending p [] h = tt
keep-Ascending p (x ∷ xs) h = elim (Bool-cases (p x)) [
  | inl passed ↦
      subst (λ b. Ascending (elim b [ true ↦ x ∷ keep p xs | false ↦ keep p xs ])) (sym passed)
        (λ y e. h.0 y (keep-Elem p xs y e).0, keep-Ascending p xs h.1)
  | inr failed ↦
      subst (λ b. Ascending (elim b [ true ↦ x ∷ keep p xs | false ↦ keep p xs ])) (sym failed)
        (keep-Ascending p xs h.1)
]

pub increasing-map :
    (files : List ArchiveFile) → Ascending files → increasing before (map path_of files) ≡ true
increasing-map [] h = refl
increasing-map (x ∷ []) h = refl
increasing-map (x ∷ y ∷ xs) h = rw (h.0 y head, increasing-map (y ∷ xs) h.1) refl

pub disjoint :
    (xs ys : List Bytes)
    → ((path : Bytes) → Elem path xs → Elem path ys → ⊥)
    → is_disjoint xs ys ≡ true
disjoint xs ys apart = elim (Bool-cases (any (λ x. any (beq x) ys) xs)) [
  | inl found ↦
      let (x, inside, hit) = any→Elem (λ x. any (beq x) ys) xs found in
      let (y, there, same) = any→Elem (beq x) ys hit in
      absurd (apart x inside (subst (λ z. Elem z ys) (sym (beq→eq x y same)) there))
  | inr free ↦ rw free refl
]

pub map-Elem :
    (files : List ArchiveFile) (path : Bytes)
    → Elem path (map path_of files)
    → (file : ArchiveFile) × Elem file files × (file.path ≡ path)
map-Elem [] path e = elim e [ ]
map-Elem (x ∷ files) path e =
    each-Elem (λ path. (file : ArchiveFile) × Elem file (x ∷ files) × (file.path ≡ path)) x.path
      (map path_of files) (x, head, refl)
      (λ path e. let (file, inside, same) = map-Elem files path e in (file, tail inside, same)) path
      e

pub Elem-map :
    (files : List ArchiveFile) (file : ArchiveFile)
    → Elem file files
    → Elem file.path (map path_of files)
Elem-map [] file e = elim e [ ]
Elem-map (x ∷ files) file e =
    each-Elem (λ (file : ArchiveFile). Elem file.path (map path_of (x ∷ files))) x files head
      (λ file e. tail (Elem-map files file e)) file e
