-- ===== src/Manifest/Template/Entries.antt =====
-- Requests that pass the loop of `validate_admission_manifest`: rust/src/update/manifest.rs.
use pkgre.Prelude.{
  ◌≡◌, inl, inr, refl, ap, ◌∙◌, arith, [], ◌∷◌, List, Bytes, Elem, head, tail, any, Bool, true,
  false, Option, none, some, Bool-cases, ok, map_err,
}
use pkgre.Category.{is_empty}
use pkgre.Release.{Version, same_key}
use pkgre.Release.Lists.{each-Elem, any→Elem, IsSorted, sorted_cons}
use pkgre.Policy.Distinct.{Pairs}
use pkgre.Transition.{each}
use pkgre.Transition.Evidence.{and_then, ensure_passes}
use pkgre.Plan.Order.{increasing}
use pkgre.Manifest.{
  before_evidence, validate_evidence, AdmissionRequest, bad_package, same_request, leb_request,
  follows, check_target, validate_requests,
}
use pkgre.Manifest.Template.{IsEntry, Apart, leb_request-IsPreorder, both_ways}

free_of :
    (r : AdmissionRequest) (identities : List AdmissionRequest)
    → ((y : AdmissionRequest) → Elem y identities → Apart r y)
    → any (same_request r) identities ≡ false
free_of r identities apart = elim (Bool-cases (any (same_request r) identities)) [
  | inl found ↦
      let (y, inside, same) = any→Elem (same_request r) identities found in
      absurd (ground (arith, apart y inside))
  | inr free ↦ free
]

module _ (leb_version : Version → Version → Bool) (version_text : Version → Bytes)
    (text_key : (v w : Version) → version_text v ≡ version_text w → same_key v w ≡ true) where
  abbrev Entry : AdmissionRequest → Type 0
  Entry r = (v : Version) × IsEntry r v

  check_version-ok :
      (identities : List AdmissionRequest) (r : AdmissionRequest) (v : Version)
      → is_empty v.build ≡ true
      → any (same_request r) identities ≡ false
      → check_target leb_version version_text identities r (some v) none ≡ ok tt
  unfolding check_target
  check_version-ok identities r v released free = rw (released, free) refl

  check_target-ok :
      (identities : List AdmissionRequest) (r : AdmissionRequest) (v : Version)
      → IsEntry r v
      → any (same_request r) identities ≡ false
      → check_target leb_version version_text identities r r.version r.tag ≡ ok tt
  check_target-ok identities r v p free =
      ap (λ x. check_target leb_version version_text identities r x r.tag) p.versioned
      ∙ ap (λ t. check_target leb_version version_text identities r (some v) t) p.untagged
      ∙ check_version-ok identities r v p.released free

  -- Requests that are entries, sorted and apart pass the loop, behind requests that are apart from them.
  pub validate_requests-ok :
      (previous : Option AdmissionRequest) (identities requests : List AdmissionRequest)
      → ((r : AdmissionRequest) → Elem r requests → Entry r)
      → ((r : AdmissionRequest)
          → Elem r requests
          → follows leb_version version_text previous r ≡ true)
      → ((r y : AdmissionRequest) → Elem r requests → Elem y identities → Apart r y)
      → IsSorted
          (leb_request leb_version version_text)
          (leb_request-IsPreorder leb_version version_text)
          requests
      → Pairs Apart requests
      → validate_requests leb_version version_text previous identities requests ≡ ok tt
  unfolding validate_requests
  validate_requests-ok previous identities [] entry after apart sorted pairs = refl
  validate_requests-ok previous identities (x ∷ xs) entry after apart (sorted_cons below rest)
        pairs =
      let (v, p) = entry x head in
      let free = free_of x identities (λ y e. apart x y head e) in
      let next : (r : AdmissionRequest)
          → Elem r xs
          → follows leb_version version_text (some x) r ≡ true =
        λ r e. elim (Bool-cases (leb_request leb_version version_text r x)) [
          | inl found ↦
              let (w, q) = entry r (tail e) in
              absurd (
                ground (
                  arith,
                  both_ways leb_version version_text text_key r x w v q p found (below r e),
                  pairs.0 r e,
                ))
          | inr free ↦ rw free refl
        ] in
      let later =
        validate_requests-ok (some x) (x ∷ identities) xs (λ r e. entry r (tail e)) next
          (λ r y e k.
            each-Elem (λ y. Apart r y) x identities (pairs.0 r e) (λ y k. apart r y (tail e) k) y k)
          rest pairs.1 in
      let ordered : increasing (before_evidence leb_version) x.evidence ≡ true =
        ap (increasing (before_evidence leb_version)) p.bare in
      let checked : each validate_evidence x.evidence ≡ ok tt =
        ap (each validate_evidence) p.bare in
      (and_then _ _).1 (
        (ensure_passes _ _).1 (after x head),
        (and_then _ _).1 (
          ap (map_err bad_package) p.named,
          (and_then _ _).1 (
            check_target-ok identities x v p free,
            (and_then _ _).1 ((ensure_passes _ _).1 ordered, (and_then _ _).1 (checked, later)),
          ),
        ),
      )
