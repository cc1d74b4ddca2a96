-- ===== src/Manifest/Valid.antt =====
-- The template that a validated plan gives is a valid manifest: `manifest_from_candidates` of
-- rust/src/update/manifest.rs.
use mathlib.Core.Path.{subst}
use pkgre.Prelude.{
  ◌≡◌, inl, inr, refl, sym, ap, ◌∙◌, arith, [], ◌∷◌, List, Bytes, Elem, head, tail, Bool, true,
  false, Option, none, some, Bool-cases, ok, ◌>>=◌, map_err, ◌==◌,
}
use pkgre.Category.{CategoryId, is_empty, from_str}
use pkgre.Category.Text.{from_str_iff}
use pkgre.Release.{Version, same_key, sort_by}
use pkgre.Release.Lists.{each-Elem, sort_by-Elem, sort_by-IsSorted}
use pkgre.Policy.{validate_package_name}
use pkgre.Policy.Distinct.{Pairs}
use pkgre.Download.Order.{sort_by-Pairs}
use pkgre.Plan.{UpdateCandidate, UpdatePlan, blocked}
use pkgre.Plan.Order.{decision_rank}
use pkgre.Plan.Check.{same_identity, validate_candidate, validate_update_plan_with}
use pkgre.Plan.Steps.{validate_candidate-Passed, route-parts}
use pkgre.Plan.Canonical.{validate_update_plan_with-IsCanonical}
use pkgre.Manifest.{
  AdmissionRequest, AdmissionManifest, ManifestError, same_request, leb_request,
  admission_manifest_schema, validate_admission_manifest, request_of, requests_of,
  manifest_from_candidates,
}
use pkgre.Manifest.Template.{IsEntry, Apart, Apart-sym, leb_request-IsPreorder}
use pkgre.Manifest.Template.Entries.{validate_requests-ok}

module _ (leb_version : Version → Version → Bool) (version_text : Version → Bytes) where
  -- The request that a candidate gives.
  abbrev of_candidate : CategoryId → UpdateCandidate → AdmissionRequest
  of_candidate category c = record {
    category = category;
    name = c.name;
    version = some c.candidate.version;
    tag = none;
    evidence = [];
  }

  record Given (plan : UpdatePlan) (c : UpdateCandidate) (r : AdmissionRequest) : Type 0 where
    pub category : CategoryId
    pub parsed : from_str c.category ≡ ok category
    pub home : category.registry ≡ c.registry
    pub named : validate_package_name c.name ≡ ok tt
    pub same : r ≡ of_candidate category c

  Given-IsEntry :
      (plan : UpdatePlan) (c : UpdateCandidate) (r : AdmissionRequest)
      → is_empty c.candidate.version.build ≡ true
      → Given plan c r
      → IsEntry r c.candidate.version
  Given-IsEntry plan c r released g =
      let (registry, local, text) = (from_str_iff c.category g.category).0 g.parsed in
      subst (λ r. IsEntry r c.candidate.version) (sym g.same)
        (record {
          named = g.named;
          placed = ap from_str (sym text) ∙ g.parsed;
          versioned = refl;
          released = released;
          untagged = refl;
          bare = refl;
        })

  Given-Apart :
      (plan : UpdatePlan) (c d : UpdateCandidate) (r s : AdmissionRequest)
      → Given plan c r
      → Given plan d s
      → same_identity c d ≡ false
      → Apart r s
  unfolding same_identity same_request same_key
  Given-Apart plan c d r s g k h =
      let both : same_request (of_candidate g.category c) (of_candidate k.category d) ≡ false =
        rw (g.home, k.home) (ground arith) in
      (λ i. same_request (g.same i) (k.same i)) ∙ both

  -- The requests of a list of candidates: the ones that are not blocked, in their order.
  data Gives (plan : UpdatePlan) : List UpdateCandidate → List AdmissionRequest → Type 0 where
    gives_nil : Gives plan [] []
    gives_blocked :
        {c : UpdateCandidate} {cs : List UpdateCandidate} {rs : List AdmissionRequest}
        → Gives plan cs rs
        → Gives plan (c ∷ cs) rs
    gives_request :
        {c : UpdateCandidate} {cs : List UpdateCandidate} {r : AdmissionRequest}
        {rs : List AdmissionRequest}
        → Given plan c r
        → Gives plan cs rs
        → Gives plan (c ∷ cs) (r ∷ rs)

  Gives-Elem :
      (plan : UpdatePlan) (cs : List UpdateCandidate) (rs : List AdmissionRequest)
      → Gives plan cs rs
      → (r : AdmissionRequest) → Elem r rs
      → (c : UpdateCandidate) × Elem c cs × Given plan c r
  Gives-Elem plan [] [] gives_nil r e = elim e [ ]
  Gives-Elem plan [] (s ∷ rs) g r e = elim g [ ]
  Gives-Elem plan (c ∷ cs) rs (gives_blocked g) r e =
      let (d, inside, given) = Gives-Elem plan cs rs g r e in (d, tail inside, given)
  Gives-Elem plan (c ∷ cs) (s ∷ rs) (gives_request here g) r e =
      each-Elem (λ r. (d : UpdateCandidate) × Elem d (c ∷ cs) × Given plan d r) s rs (c, head, here)
        (λ r e. let (d, inside, given) = Gives-Elem plan cs rs g r e in (d, tail inside, given)) r e

  Gives-Pairs :
      (plan : UpdatePlan) (cs : List UpdateCandidate) (rs : List AdmissionRequest)
      → Gives plan cs rs
      → Pairs (λ later earlier. same_identity later earlier ≡ false) cs
      → Pairs Apart rs
  Gives-Pairs plan [] [] gives_nil p = tt
  Gives-Pairs plan [] (s ∷ rs) g p = elim g [ ]
  Gives-Pairs plan (c ∷ cs) rs (gives_blocked g) p = Gives-Pairs plan cs rs g p.1
  Gives-Pairs plan (c ∷ cs) (s ∷ rs) (gives_request here g) p = (
    λ r e.
        let (d, inside, given) = Gives-Elem plan cs rs g r e in
        Given-Apart plan d c r s given here (p.0 d inside),
    Gives-Pairs plan cs rs g p.1,
  )

  request_of-Given :
      (plan : UpdatePlan) (c : UpdateCandidate)
      → validate_candidate leb_version plan c ≡ ok tt
      → (r : AdmissionRequest) × (request_of leb_version version_text c ≡ ok r) × Given plan c r
  unfolding request_of
  request_of-Given plan c valid =
      let (named, (category, parsed, home)) =
        route-parts c (validate_candidate-Passed leb_version plan c valid).route in
      (
        of_candidate category c,
        ap (λ x. map_err (λ e. ManifestError.panicked) x >>= λ k. ok (of_candidate k c)) parsed,
        record { category = category; parsed = parsed; home = home; named = named; same = refl },
      )

  requests_of-Gives :
      (plan : UpdatePlan) (cs : List UpdateCandidate)
      → ((c : UpdateCandidate) → Elem c cs → validate_candidate leb_version plan c ≡ ok tt)
      → (rs : List AdmissionRequest) × (requests_of leb_version version_text cs ≡ ok rs)
        × Gives plan cs rs
  unfolding requests_of
  requests_of-Gives plan [] valid = ([], refl, gives_nil)
  requests_of-Gives plan (c ∷ cs) valid =
      let (rs, found, gives) = requests_of-Gives plan cs (λ d e. valid d (tail e)) in
      elim (Bool-cases (decision_rank c.decision == decision_rank blocked)) [
        | inl skipped ↦ (rs, rw skipped found, gives_blocked gives)
        | inr taken ↦
            let (r, made, given) = request_of-Given plan c (valid c head) in
            (r ∷ rs, rw (taken, made, found) refl, gives_request given gives)
      ]

  module _ (text_key : (v w : Version) → version_text v ≡ version_text w → same_key v w ≡ true)
      (parse_version : Bytes → Option Version) (pkg_version : Bytes) where
    -- From the candidates of a plan that validates and whose versions have no build metadata, a template
    -- is made, and it is a valid admission manifest, if versions with one text agree up to build
    -- metadata.
    pub manifest_from_candidates-valid :
        (plan : UpdatePlan) (require_current_indexer : Bool)
        → validate_update_plan_with leb_version parse_version version_text pkg_version plan
            require_current_indexer
          ≡ ok tt
        → ((c : UpdateCandidate)
            → Elem c plan.candidates
            → is_empty c.candidate.version.build ≡ true)
        → (manifest : AdmissionManifest) × (manifest_from_candidates leb_version version_text
              plan.candidates
            ≡ ok manifest)
          × (validate_admission_manifest leb_version version_text manifest ≡ ok tt)
    unfolding manifest_from_candidates validate_admission_manifest
    manifest_from_candidates-valid plan require_current_indexer h released =
        let canonical =
          validate_update_plan_with-IsCanonical leb_version plan parse_version version_text
            pkg_version require_current_indexer h in
        let (rs, found, gives) = requests_of-Gives plan plan.candidates canonical.checked in
        let le = leb_request leb_version version_text in
        let o = leb_request-IsPreorder leb_version version_text in
        let entry : (r : AdmissionRequest) → Elem r (sort_by le rs) → (v : Version) × IsEntry r v =
          λ r e.
            let (c, inside, given) =
              Gives-Elem plan plan.candidates rs gives r (sort_by-Elem le o rs r e) in
            (c.candidate.version, Given-IsEntry plan c r (released c inside) given) in
        let passes =
          validate_requests-ok leb_version version_text text_key none [] (sort_by le rs) entry
            (λ r e. refl) (λ r y e k. elim k [ ]) (sort_by-IsSorted le o rs)
            (sort_by-Pairs le o Apart Apart-sym rs
              (Gives-Pairs plan plan.candidates rs gives canonical.distinct)) in
        (
          record { schema = admission_manifest_schema; entries = sort_by le rs },
          rw found refl,
          passes,
        )
