-- ===== src/Plan/Routine.antt =====
-- What stands behind an automatic decision: `validate_candidate` of rust/src/update/plan.rs.
use pkgre.Prelude.{
  ◌≡◌, refl, sym, ap, ◌∙◌, arith, [], ◌∷◌, List, Bytes, beq, beq→eq, Bool, true, false, not, ◌==◌,
  ==_iff, Option, none, some, ok, ok_inj, ensure, >>=-eq-ok, ok_or,
}
use pkgre.Release.{Version, PackageActivity, new_name, inactive_name, active_name}
use pkgre.Release.Evidence.{ok_or-eq-ok}
use pkgre.Transition.Evidence.{and_then, ensure_passes}
use pkgre.Plan.Order.{same_flag, is_some, same_activity, same_surface, contains_reason}
use pkgre.Plan.Candidate.{
  validate_identity, validate_age, validate_base, if_some, validate_archive_summary,
  validate_archive_delta, validate_candidate_delta, validate_candidate_archives,
  validate_candidate_release, check_activity,
}
use pkgre.Plan.Reasons.{
  no_element, build_surface_changes, is_discontinuous, discontinuities, is_mismatch, is_blocking,
  is_reviewed,
}
use pkgre.Plan.Check.{validate_candidate}
use pkgre.Plan.Steps.{validate_candidate-Passed}
use pkgre.Plan.Listed.{same_flag→eq, unlisted, consistent-Listed, automatic-any}
use pkgre.Plan.{
  PlannedIdentity, ArchiveSummary, ArchiveDelta, ApiVersionEvidence, ApiEvidence, DecisionReason,
  UpdateCandidate, UpdatePlan, automatic, new_package, inactive_revival, dormant_wakeup,
  new_dependency, build_surface_change, publisher_discontinuity, repository_discontinuity,
  source_mismatch, archives_disagree, panicked,
}

-- Two facts that are known and equal.
abbrev pub SameFact {ℓ} : {A : Type ℓ} → Option A → Option A → Type ℓ
SameFact {A = A} x y = (a : A) × (x ≡ some a) × (y ≡ some a)

-- The facts of the API evidence: the publisher and the repository of the base and the candidate.
abbrev pub SameOwner : UpdateCandidate → Type 0
SameOwner c =
    (api : ApiEvidence) × (base : ApiVersionEvidence) × (c.api ≡ some api)
    × (api.base ≡ some base)
    × SameFact base.publisher_id api.candidate.publisher_id
    × SameFact base.repository api.candidate.repository

-- The build surface of the base archive is the one of the candidate's.
abbrev pub SameBuild : UpdateCandidate → Type 0
SameBuild c =
    (base : ArchiveSummary) × (c.base_archive ≡ some base)
    × (base.build_surface ≡ c.candidate_archive.build_surface)

-- An update that needs no review.
abbrev pub IsRoutine : UpdateCandidate → Type 0
IsRoutine c =
    (c.activity ≡ active_name)
    × (c.dormant_gap ≡ none)
    × (c.dependencies.new_packages ≡ [])
    × SameBuild c
    × SameOwner c
    × (is_mismatch c.source ≡ false)

is_active :
    (a : PackageActivity)
    → same_activity a new_name ≡ false
    → same_activity a inactive_name ≡ false
    → a ≡ active_name
is_active new_name h k = absurd (cc)
is_active inactive_name h k = absurd (cc)
is_active active_name h k = refl

is_absent {ℓ} : {A : Type ℓ} (x : Option A) → is_some x ≡ false → x ≡ none
is_absent none h = refl
is_absent (some a) h = absurd (cc)

is_nil {ℓ} : {A : Type ℓ} (xs : List A) → not (no_element xs) ≡ false → xs ≡ []
is_nil [] h = refl
is_nil (x ∷ xs) h = absurd (cc)

is_present {ℓ} : {A : Type ℓ} (x : Option A) → is_some x ≡ true → (a : A) × (x ≡ some a)
is_present none h = absurd (cc)
is_present (some a) h = (a, refl)

same_surface→eq : (xs ys : List (Bytes × Bytes)) → same_surface xs ys ≡ true → xs ≡ ys
same_surface→eq [] [] h = refl
same_surface→eq [] (y ∷ ys) h = absurd (cc)
same_surface→eq (x ∷ xs) [] h = absurd (cc)
same_surface→eq ((p, u) ∷ xs) ((q, v) ∷ ys) h =
    let path = beq→eq p q (ground arith) in
    let hash = beq→eq u v (ground arith) in
    let rest = same_surface→eq xs ys (ground arith) in λ i. (path i, hash i) ∷ rest i

continuous {ℓ} :
    {A : Type ℓ} (same : A → A → Bool) (same→eq : (a b : A) → same a b ≡ true → a ≡ b)
    (x y : Option A)
    → is_discontinuous same x y ≡ false
    → SameFact x y
continuous same same→eq none y h = absurd (cc)
continuous same same→eq (some a) none h = absurd (cc)
continuous same same→eq (some a) (some b) h = (a, refl, ap some (sym (same→eq a b (ground arith))))

active-base :
    (base : Option PlannedIdentity) → check_activity active_name base ≡ ok tt → is_some base ≡ true
active-base none h = absurd (cc)
active-base (some b) h = refl

same_owner :
    (c : UpdateCandidate) (base : Option PlannedIdentity) (api : Option ApiEvidence)
    → is_some base ≡ true
    → c.api ≡ api
    → discontinuities base api ≡ ok (false, false)
    → SameOwner c
unfolding discontinuities
same_owner c none api based same known = absurd (cc)
same_owner c (some b) none based same known = absurd (cc)
same_owner c (some b) (some api) based same known =
    let (base, found, both) = >>=-eq-ok (ok_or api.base panicked) _ known in
    let pair = ok_inj both in
    (
      api,
      base,
      same,
      ok_or-eq-ok api.base panicked base found,
      continuous ◌==◌ (λ a b h. (==_iff a b).0 h) base.publisher_id api.candidate.publisher_id
          (ap (λ (p : Bool × Bool). p.0) pair),
      continuous beq beq→eq base.repository api.candidate.repository
          (ap (λ (p : Bool × Bool). p.1) pair),
    )

delta_surface :
    (c : UpdateCandidate) (delta : ArchiveDelta)
    → validate_candidate_delta c delta ≡ ok tt
    → (base : ArchiveSummary) × (c.base_archive ≡ some base)
      × (delta.build_surface_changed
          ≡ not (same_surface base.build_surface c.candidate_archive.build_surface))
unfolding validate_candidate_delta
delta_surface c delta h =
    let s0 = (and_then (validate_archive_delta delta) _).0 h in
    let (base, found, agrees) = >>=-eq-ok (ok_or c.base_archive panicked) _ s0.1 in
    (
      base,
      ok_or-eq-ok c.base_archive panicked base found,
      same_flag→eq delta.build_surface_changed
          (not (same_surface base.build_surface c.candidate_archive.build_surface))
          ((ensure_passes _ _).0 agrees),
    )

-- The two archives of a candidate with a base, from the checks of the archives.
same_build :
    (c : UpdateCandidate)
    → is_some c.base ≡ true
    → validate_candidate_archives c ≡ ok tt
    → build_surface_changes c.archive_delta c.candidate_archive ≡ false
    → SameBuild c
unfolding validate_candidate_archives
same_build c based h unchanged =
    let s0 = (and_then (validate_archive_summary c.candidate_archive) _).0 h in
    let s1 =
      (and_then (ensure (same_flag (is_some c.base) (is_some c.base_archive)) archives_disagree)
          _).0
        s0.1 in
    let s2 = (and_then (if_some validate_archive_summary c.base_archive) _).0 s1.1 in
    let s3 =
      (and_then (ensure (same_flag (is_some c.base) (is_some c.archive_delta)) archives_disagree)
          _).0
        s2.1 in
    let both = same_flag→eq _ _ ((ensure_passes _ _).0 s3.0) in
    let (delta, present) = is_present c.archive_delta (sym both ∙ based) in
    let checked : validate_candidate_delta c delta ≡ ok tt =
      ap (if_some (validate_candidate_delta c)) (sym present) ∙ s3.1 in
    let (base, found, flag) = delta_surface c delta checked in
    let kept : delta.build_surface_changed ≡ false =
      ap (λ d. build_surface_changes d c.candidate_archive) (sym present) ∙ unchanged in
    (
      base,
      found,
      same_surface→eq base.build_surface c.candidate_archive.build_surface (ground arith),
    )

module _ (leb_version : Version → Version → Bool) (plan : UpdatePlan) where
  based :
      (c : UpdateCandidate)
      → c.activity ≡ active_name
      → validate_candidate_release leb_version plan c ≡ ok tt
      → is_some c.base ≡ true
  unfolding validate_candidate_release
  based c active h =
      let s0 = (and_then (validate_identity c.candidate) _).0 h in
      let s1 = (and_then (validate_age plan c) _).0 s0.1 in
      let s2 = (and_then (if_some (validate_base c.candidate) c.base) _).0 s1.1 in
      let s3 = (and_then (check_activity c.activity c.base) _).0 s2.1 in
      active-base c.base (ap (λ a. check_activity a c.base) (sym active) ∙ s3.0)

  pub automatic-IsRoutine :
      (c : UpdateCandidate)
      → validate_candidate leb_version plan c ≡ ok tt
      → c.decision ≡ automatic
      → IsRoutine c
  automatic-IsRoutine c h decided =
      let passed = validate_candidate-Passed leb_version plan c h in
      let listed = consistent-Listed c passed.consistent in
      let (unblocked, unreviewed) = automatic-any c passed.decided decided in
      let free : (r : DecisionReason) → is_reviewed r ≡ true → contains_reason r c.reasons ≡ false =
        λ r holds. unlisted is_reviewed r c.reasons unreviewed holds in
      let active =
        is_active c.activity (sym listed.lists_new ∙ free new_package refl)
          (sym listed.lists_inactive ∙ free inactive_revival refl) in
      let has_base = based c active passed.release in
      let publisher = sym listed.lists_publisher ∙ free publisher_discontinuity refl in
      let repository = sym listed.lists_repository ∙ free repository_discontinuity refl in
      (
        active,
        is_absent c.dormant_gap (sym listed.lists_gap ∙ free dormant_wakeup refl),
        is_nil c.dependencies.new_packages (sym listed.lists_dependency ∙ free new_dependency refl),
        same_build c has_base passed.archives
            (sym listed.lists_surface ∙ free build_surface_change refl),
        same_owner c c.base c.api has_base refl
            (listed.known ∙ ap ok (λ i. (publisher i, repository i))),
        sym listed.lists_mismatch ∙ unlisted is_blocking source_mismatch c.reasons unblocked refl,
      )
