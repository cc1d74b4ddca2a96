-- ===== src/Plan/Steps.antt =====
-- What a validated candidate has passed, check by check: `validate_candidate` of
-- rust/src/update/plan.rs.
use pkgre.Prelude.{◌≡◌, Bool, true, Result, ok, err, >>=-eq-ok, ap, map_err, ok_inj, beq→eq}
use pkgre.Category.{CategoryId, from_str}
use pkgre.Policy.{validate_package_name}
use pkgre.Release.{Version}
use pkgre.Transition.Evidence.{and_then, ensure_passes}
use pkgre.Plan.{bad_package, bad_category, UpdatePlan, UpdateCandidate}
use pkgre.Plan.Order.{increasing, is_some, before_reason}
use pkgre.Plan.Candidate.{
  if_some, validate_candidate_route, validate_candidate_release, validate_candidate_archives,
}
use pkgre.Plan.Evidence.{
  validate_dependency_delta, validate_publication_gap, validate_api_evidence,
  validate_source_evidence,
}
use pkgre.Plan.Reasons.{validate_reason_consistency, validate_decision}
use pkgre.Plan.Check.{validate_candidate}

module _ (leb_version : Version → Version → Bool) (plan : UpdatePlan) (c : UpdateCandidate) where
  pub record Passed : Type 0 where
    pub route : validate_candidate_route c ≡ ok tt
    pub release : validate_candidate_release leb_version plan c ≡ ok tt
    pub archives : validate_candidate_archives c ≡ ok tt
    pub dependencies : validate_dependency_delta c.dependencies ≡ ok tt
    pub gap :
        if_some (validate_publication_gap c plan.dormant_release_gap_days) c.dormant_gap ≡ ok tt
    pub api : if_some (validate_api_evidence (is_some c.base)) c.api ≡ ok tt
    pub source : validate_source_evidence c c.source ≡ ok tt
    pub ordered : increasing before_reason c.reasons ≡ true
    pub consistent : validate_reason_consistency c ≡ ok tt
    pub decided : validate_decision c ≡ ok tt

  pub validate_candidate-Passed : validate_candidate leb_version plan c ≡ ok tt → Passed
  unfolding validate_candidate
  validate_candidate-Passed h =
      let s0 = (and_then _ _).0 h in
      let s1 = (and_then _ _).0 s0.1 in
      let s2 = (and_then _ _).0 s1.1 in
      let s3 = (and_then _ _).0 s2.1 in
      let s4 = (and_then _ _).0 s3.1 in
      let s5 = (and_then _ _).0 s4.1 in
      let s6 = (and_then _ _).0 s5.1 in
      let s7 = (and_then _ _).0 s6.1 in
      let s8 = (and_then _ _).0 s7.1 in
      let s9 = (and_then _ _).0 s8.1 in
      let s10 = (and_then _ _).0 s9.1 in
      record {
        route = s0.0;
        release = s1.0;
        archives = s4.0;
        dependencies = s5.0;
        gap = s6.0;
        api = s7.0;
        source = s8.0;
        ordered = (ensure_passes _ _).0 s9.0;
        consistent = s10.0;
        decided = s10.1;
      }

pub map_err-eq-ok {ℓ κ μ} :
    {E : Type ℓ} {F : Type κ} {A : Type μ} (f : E → F) (r : Result E A) (a : A)
    → (◌≡◌ {A = Result F A} (map_err f r) (ok a))
    → r ≡ ok a
map_err-eq-ok f (ok b) a h = ap ok (ok_inj h)
map_err-eq-ok f (err e) a h = absurd (cc)

-- A candidate's name is valid, and its category parses and belongs to its registry.
pub route-parts :
    (c : UpdateCandidate)
    → validate_candidate_route c ≡ ok tt
    → (validate_package_name c.name ≡ ok tt)
      × ((k : CategoryId) × (from_str c.category ≡ ok k) × (k.registry ≡ c.registry))
unfolding validate_candidate_route
route-parts c h =
    let s0 = (and_then (map_err bad_package (validate_package_name c.name)) _).0 h in
    let (k, parsed, same) = >>=-eq-ok (map_err bad_category (from_str c.category)) _ s0.1 in
    (
      map_err-eq-ok bad_package (validate_package_name c.name) tt s0.0,
      (
        k,
        map_err-eq-ok bad_category (from_str c.category) k parsed,
        beq→eq k.registry c.registry ((ensure_passes _ _).0 same),
      ),
    )
