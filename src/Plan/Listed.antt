-- ===== src/Plan/Listed.antt =====
-- The reasons of a candidate as tests of its evidence: `validate_reason_consistency` and
-- `validate_decision` of rust/src/update/plan.rs.
use pkgre.Prelude.{
  ◌≡◌, inl, inr, refl, sym, ap, ◌∙◌, arith, ℕ, zero, suc, [], ◌∷◌, List, Bool, true, false, not,
  ◌&&◌, any, ◌==◌, ==_iff, ok, >>=-eq-ok, Bool-cases,
}
use pkgre.Release.{new_name, inactive_name}
use pkgre.Transition.Evidence.{and_then, ensure_passes}
use pkgre.Plan.Order.{
  same_flag, is_some, same_activity, reason_rank, contains_reason, decision_rank,
}
use pkgre.Plan.Reasons.{
  no_element, build_surface_changes, discontinuities, is_promoting, is_unavailable, is_mismatch,
  agree, validate_reason_consistency, is_blocking, is_reviewed, expected_decision,
  validate_decision,
}
use pkgre.Plan.{
  UpdateDecision, DecisionReason, UpdateCandidate, automatic, new_package, inactive_revival,
  dormant_wakeup, new_dependency, build_surface_change, publisher_discontinuity,
  repository_discontinuity, unknown_dependency_home, forbidden_category_dependency,
  source_unavailable, source_mismatch, explicit_candidate,
}

pub same_flag→eq : (a b : Bool) → same_flag a b ≡ true → a ≡ b
same_flag→eq true b h = sym h
same_flag→eq false b h = ground arith

abbrev at : ℕ → List DecisionReason → DecisionReason
at n [] = explicit_candidate
at zero (r ∷ reasons) = r
at (suc n) (r ∷ reasons) = at n reasons

abbrev reason_of : ℕ → DecisionReason
reason_of rank = at rank (
    new_package ∷ inactive_revival ∷ dormant_wakeup ∷ new_dependency ∷ build_surface_change
    ∷ publisher_discontinuity ∷ repository_discontinuity ∷ unknown_dependency_home
    ∷ forbidden_category_dependency ∷ source_unavailable ∷ source_mismatch ∷ [])

reason_of-reason_rank : (r : DecisionReason) → reason_of (reason_rank r) ≡ r
reason_of-reason_rank new_package = refl
reason_of-reason_rank inactive_revival = refl
reason_of-reason_rank dormant_wakeup = refl
reason_of-reason_rank new_dependency = refl
reason_of-reason_rank build_surface_change = refl
reason_of-reason_rank publisher_discontinuity = refl
reason_of-reason_rank repository_discontinuity = refl
reason_of-reason_rank unknown_dependency_home = refl
reason_of-reason_rank forbidden_category_dependency = refl
reason_of-reason_rank source_unavailable = refl
reason_of-reason_rank source_mismatch = refl
reason_of-reason_rank explicit_candidate = refl

reason_rank→eq : (a b : DecisionReason) → (reason_rank a == reason_rank b) ≡ true → a ≡ b
reason_rank→eq a b h =
    sym (reason_of-reason_rank a)
    ∙ ap reason_of ((==_iff (reason_rank a) (reason_rank b)).0 h)
    ∙ reason_of-reason_rank b

pub unlisted :
    (p : DecisionReason → Bool) (r : DecisionReason) (reasons : List DecisionReason)
    → any p reasons ≡ false
    → p r ≡ true
    → contains_reason r reasons ≡ false
unlisted p r [] none_holds holds = refl
unlisted p r (x ∷ reasons) none_holds holds = elim (Bool-cases (reason_rank r == reason_rank x)) [
  | inl same ↦
      let here : p x ≡ true = ap p (sym (reason_rank→eq r x same)) ∙ holds in absurd (ground arith)
  | inr other ↦ let rest = unlisted p r reasons (ground arith) holds in rw (other, rest) refl
]

module _ (c : UpdateCandidate) where
  pub record Listed : Type 0 where
    pub publisher_changed : Bool
    pub repository_changed : Bool
    pub known : discontinuities c.base c.api ≡ ok (publisher_changed, repository_changed)
    pub lists_new : contains_reason new_package c.reasons ≡ same_activity c.activity new_name
    pub lists_inactive :
        contains_reason inactive_revival c.reasons ≡ same_activity c.activity inactive_name
    pub lists_gap : contains_reason dormant_wakeup c.reasons ≡ is_some c.dormant_gap
    pub lists_dependency :
        contains_reason new_dependency c.reasons ≡ not (no_element c.dependencies.new_packages)
    pub lists_surface :
        contains_reason build_surface_change c.reasons
        ≡ build_surface_changes c.archive_delta c.candidate_archive
    pub lists_publisher : contains_reason publisher_discontinuity c.reasons ≡ publisher_changed
    pub lists_repository : contains_reason repository_discontinuity c.reasons ≡ repository_changed
    pub lists_unavailable :
        contains_reason source_unavailable c.reasons
        ≡ (any is_promoting c.reasons && is_unavailable c.source)
    pub lists_mismatch : contains_reason source_mismatch c.reasons ≡ is_mismatch c.source

  agreed :
      (reason : DecisionReason) (expected : Bool)
      → agree c reason expected ≡ ok tt
      → contains_reason reason c.reasons ≡ expected
  agreed reason expected h =
      same_flag→eq (contains_reason reason c.reasons) expected ((ensure_passes _ _).0 h)

  pub consistent-Listed : validate_reason_consistency c ≡ ok tt → Listed
  unfolding validate_reason_consistency
  consistent-Listed h =
      let s0 = (and_then _ _).0 h in
      let s1 = (and_then _ _).0 s0.1 in
      let s2 = (and_then _ _).0 s1.1 in
      let s3 = (and_then _ _).0 s2.1 in
      let s4 = (and_then _ _).0 s3.1 in
      let (changed, known, s5) = >>=-eq-ok (discontinuities c.base c.api) _ s4.1 in
      let s6 = (and_then _ _).0 s5 in
      let s7 = (and_then _ _).0 s6.1 in
      let s8 = (and_then _ _).0 s7.1 in
      record {
        publisher_changed = changed.0;
        repository_changed = changed.1;
        known = known;
        lists_new = agreed new_package _ s0.0;
        lists_inactive = agreed inactive_revival _ s1.0;
        lists_gap = agreed dormant_wakeup _ s2.0;
        lists_dependency = agreed new_dependency _ s3.0;
        lists_surface = agreed build_surface_change _ s4.0;
        lists_publisher = agreed publisher_discontinuity _ s6.0;
        lists_repository = agreed repository_discontinuity _ s7.0;
        lists_unavailable = agreed source_unavailable _ s8.0;
        lists_mismatch = agreed source_mismatch _ s8.1;
      }

  pub automatic-any :
      validate_decision c ≡ ok tt
      → c.decision ≡ automatic
      → (any is_blocking c.reasons ≡ false) × (any is_reviewed c.reasons ≡ false)
  unfolding validate_decision expected_decision
  automatic-any h decided =
      let same : (0 == decision_rank (expected_decision c.reasons)) ≡ true =
        ap (λ (d : UpdateDecision). decision_rank d == decision_rank (expected_decision c.reasons))
          (sym decided)
        ∙ (ensure_passes _ _).0 h in
      elim (Bool-cases (any is_blocking c.reasons)) [
        | inl found ↦ absurd (ground arith)
        | inr free ↦ elim (Bool-cases (any is_reviewed c.reasons)) [
          | inl found ↦ absurd (ground arith)
          | inr other ↦ (free, other)
        ]
      ]
