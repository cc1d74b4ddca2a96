-- ===== src/Plan/Expects.antt =====
-- The three `expect` calls of the checks of a candidate, and the whole validation of a plan:
-- rust/src/update/plan.rs.
use pkgre.Prelude.{
  ◌≡◌, refl, sym, ap, ◌∙◌, ◌>>◌, [], ◌∷◌, List, Bytes, Bool, true, false, Option, none, some,
  Result, ok, ok_or, ensure,
}
use pkgre.Release.{Version, PackageActivity, new_name, inactive_name, active_name}
use pkgre.Transition.Evidence.{and_then, ensure_passes}
use pkgre.Plan.Order.{same_flag, is_some, same_activity, increasing, before_reason}
use pkgre.Plan.Candidate.{
  validate_candidate_route, if_some, check_activity, validate_lane, validate_candidate_lane,
  validate_candidate_release, validate_candidate_delta, validate_candidate_archives,
  validate_archive_summary,
}
use pkgre.Plan.Evidence.{
  validate_api_evidence, validate_publication_gap, validate_source_evidence,
  validate_dependency_delta,
}
use pkgre.Plan.Reasons.{discontinuities, validate_reason_consistency, validate_decision}
use pkgre.Plan.Check.{
  validate_candidate, validate_candidates, check_constants, validate_update_plan_with,
}
use pkgre.Plan.Calm.{panics, panics-then, panics-ensure, panics-if_some, panics->>=, calm}
use pkgre.Plan.Listed.{same_flag→eq}
use pkgre.Plan.Total.{
  panics-validate_hash, panics-validate_archive_summary, panics-validate_archive_delta,
  panics-validate_candidate_route, panics-validate_base, panics-validate_age,
  panics-validate_dependency_delta, panics-validate_publication_gap, panics-validate_api_evidence,
  panics-validate_source_evidence, panics-validate_decision, panics-check_activity,
  panics-validate_identity,
}
use pkgre.Plan.{
  validate_hash, PlannedIdentity, ArchiveDelta, ApiEvidence, UpdateCandidate, UpdatePlan, PlanError,
  lane_of_inactive, archives_disagree, api_disagrees, reasons_not_ordered, panicked,
}

-- The checks in front of a step hold where the step runs.
panics-after {ℓ} :
    {B : Type ℓ} (r : Result PlanError (Unit {0})) (s : Result PlanError B)
    → panics r ≡ false
    → (r ≡ ok tt → panics s ≡ false)
    → panics (r >> s) ≡ false
panics-after r s h k = panics->>= r (λ _. s) h (λ u passed. k passed)

panics-present {ℓ} :
    {A : Type ℓ} (x : Option A) → is_some x ≡ true → panics (ok_or x panicked) ≡ false
panics-present none h = absurd (cc)
panics-present (some a) h = refl

active→base :
    (activity : PackageActivity) (base : Option PlannedIdentity)
    → check_activity activity base ≡ ok tt
    → same_activity activity active_name ≡ true
    → is_some base ≡ true
active→base active_name base h k = (ensure_passes _ _).0 h
active→base inactive_name base h k = (ensure_passes _ _).0 h
active→base new_name base h k = absurd (cc)

module _ (leb_version : Version → Version → Bool) (c : UpdateCandidate)
    (based : check_activity c.activity c.base ≡ ok tt) where
  panics-validate_lane : (lane : _) → panics (validate_lane leb_version c lane) ≡ false
  unfolding validate_lane
  panics-validate_lane lane =
      panics-after (ensure (same_activity c.activity active_name) lane_of_inactive) _
        (panics-ensure _ _ refl)
        (λ active.
          let present =
            panics-present c.base
              (active→base c.activity c.base based ((ensure_passes _ _).0 active)) in
          search (calm, present) depth 12)

  panics-validate_candidate_lane : panics (validate_candidate_lane leb_version c) ≡ false
  unfolding validate_candidate_lane
  panics-validate_candidate_lane = search (calm, panics-validate_lane) depth 12

pub panics-validate_candidate_release :
    (leb_version : Version → Version → Bool) (plan : UpdatePlan) (c : UpdateCandidate)
    → panics (validate_candidate_release leb_version plan c) ≡ false
unfolding validate_candidate_release
panics-validate_candidate_release leb_version plan c =
    let last : panics (check_activity c.activity c.base >> validate_candidate_lane leb_version c)
        ≡ false =
      panics-after (check_activity c.activity c.base) _ (panics-check_activity c.activity c.base)
        (panics-validate_candidate_lane leb_version c) in
    search (calm, panics-validate_identity, panics-validate_age, panics-validate_base, last) depth
      12

panics-validate_candidate_delta :
    (c : UpdateCandidate) (delta : ArchiveDelta)
    → is_some c.base_archive ≡ true
    → panics (validate_candidate_delta c delta) ≡ false
unfolding validate_candidate_delta
panics-validate_candidate_delta c delta h =
    search (calm, panics-validate_archive_delta, panics-present c.base_archive h) depth 12

pub panics-validate_candidate_archives :
    (c : UpdateCandidate) → panics (validate_candidate_archives c) ≡ false
unfolding validate_candidate_archives
panics-validate_candidate_archives c =
    let flag_of : (a b : Bool) → ensure (same_flag a b) archives_disagree ≡ ok tt → a ≡ b =
      λ a b h. same_flag→eq a b ((ensure_passes (same_flag a b) archives_disagree).0 h) in
    let last : (has_archive : is_some c.base ≡ is_some c.base_archive)
        → (has_delta : is_some c.base ≡ is_some c.archive_delta)
        → panics (if_some (validate_candidate_delta c) c.archive_delta) ≡ false =
      λ has_archive has_delta.
        panics-if_some (validate_candidate_delta c) c.archive_delta (λ delta found.
          panics-validate_candidate_delta c delta
            (sym has_archive ∙ has_delta ∙ ap is_some found)) in
    panics-then (validate_archive_summary c.candidate_archive) _
      (panics-validate_archive_summary c.candidate_archive)
      (panics-after (ensure (same_flag (is_some c.base) (is_some c.base_archive)) archives_disagree)
        _ (panics-ensure _ _ refl)
        (λ archives.
          panics-then (if_some validate_archive_summary c.base_archive) _
            (panics-if_some validate_archive_summary c.base_archive
              (λ a h. panics-validate_archive_summary a))
            (panics-after
              (ensure (same_flag (is_some c.base) (is_some c.archive_delta)) archives_disagree) _
              (panics-ensure _ _ refl)
              (λ deltas. last (flag_of _ _ archives) (flag_of _ _ deltas)))))

pub panics-discontinuities :
    (base : Option PlannedIdentity) (api : Option ApiEvidence)
    → if_some (validate_api_evidence (is_some base)) api ≡ ok tt
    → panics (discontinuities base api) ≡ false
unfolding discontinuities validate_api_evidence
panics-discontinuities none api h = refl
panics-discontinuities (some b) none h = refl
panics-discontinuities (some b) (some api) h =
    let s0 = (and_then (validate_hash api.response_sha256) _).0 h in
    let s1 = (and_then (ensure (same_flag (is_some api.base) true) api_disagrees) _).0 s0.1 in
    let present =
      panics-present api.base (same_flag→eq (is_some api.base) true ((ensure_passes _ _).0 s1.0)) in
    search (calm, present)

panics-validate_reason_consistency :
    (c : UpdateCandidate)
    → if_some (validate_api_evidence (is_some c.base)) c.api ≡ ok tt
    → panics (validate_reason_consistency c) ≡ false
unfolding validate_reason_consistency
panics-validate_reason_consistency c h =
    search (panics->>=, panics-ensure, refl, panics-discontinuities c.base c.api h) depth 16

module _ (leb_version : Version → Version → Bool) (plan : UpdatePlan) where
  pub panics-validate_candidate :
      (c : UpdateCandidate) → panics (validate_candidate leb_version plan c) ≡ false
  unfolding validate_candidate
  panics-validate_candidate c =
      let tail : panics (do
        if_some (validate_api_evidence (is_some c.base)) c.api
        validate_source_evidence c c.source
        ensure (increasing before_reason c.reasons) reasons_not_ordered
        validate_reason_consistency c
        validate_decision c)
          ≡ false =
        panics-after (if_some (validate_api_evidence (is_some c.base)) c.api) _
          (panics-if_some (validate_api_evidence (is_some c.base)) c.api
            (λ api h. panics-validate_api_evidence (is_some c.base) api))
          (λ api. search (
            calm,
            panics-validate_source_evidence,
            panics-validate_decision,
            panics-validate_reason_consistency c api,
          )) in
      panics-then (validate_candidate_route c) _ (panics-validate_candidate_route c) (
        panics-then (validate_candidate_release leb_version plan c) _
          (panics-validate_candidate_release leb_version plan c)
          (panics-then (validate_hash c.sparse_index_sha256) _
            (panics-validate_hash c.sparse_index_sha256)
            (panics-then (validate_hash c.decision_history_sha256) _
              (panics-validate_hash c.decision_history_sha256)
              (panics-then (validate_candidate_archives c) _ (panics-validate_candidate_archives c)
                (panics-then (validate_dependency_delta c.dependencies) _
                  (panics-validate_dependency_delta c.dependencies)
                  (panics-then
                    (if_some (validate_publication_gap c plan.dormant_release_gap_days)
                      c.dormant_gap)
                    _
                    (panics-if_some (validate_publication_gap c plan.dormant_release_gap_days)
                      c.dormant_gap
                      (λ g h. panics-validate_publication_gap c plan.dormant_release_gap_days g))
                    tail))))))

  panics-validate_candidates :
      (previous : Option UpdateCandidate) (identities candidates : List UpdateCandidate)
      → panics (validate_candidates leb_version plan previous identities candidates) ≡ false
  unfolding validate_candidates
  panics-validate_candidates previous identities [] = refl
  panics-validate_candidates previous identities (c ∷ candidates) =
      let rest = panics-validate_candidates (some c) (c ∷ identities) candidates in
      search (calm, panics-validate_candidate, rest)

  module _ (parse_version : Bytes → Option Version) (to_string : Version → Bytes)
      (pkg_version : Bytes) where
    panics-check_constants :
        (require_current_indexer : Bool)
        → panics (
            check_constants leb_version parse_version to_string pkg_version plan
              require_current_indexer)
          ≡ false
    panics-check_constants true = search (calm)
    panics-check_constants false = search (calm)

    -- The validation of an update plan, current or historical, returns a verdict: for no plan does one
    -- of its `expect` calls fail.
    pub panics-validate_update_plan_with :
        (require_current_indexer : Bool)
        → panics (
            validate_update_plan_with leb_version parse_version to_string pkg_version plan
              require_current_indexer)
          ≡ false
    unfolding validate_update_plan_with
    panics-validate_update_plan_with require_current_indexer =
        search
          (
            calm,
            panics-check_constants require_current_indexer,
            panics-validate_hash,
            panics-validate_candidates none [] plan.candidates,
          )
          depth 12
