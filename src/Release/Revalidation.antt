-- ===== src/Release/Revalidation.antt =====
-- A selected candidate is selected again when it is requested with its lane: rust/src/update/policy.rs.
use mathlib.Core.Path.{subst}
use pkgre.Prelude.{
  ◌≡◌, inl, inr, refl, sym, ap, ◌∙◌, arith, [], ◌∷◌, List, keep, Elem, head, tail, Bool, true,
  false, not, leb, Option, none, some, ok, ok_or, >>=-eq-ok, ok_inj, Option-cases,
}
use pkgre.Schema.{UtcTimestamp}
use pkgre.Release.{
  Version, PolicyRelease, LockedRelease, CompatibilityLane, implicit_lane, in_lane, same_key,
  no_locked_base,
}
use pkgre.Release.Order.{IsPreorder, IsOrder}
use pkgre.Release.Lists.{
  each-Elem, keep-Elem, Elem-keep, max_by-IsGreatest, max_by-some, sort_by-Elem,
}
use pkgre.Release.Gap.{elapsed, first_dormant_gap}
use pkgre.Release.Selection.{
  SelectedCandidate, age_floor, check_inputs, leb_release, leb_locked_version, is_lane,
  select_lanes, latest_lane_base, active_maxima, describe, lane_maximum, lanes_in_order,
  select_implicit_candidates, select_exact_implicit_candidate,
}
use pkgre.Release.Evidence.{ok_or-eq-ok, elapsed-eq-ok}
use pkgre.Release.Exact.{latest_base-IsBase, fresh_lem, prior-has_base, select_exact_candidate_lem}
use pkgre.Release.Maxima.{in_lane→eq, in_lane_some}
use pkgre.Release.Implicit.{
  Entry, IsTop, candidate_of, select, step, select-step, entry-IsTop, release, passes,
  is_eligible→IsEligible, leb_entry, leb_entry-IsPreorder,
}

module _ (leb_version : Version → Version → Bool) (order : IsOrder leb_version)
    (evaluation_time : UtcTimestamp) (history : List PolicyRelease)
    (locked : List LockedRelease) where
  abbrev o : IsPreorder leb_version
  o = order.preorder

  -- The round of the loop that selected a candidate.
  abbrev Round : List Entry → SelectedCandidate → Type 0
  Round m s =
      (e : Entry) × (c : PolicyRelease) × Elem e m
      × (candidate_of leb_version o evaluation_time history locked e ≡ some c)
      × (describe leb_version evaluation_time history locked e.0 e.1 c ≡ ok s)

  Round-tail : (e : Entry) (m : List Entry) (s : SelectedCandidate) → Round m s → Round (e ∷ m) s
  Round-tail e m s (x, c, inside, found, made) = (x, c, tail inside, found, made)

  select-empty : select leb_version o evaluation_time history locked [] ≡ ok []
  unfolding select_lanes
  select-empty = refl

  select-Round :
      (m : List Entry) (selected : List SelectedCandidate) (s : SelectedCandidate)
      → select leb_version o evaluation_time history locked m ≡ ok selected
      → Elem s selected
      → Round m s
  select-Round [] selected s h k =
      elim (subst (λ x. Elem s x) (sym (ok_inj (sym select-empty ∙ h))) k) [ ]
  select-Round (e ∷ m) selected s h k =
      elim (Option-cases (candidate_of leb_version o evaluation_time history locked e)) [
        | inl found ↦ Round-tail e m s (select-Round m selected s (sym (steps none found) ∙ h) k)
        | inr (c, found) ↦
            let (s', described, h1) =
              >>=-eq-ok (describe leb_version evaluation_time history locked e.0 e.1 c) _
                (sym (steps (some c) found) ∙ h) in
            let (rest, others, h2) =
              >>=-eq-ok (select leb_version o evaluation_time history locked m) _ h1 in
            each-Elem (Round (e ∷ m)) s' rest (e, c, head, found, described)
              (λ x d. Round-tail e m x (select-Round m rest x others d)) s
              (subst (λ x. Elem s x) (sym (ok_inj h2)) k)
      ]
    where
      steps :
          (x : Option PolicyRelease)
          → candidate_of leb_version o evaluation_time history locked e ≡ x
          → select leb_version o evaluation_time history locked (e ∷ m)
            ≡ step leb_version o evaluation_time history locked e m x
      steps x found =
          select-step leb_version o evaluation_time history locked e m
          ∙ ap (step leb_version o evaluation_time history locked e m) found

  versions : IsPreorder (leb_locked_version leb_version)
  versions = record {
    total = λ a b. o.total a.version b.version;
    trans = λ a b c. o.trans a.version b.version c.version;
  }

  lane_test :
      (l : CompatibilityLane) (r : LockedRelease)
      → implicit_lane r.version ≡ some l
      → is_lane leb_version l r ≡ true
  lane_test l r h = rw h (in_lane_some l)

  -- The greatest active release of a lane, by its version.
  lane_maximum_lem :
      (e : Entry)
      → IsTop leb_version o evaluation_time history locked e
      → (r : LockedRelease) × (lane_maximum leb_version evaluation_time history locked e.0 ≡ some r)
        × (r.version ≡ e.1.version)
  lane_maximum_lem e t =
      let is_active = λ (r : LockedRelease). r.active in
      let actives = keep is_active locked in
      let top =
        Elem-keep (is_lane leb_version e.0) actives e.1
          (Elem-keep is_active locked e.1 t.top.among t.top.active)
          (lane_test e.0 e.1 t.top.in_lane) in
      let (r, found) =
        max_by-some (leb_locked_version leb_version) versions
          (keep (is_lane leb_version e.0) actives) e.1 top in
      let (inside, greatest) =
        max_by-IsGreatest (leb_locked_version leb_version) versions
          (keep (is_lane leb_version e.0) actives) r found in
      let (kept, lane) = keep-Elem (is_lane leb_version e.0) actives r inside in
      let (among, active) = keep-Elem is_active locked r kept in
      (
        r,
        found,
        order.antisym r.version e.1.version
            (t.covers r (record {
              among = among;
              active = active;
              in_lane = in_lane→eq e.0 (implicit_lane r.version) lane;
            }))
            (greatest e.1 top),
      )

  described_parts :
      (e : Entry) (c : PolicyRelease) (s : SelectedCandidate)
      → describe leb_version evaluation_time history locked e.0 e.1 c ≡ ok s
      → (s.candidate ≡ c) × (s.lane ≡ e.0)
  unfolding describe
  described_parts e c s h =
      let (base, based, h1) =
        >>=-eq-ok (ok_or (latest_lane_base leb_version e.0 locked c) no_locked_base) _ h in
      let (age, aged, h2) = >>=-eq-ok (elapsed evaluation_time c.published_at) _ h1 in
      let (g, gap, h3) = >>=-eq-ok (first_dormant_gap leb_version history base c) _ h2 in
      subst (λ x. (x.candidate ≡ c) × (x.lane ≡ e.0)) (ok_inj h3) (refl, refl)

  round-agrees :
      (e : Entry) (c : PolicyRelease) (s : SelectedCandidate)
      → check_inputs evaluation_time history locked ≡ ok tt
      → IsTop leb_version o evaluation_time history locked e
      → candidate_of leb_version o evaluation_time history locked e ≡ some c
      → ((r : LockedRelease) → Elem r locked → same_key r.version c.version ≡ false)
      → describe leb_version evaluation_time history locked e.0 e.1 c ≡ ok s
      → select_exact_implicit_candidate leb_version evaluation_time history locked e.0 c.version
        ≡ ok s
  unfolding describe select_exact_implicit_candidate
  round-agrees e c s checked t found fresh h =
      let (inside, greatest) =
        max_by-IsGreatest (leb_release leb_version)
          (release leb_version o evaluation_time history locked)
          (keep (passes leb_version o evaluation_time history locked e) history) c found in
      let (upstream, passed) =
        keep-Elem (passes leb_version o evaluation_time history locked e) history c inside in
      let fits =
        is_eligible→IsEligible leb_version o evaluation_time history locked e c t upstream passed in
      let (base, based, h1) =
        >>=-eq-ok (ok_or (latest_lane_base leb_version e.0 locked c) no_locked_base) _ h in
      let (age, aged, h2) = >>=-eq-ok (elapsed evaluation_time c.published_at) _ h1 in
      let (g, gap, h3) = >>=-eq-ok (first_dormant_gap leb_version history base c) _ h2 in
      let review =
        latest_base-IsBase leb_version o (keep (is_lane leb_version e.0) locked) c base
          (ok_or-eq-ok _ no_locked_base base based) in
      let (r, top, same) = lane_maximum_lem e t in
      let old : leb age_floor age ≡ true =
        ground (arith, elapsed-eq-ok evaluation_time c.published_at age aged, fits.old) in
      let (g', exact) =
        select_exact_candidate_lem leb_version o evaluation_time history locked c age checked
          upstream (fresh_lem leb_version o evaluation_time history locked c.version locked fresh)
          fits.not_yanked aged old
          (prior-has_base leb_version o evaluation_time history locked c base
            (keep-Elem (is_lane leb_version e.0) locked base review.among).0 review.prior) in
      let lane : in_lane e.0 (implicit_lane c.version) ≡ true =
        rw (fits.in_lane) (in_lane_some e.0) in
      let newer : not (leb_version c.version r.version) ≡ true =
        rw (same, fits.newer e.1 t.top) refl in
      subst
        (λ x.
          select_exact_implicit_candidate leb_version evaluation_time history locked e.0 c.version
          ≡ ok x)
        (ok_inj h3)
        (rw (exact, lane, top, newer, based, gap)
          (ap
            (λ v. ok (record {
              lane = e.0;
              active_lane_maximum = v;
              base = base;
              candidate = c;
              age_seconds = age;
              dormant_gap = g;
            }))
            same))

  -- A candidate that an implicit update selects, requested again by its lane and version with the
  -- same inputs, is selected with the same base, age and gap, if no locked release has its version.
  pub select_exact_implicit_candidate-agrees :
      (selected : List SelectedCandidate) (s : SelectedCandidate)
      → select_implicit_candidates leb_version evaluation_time history locked ≡ ok selected
      → Elem s selected
      → ((r : LockedRelease) → Elem r locked → same_key r.version s.candidate.version ≡ false)
      → select_exact_implicit_candidate leb_version evaluation_time history locked s.lane
          s.candidate.version
        ≡ ok s
  unfolding select_implicit_candidates
  select_exact_implicit_candidate-agrees selected s h k fresh =
      let (u, checked, h1) = >>=-eq-ok (check_inputs evaluation_time history locked) _ h in
      let (e, c, place, found, described) =
        select-Round (lanes_in_order leb_version evaluation_time history locked) selected s h1 k in
      let top = entry-IsTop leb_version o evaluation_time history locked e (
        sort_by-Elem (leb_entry leb_version o evaluation_time history locked)
          (leb_entry-IsPreorder leb_version o evaluation_time history locked)
          (active_maxima leb_version locked []) e place) in
      let (same, lane) = described_parts e c s described in
      let fresh' =
        subst
          (λ (x : PolicyRelease).
            (r : LockedRelease) → Elem r locked → same_key r.version x.version ≡ false)
          same fresh in
      subst
        (λ l.
          select_exact_implicit_candidate leb_version evaluation_time history locked l
            s.candidate.version
          ≡ ok s)
        (sym lane)
        (subst
          (λ (x : PolicyRelease).
            select_exact_implicit_candidate leb_version evaluation_time history locked e.0 x.version
            ≡ ok s)
          (sym same) (round-agrees e c s checked top found fresh' described))
