-- ===== src/Release/Implicit.antt =====
-- What an implicit update selects: `select_implicit_candidates` of rust/src/update/policy.rs.
use mathlib.Core.Path.{subst}
use mathlib.Core.Option.{some_inj}
use pkgre.Prelude.{
  ◌+◌, ◌≤◌, ◌≡◌, inl, inr, refl, sym, ap, ◌∙◌, arith, [], ◌∷◌, List, keep, Elem, head, tail, Bool,
  true, false, Option, none, some, Result, ok, ◌>>=◌, ok_or, >>=-eq-ok, ok_inj, Bool-cases,
  Option-cases,
}
use pkgre.Schema.{UtcTimestamp}
use pkgre.Release.{
  Version, PolicyRelease, LockedRelease, CompatibilityLane, zero_minor, major_lane, PolicyError,
  implicit_lane, in_lane, leb_lane, no_locked_base,
}
use pkgre.Release.Order.{IsPreorder}
use pkgre.Release.Lists.{
  each-Elem, keep-Elem, Elem-keep, max_by-IsGreatest, max_by-some, sort_by-Elem, Elem-sort_by,
}
use pkgre.Release.Gap.{elapsed, first_dormant_gap}
use pkgre.Release.Dormant.{Finds, first_dormant_gap-Finds}
use pkgre.Release.Quiet.{elapsed_lem}
use pkgre.Release.Selection.{
  SelectedCandidate, age_floor, is_old, check_inputs, leb_release, is_lane, latest_lane_base,
  active_maxima, is_eligible, eligible, describe, select_lanes, lanes_in_order,
  select_implicit_candidates,
}
use pkgre.Release.Evidence.{ok_or-eq-ok, elapsed-eq-ok, is_old→elapsed}
use pkgre.Release.Exact.{IsBase, latest_base-IsBase}
use pkgre.Release.Maxima.{Active, in_lane→eq, in_lane_some, IsMaxima, table-IsMaxima, get-Elem}

abbrev pub Entry : Type 0
Entry = CompatibilityLane × LockedRelease

is_old_iff :
    (evaluation_time : UtcTimestamp) (r : PolicyRelease)
    → (is_old evaluation_time r ≡ true
        → r.published_at.seconds + age_floor ≤ evaluation_time.seconds)
      × (r.published_at.seconds + age_floor ≤ evaluation_time.seconds
          → is_old evaluation_time r ≡ true)
is_old_iff t r = (
  λ h.
      let (age, e, old) = is_old→elapsed t r h in
      omega (arith, elapsed-eq-ok t r.published_at age e, old),
  λ h. rw (is_old, elapsed_lem t r.published_at (omega arith)) (ground arith),
)

lane_total : (a b : CompatibilityLane) → leb_lane a b ≡ false → leb_lane b a ≡ true
lane_total (zero_minor a) (zero_minor b) h = ground arith
lane_total (zero_minor a) (major_lane b) h = absurd (cc)
lane_total (major_lane a) (zero_minor b) h = refl
lane_total (major_lane a) (major_lane b) h = ground arith

lane_trans :
    (a b c : CompatibilityLane) → leb_lane a b ≡ true → leb_lane b c ≡ true → leb_lane a c ≡ true
lane_trans (zero_minor a) (zero_minor b) (zero_minor c) h k = ground arith
lane_trans (zero_minor a) b (major_lane c) h k = refl
lane_trans (zero_minor a) (major_lane b) (zero_minor c) h k = absurd (cc)
lane_trans (major_lane a) (zero_minor b) c h k = absurd (cc)
lane_trans (major_lane a) (major_lane b) (zero_minor c) h k = absurd (cc)
lane_trans (major_lane a) (major_lane b) (major_lane c) h k = ground arith

module _ (leb_version : Version → Version → Bool) (o : IsPreorder leb_version)
    (evaluation_time : UtcTimestamp) (history : List PolicyRelease)
    (locked : List LockedRelease) where
  -- An active locked release of the lane.
  pub record IsActive (lane : CompatibilityLane) (r : LockedRelease) : Type 0 where
    pub among : Elem r locked
    pub active : r.active ≡ true
    pub in_lane : implicit_lane r.version ≡ some lane

  -- A release that the lane may be updated to.
  pub record IsEligible (lane : CompatibilityLane) (h : PolicyRelease) : Type 0 where
    pub upstream : Elem h history
    pub in_lane : implicit_lane h.version ≡ some lane
    pub not_yanked : h.yanked ≡ false
    pub old : h.published_at.seconds + age_floor ≤ evaluation_time.seconds
    pub newer : (r : LockedRelease) → IsActive lane r → leb_version h.version r.version ≡ false

  -- A selected candidate: the greatest eligible release of its lane, with the lane's greatest active
  -- version, the latest locked release of the lane that is not published after it, and the gap found
  -- from there.
  pub record IsImplicit (s : SelectedCandidate) : Type 0 where
    pub eligible : IsEligible s.lane s.candidate
    pub highest :
        (h : PolicyRelease) → IsEligible s.lane h → leb_version h.version s.candidate.version ≡ true
    pub maximum : (r : LockedRelease) × IsActive s.lane r × (s.active_lane_maximum ≡ r.version)
    pub covered :
        (r : LockedRelease) → IsActive s.lane r → leb_version r.version s.active_lane_maximum ≡ true
    pub age : s.candidate.published_at.seconds + s.age_seconds ≡ evaluation_time.seconds
    pub review : IsBase leb_version o (keep (is_lane leb_version s.lane) locked) s.candidate s.base
    pub gap : Finds leb_version o history s.base s.candidate s.dormant_gap

  pub record IsTop (e : Entry) : Type 0 where
    pub top : IsActive e.0 e.1
    pub covers : (r : LockedRelease) → IsActive e.0 r → leb_version r.version e.1.version ≡ true

  abbrev pub passes : Entry → PolicyRelease → Bool
  passes e = is_eligible leb_version evaluation_time e.0 e.1

  pub is_eligible→IsEligible :
      (e : Entry) (h : PolicyRelease)
      → IsTop e
      → Elem h history
      → passes e h ≡ true
      → IsEligible e.0 h
  is_eligible→IsEligible e h t k p =
      let newest : leb_version h.version e.1.version ≡ false = ground arith in
      record {
        upstream = k;
        in_lane = in_lane→eq e.0 (implicit_lane h.version) (ground arith);
        not_yanked = ground arith;
        old = (is_old_iff evaluation_time h).0 (ground arith);
        newer = λ r a. elim (Bool-cases (leb_version h.version r.version)) [
          | inl below ↦
              absurd (cc (newest, o.trans h.version r.version e.1.version below (t.covers r a)))
          | inr above ↦ above
        ];
      }

  IsEligible→is_eligible :
      (e : Entry) (h : PolicyRelease) → IsTop e → IsEligible e.0 h → passes e h ≡ true
  IsEligible→is_eligible e h t k =
      let lane : in_lane e.0 (implicit_lane h.version) ≡ true = rw (k.in_lane) (in_lane_some e.0) in
      let old = (is_old_iff evaluation_time h).1 k.old in
      let newer = k.newer e.1 t.top in
      let present = k.not_yanked in ground (arith, lane, old, newer, present)

  pub release : IsPreorder (leb_release leb_version)
  release = record {
    total = λ a b. o.total a.version b.version;
    trans = λ a b d. o.trans a.version b.version d.version;
  }

  describe-IsImplicit :
      (e : Entry) (c : PolicyRelease) (s : SelectedCandidate)
      → IsTop e
      → eligible leb_version evaluation_time history locked e.0 e.1 ≡ some c
      → describe leb_version evaluation_time history locked e.0 e.1 c ≡ ok s
      → IsImplicit s × (s.lane ≡ e.0)
  unfolding describe
  describe-IsImplicit e c s t found h =
      let (inside, greatest) =
        max_by-IsGreatest (leb_release leb_version) release (keep (passes e) history) c found in
      let (upstream, passed) = keep-Elem (passes e) history c inside in
      let fits = is_eligible→IsEligible e c t upstream passed in
      let (base, based, h1) =
        >>=-eq-ok (ok_or (latest_lane_base leb_version e.0 locked c) no_locked_base) _ h in
      let (age, aged, h2) = >>=-eq-ok (elapsed evaluation_time c.published_at) _ h1 in
      let (g, gap, h3) = >>=-eq-ok (first_dormant_gap leb_version history base c) _ h2 in
      let review =
        latest_base-IsBase leb_version o (keep (is_lane leb_version e.0) locked) c base
          (ok_or-eq-ok _ no_locked_base base based) in
      let (g', gap', finds) =
        first_dormant_gap-Finds leb_version o history base c review.prior upstream in
      subst (λ x. IsImplicit x × (x.lane ≡ e.0)) (ok_inj h3)
        (
          record {
            eligible = fits;
            highest = λ x k.
                greatest x
                  (Elem-keep (passes e) history x k.upstream (IsEligible→is_eligible e x t k));
            maximum = (e.1, t.top, refl);
            covered = t.covers;
            age = elapsed-eq-ok evaluation_time c.published_at age aged;
            review = review;
            gap = subst (λ x. Finds leb_version o history base c x) (ok_inj (sym gap' ∙ gap)) finds;
          },
          refl,
        )

  -- The candidates of a list of lanes, and the lanes that have one.
  record IsSelection (m : List Entry) (selected : List SelectedCandidate) : Type 0 where
    pub each_one : (s : SelectedCandidate) → Elem s selected → IsImplicit s
    pub every_lane :
        (e : Entry) (h : PolicyRelease)
        → Elem e m
        → IsEligible e.0 h
        → (s : SelectedCandidate) × Elem s selected × (s.lane ≡ e.0)

  abbrev pub select : List Entry → Result PolicyError (List SelectedCandidate)
  select = select_lanes leb_version evaluation_time history locked

  abbrev pub candidate_of : Entry → Option PolicyRelease
  candidate_of e = eligible leb_version evaluation_time history locked e.0 e.1

  lane_skipped :
      (e : Entry) (m : List Entry) (selected : List SelectedCandidate)
      → IsTop e
      → candidate_of e ≡ none
      → IsSelection m selected
      → IsSelection (e ∷ m) selected
  lane_skipped e m selected t found k = record {
    each_one = k.each_one;
    every_lane = λ x h. λ place fits.
        each-Elem
          (λ y. IsEligible y.0 h → (s : SelectedCandidate) × Elem s selected × (s.lane ≡ y.0)) e m
          (λ f.
            let (c, found') =
              max_by-some (leb_release leb_version) release (keep (passes e) history) h
                (Elem-keep (passes e) history h f.upstream (IsEligible→is_eligible e h t f)) in
            absurd (cc (found, found')))
          (λ y d f. k.every_lane y h d f) x place fits;
  }

  lane_added :
      (e : Entry) (m : List Entry) (s : SelectedCandidate) (selected : List SelectedCandidate)
      → IsImplicit s
      → s.lane ≡ e.0
      → IsSelection m selected
      → IsSelection (e ∷ m) (s ∷ selected)
  lane_added e m s selected one lane k = record {
    each_one = each-Elem IsImplicit s selected one k.each_one;
    every_lane = λ x h place fits.
        each-Elem
          (λ y. IsEligible y.0 h → (z : SelectedCandidate) × Elem z (s ∷ selected) × (z.lane ≡ y.0))
          e m (λ f. (s, head, lane))
          (λ y d f. let (z, inside, same) = k.every_lane y h d f in (z, tail inside, same)) x place
          fits;
  }

  abbrev pub step :
      Entry → List Entry → Option PolicyRelease → Result PolicyError (List SelectedCandidate)
  step e m none = select m
  step e m (some c) = describe leb_version evaluation_time history locked e.0 e.1 c >>= λ s.
      select m >>= λ rest. ok (s ∷ rest)

  pub select-step : (e : Entry) (m : List Entry) → select (e ∷ m) ≡ step e m (candidate_of e)
  unfolding select_lanes
  select-step e m = elim (Option-cases (candidate_of e)) [
    | inl found ↦ cc
    | inr (c, found) ↦ cc found
  ]

  select_lanes-IsSelection :
      (m : List Entry) (selected : List SelectedCandidate)
      → ((e : Entry) → Elem e m → IsTop e)
      → select m ≡ ok selected
      → IsSelection m selected
  unfolding select_lanes
  select_lanes-IsSelection [] selected tops h =
      subst (λ x. IsSelection [] x) (ok_inj h)
        (record { each_one = λ s e. elim e [ ]; every_lane = λ e x d. elim d [ ] })
  select_lanes-IsSelection (e ∷ m) selected tops h = elim (Option-cases (candidate_of e)) [
    | inl found ↦ lane_skipped e m selected (tops e head) found (
        select_lanes-IsSelection m selected (λ x d. tops x (tail d))
          (sym (select-step e m ∙ ap (step e m) found) ∙ h))
    | inr (c, found) ↦
        let chain : (describe leb_version evaluation_time history locked e.0 e.1 c >>= λ s.
        select m >>= λ rest. ok (s ∷ rest))
            ≡ ok selected =
          sym (select-step e m ∙ ap (step e m) found) ∙ h in
        let (s, described, h1) =
          >>=-eq-ok (describe leb_version evaluation_time history locked e.0 e.1 c) _ chain in
        let (rest, selected', h2) = >>=-eq-ok (select m) _ h1 in
        let (one, lane) = describe-IsImplicit e c s (tops e head) found described in
        subst (λ x. IsSelection (e ∷ m) x) (ok_inj h2)
          (lane_added e m s rest one lane
            (select_lanes-IsSelection m rest (λ x d. tops x (tail d)) selected'))
  ]

  maxima :
      IsMaxima leb_version o locked
        (Active leb_version o locked locked)
        (active_maxima leb_version locked [])
  maxima = table-IsMaxima leb_version o locked

  -- An entry of the table, as a row of the loop.
  pub entry-IsTop : (e : Entry) → Elem e (active_maxima leb_version locked []) → IsTop e
  entry-IsTop e d =
      let (among, active, lane) = maxima.entries e d in
      record {
        top = record { among = among; active = active; in_lane = lane };
        covers = λ r a.
            let (p, got, le) = maxima.covers r e.0 (a.among, a.active) a.in_lane in
            subst (λ (x : LockedRelease). leb_version r.version x.version ≡ true)
              (some_inj.0 (sym got ∙ maxima.single e d)) le;
      }

  abbrev pub leb_entry : Entry → Entry → Bool
  leb_entry a b = leb_lane a.0 b.0

  pub leb_entry-IsPreorder : IsPreorder leb_entry
  leb_entry-IsPreorder = record {
    total = λ a b. lane_total a.0 b.0;
    trans = λ a b c. lane_trans a.0 b.0 c.0;
  }

  IsSelection-of :
      (selected : List SelectedCandidate)
      → select_implicit_candidates leb_version evaluation_time history locked ≡ ok selected
      → IsSelection (lanes_in_order leb_version evaluation_time history locked) selected
  unfolding select_implicit_candidates
  IsSelection-of selected h =
      let (u, checked, h1) = >>=-eq-ok (check_inputs evaluation_time history locked) _ h in
      select_lanes-IsSelection (lanes_in_order leb_version evaluation_time history locked) selected
        (λ e d.
          entry-IsTop e
            (sort_by-Elem leb_entry leb_entry-IsPreorder (active_maxima leb_version locked []) e d))
        h1

  -- Every candidate that an implicit update selects is a release of the history, in its lane, not
  -- yanked, at least 30 days old and newer than every active locked release of the lane; no other
  -- such release is greater. The recorded maximum is the greatest active version of the lane, the age
  -- is exact, the base is the latest locked release of the lane that is not published after the
  -- candidate, and the gap is what the search from that base finds.
  pub select_implicit_candidates-IsImplicit :
      (selected : List SelectedCandidate) (s : SelectedCandidate)
      → select_implicit_candidates leb_version evaluation_time history locked ≡ ok selected
      → Elem s selected
      → IsImplicit s
  select_implicit_candidates-IsImplicit selected s h = (IsSelection-of selected h).each_one s

  -- If an implicit update succeeds, then every lane that has an active locked release and a release
  -- it may be updated to has a selected candidate.
  pub select_implicit_candidates_complete :
      (selected : List SelectedCandidate) (lane : CompatibilityLane) (r : LockedRelease)
      (c : PolicyRelease)
      → select_implicit_candidates leb_version evaluation_time history locked ≡ ok selected
      → IsActive lane r
      → IsEligible lane c
      → (s : SelectedCandidate) × Elem s selected × (s.lane ≡ lane)
  select_implicit_candidates_complete selected lane r c h a k =
      let (p, got, le) = maxima.covers r lane (a.among, a.active) a.in_lane in
      (IsSelection-of selected h).every_lane (lane, p) c
        (Elem-sort_by leb_entry leb_entry-IsPreorder (active_maxima leb_version locked []) (lane, p)
          (get-Elem leb_version o lane (active_maxima leb_version locked []) p got))
        k
