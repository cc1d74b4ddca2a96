-- ===== src/Release/Exact.antt =====
-- What an explicit request selects: `select_exact_candidate` of rust/src/update/policy.rs.
use mathlib.Core.Path.{subst}
use pkgre.Prelude.{
  ℕ, ◌+◌, ◌-◌, ◌≤◌, ◌≡◌, inl, inr, refl, sym, ◌∙◌, arith, [], ◌∷◌, List, any, keep, Elem, head,
  tail, Bool, true, false, not, leb, Option, none, some, ok, ensure, ok_or, >>=-eq-ok, ok_inj,
  Bool-cases,
}
use pkgre.Schema.{UtcTimestamp}
use pkgre.Transition.Evidence.{ensure_passes}
use pkgre.Release.{
  Version, PolicyRelease, LockedRelease, PublicationGap, same_key, leb_time, already_locked,
  request_absent, yanked_upstream, too_young, predates_bases,
}
use pkgre.Release.Order.{IsPreorder, published-IsPreorder}
use pkgre.Release.Lists.{any-Elem, keep-Elem, Elem-keep, max_by-IsGreatest, max_by-some}
use pkgre.Release.Gap.{elapsed}
use pkgre.Release.Dormant.{Finds, first_dormant_gap-Finds}
use pkgre.Release.Quiet.{elapsed_lem}
use pkgre.Release.Selection.{
  SelectedExactCandidate, age_floor, upstream_get, check_inputs, leb_locked, is_prior, latest_base,
  gap_after_base, has_base, select_exact_candidate,
}
use pkgre.Release.Evidence.{check_inputs-get, ok_or-eq-ok, upstream_get-Elem, elapsed-eq-ok}

module _ (leb_version : Version → Version → Bool) (o : IsPreorder leb_version) where
  pub leb_locked-IsPreorder : IsPreorder (leb_locked leb_version)
  leb_locked-IsPreorder =
      published-IsPreorder (λ (r : LockedRelease). r.published_at)
        (λ (r : LockedRelease). r.version) leb_version o

  -- A locked release that is published at or before the candidate, and none of these is later.
  pub record IsBase (locked : List LockedRelease) (candidate : PolicyRelease) (base : LockedRelease)
      : Type 0 where
    pub among : Elem base locked
    pub prior : leb_time base.published_at candidate.published_at ≡ true
    pub latest :
        (r : LockedRelease)
        → Elem r locked
        → leb_time r.published_at candidate.published_at ≡ true
        → leb_locked leb_version r base ≡ true

  pub latest_base-IsBase :
      (locked : List LockedRelease) (candidate : PolicyRelease) (base : LockedRelease)
      → latest_base leb_version locked candidate ≡ some base
      → IsBase locked candidate base
  latest_base-IsBase locked candidate base h =
      let (e, greatest) =
        max_by-IsGreatest (leb_locked leb_version) leb_locked-IsPreorder
          (keep (is_prior leb_version candidate) locked) base h in
      let (inside, prior) = keep-Elem (is_prior leb_version candidate) locked base e in
      record {
        among = inside;
        prior = prior;
        latest = λ r k p. greatest r (Elem-keep (is_prior leb_version candidate) locked r k p);
      }

  module _ (evaluation_time : UtcTimestamp) (history : List PolicyRelease)
      (locked : List LockedRelease) where
    -- The base is the latest prior one, or nothing is locked.
    abbrev pub BaseOf : PolicyRelease → Option LockedRelease → Type 0
    BaseOf candidate none = locked ≡ []
    BaseOf candidate (some base) = IsBase locked candidate base

    abbrev pub GapOf : PolicyRelease → Option LockedRelease → Option PublicationGap → Type 0
    GapOf candidate none gap = gap ≡ none
    GapOf candidate (some base) gap = Finds leb_version o history base candidate gap

    pub record IsExact (requested : Version) (s : SelectedExactCandidate) : Type 0 where
      pub upstream : Elem s.candidate history
      pub version_key : same_key s.candidate.version requested ≡ true
      pub not_yanked : s.candidate.yanked ≡ false
      pub age : s.candidate.published_at.seconds + s.age_seconds ≡ evaluation_time.seconds
      pub old : age_floor ≤ s.age_seconds
      pub unlocked : (r : LockedRelease) → Elem r locked → same_key r.version requested ≡ false
      pub review : BaseOf s.candidate s.base
      pub gap : GapOf s.candidate s.base s.dormant_gap

    none-BaseOf :
        (candidate : PolicyRelease) (rs : List LockedRelease) (b : Option LockedRelease)
        → has_base leb_version evaluation_time history locked rs b ≡ true
        → b ≡ none
        → rs ≡ []
    none-BaseOf candidate [] b h e = refl
    none-BaseOf candidate (r ∷ rs) none h e = absurd (cc)
    none-BaseOf candidate (r ∷ rs) (some x) h e = absurd (cc)

    unlocked_lem :
        (requested : Version)
        → not (any (λ (release : LockedRelease). same_key release.version requested) locked) ≡ true
        → (r : LockedRelease) → Elem r locked
        → same_key r.version requested ≡ false
    unlocked_lem requested h r e = elim (Bool-cases (same_key r.version requested)) [
      | inl same ↦ absurd (
          ground (
            arith,
            any-Elem (λ (release : LockedRelease). same_key release.version requested) locked r e
                same,
          ))
      | inr other ↦ other
    ]

    pub gap_after_base-GapOf :
        (candidate : PolicyRelease) (base : Option LockedRelease)
        → Elem candidate history
        → BaseOf candidate base
        → (g : Option PublicationGap) × (gap_after_base leb_version evaluation_time history locked
              candidate base
            ≡ ok g)
          × GapOf candidate base g
    gap_after_base-GapOf candidate none e b = (none, refl, refl)
    gap_after_base-GapOf candidate (some base) e b =
        first_dormant_gap-Finds leb_version o history base candidate b.prior e

    latest_base-BaseOf :
        (candidate : PolicyRelease) (base : Option LockedRelease)
        → latest_base leb_version locked candidate ≡ base
        → has_base leb_version evaluation_time history locked locked base ≡ true
        → BaseOf candidate base
    latest_base-BaseOf candidate none e h = none-BaseOf candidate locked none h refl
    latest_base-BaseOf candidate (some base) e h = latest_base-IsBase locked candidate base e

    -- An explicit request selects a release of the history with the requested version, which is not
    -- yanked, is at least 30 days old, and is not locked. Its review base is the latest locked release
    -- that is not published after it, and is absent only if nothing is locked; the gap is what the
    -- search from that base finds.
    pub select_exact_candidate-IsExact :
        (requested : Version) (s : SelectedExactCandidate)
        → select_exact_candidate leb_version evaluation_time history locked requested ≡ ok s
        → IsExact requested s
    unfolding select_exact_candidate
    select_exact_candidate-IsExact requested s h =
        let (u0, checked, h0) = >>=-eq-ok (check_inputs evaluation_time history locked) _ h in
        let (u1, fresh, h1) =
          >>=-eq-ok
            (ensure
              (not (any (λ (release : LockedRelease). same_key release.version requested) locked))
              already_locked)
            _ h0 in
        let (c, got, h2) = >>=-eq-ok (ok_or (upstream_get requested history) request_absent) _ h1 in
        let (u3, present, h3) = >>=-eq-ok (ensure (not c.yanked) yanked_upstream) _ h2 in
        let (age, aged, h4) = >>=-eq-ok (elapsed evaluation_time c.published_at) _ h3 in
        let (u5, old, h5) = >>=-eq-ok (ensure (leb age_floor age) too_young) _ h4 in
        let (u6, based, h6) =
          >>=-eq-ok
            (ensure
              (has_base leb_version evaluation_time history locked locked
                (latest_base leb_version locked c))
              predates_bases)
            _ h5 in
        let (g, gap, h7) =
          >>=-eq-ok
            (gap_after_base leb_version evaluation_time history locked c
              (latest_base leb_version locked c))
            _ h6 in
        let (e, key) = upstream_get-Elem requested history c (ok_or-eq-ok _ _ c got) in
        let review =
          latest_base-BaseOf c (latest_base leb_version locked c) refl
            ((ensure_passes _ predates_bases).0 based) in
        let (g', gap', finds) =
          gap_after_base-GapOf c (latest_base leb_version locked c) e review in
        subst (λ x. IsExact requested x) (ok_inj h7)
          (record {
            upstream = e;
            version_key = key;
            not_yanked = ground (arith, (ensure_passes (not c.yanked) yanked_upstream).0 present);
            age = elapsed-eq-ok evaluation_time c.published_at age aged;
            old = ground (arith, (ensure_passes (leb age_floor age) too_young).0 old);
            unlocked = unlocked_lem requested ((ensure_passes _ already_locked).0 fresh);
            review = review;
            gap =
                subst (λ x. GapOf c (latest_base leb_version locked c) x) (ok_inj (sym gap' ∙ gap))
                  finds;
          })

    pub select_exact_candidate_lem :
        (c : PolicyRelease) (age : ℕ)
        → check_inputs evaluation_time history locked ≡ ok tt
        → Elem c history
        → any (λ (release : LockedRelease). same_key release.version c.version) locked ≡ false
        → c.yanked ≡ false
        → elapsed evaluation_time c.published_at ≡ ok age
        → leb age_floor age ≡ true
        → has_base leb_version evaluation_time history locked locked
            (latest_base leb_version locked c)
          ≡ true
        → (gap : Option PublicationGap) × (select_exact_candidate leb_version evaluation_time
              history locked c.version
            ≡ ok (record {
              base = latest_base leb_version locked c;
              candidate = c;
              age_seconds = age;
              dormant_gap = gap;
            }))
    unfolding select_exact_candidate
    select_exact_candidate_lem c age checked e fresh present aged old based =
        let review = latest_base-BaseOf c (latest_base leb_version locked c) refl based in
        let (g, gap, finds) = gap_after_base-GapOf c (latest_base leb_version locked c) e review in
        let offered : not c.yanked ≡ true = ground arith in
        (
          g,
          rw
              (
                checked,
                fresh,
                check_inputs-get evaluation_time history locked c checked e,
                offered,
                aged,
                old,
                based,
                gap,
              )
              refl,
        )

    pub fresh_lem :
        (v : Version) (rs : List LockedRelease)
        → ((r : LockedRelease) → Elem r rs → same_key r.version v ≡ false)
        → any (λ (release : LockedRelease). same_key release.version v) rs ≡ false
    fresh_lem v [] h = refl
    fresh_lem v (r ∷ rs) h = rw (h r head) (fresh_lem v rs (λ x e. h x (tail e)))

    pub has_base_lem :
        (c : PolicyRelease) (rs : List LockedRelease) (b : LockedRelease)
        → has_base leb_version evaluation_time history locked rs (some b) ≡ true
    has_base_lem c [] b = refl
    has_base_lem c (r ∷ rs) b = refl

    pub prior-has_base :
        (c : PolicyRelease) (r : LockedRelease)
        → Elem r locked
        → leb_time r.published_at c.published_at ≡ true
        → has_base leb_version evaluation_time history locked locked
            (latest_base leb_version locked c)
          ≡ true
    prior-has_base c r e p =
        let (b, found) =
          max_by-some (leb_locked leb_version) leb_locked-IsPreorder
            (keep (is_prior leb_version c) locked) r
            (Elem-keep (is_prior leb_version c) locked r e p) in
        rw found (has_base_lem c locked b)

    -- On inputs that pass the checks, a release of the history can be requested by its version if it is
    -- not yanked, is at least 30 days old, is not locked, and some locked release is not published
    -- after it: the request selects it.
    pub select_exact_candidate_total :
        (c : PolicyRelease) (r : LockedRelease)
        → check_inputs evaluation_time history locked ≡ ok tt
        → Elem c history
        → c.yanked ≡ false
        → c.published_at.seconds + age_floor ≤ evaluation_time.seconds
        → ((x : LockedRelease) → Elem x locked → same_key x.version c.version ≡ false)
        → Elem r locked
        → leb_time r.published_at c.published_at ≡ true
        → (s : SelectedExactCandidate) × (select_exact_candidate leb_version evaluation_time history
              locked c.version
            ≡ ok s)
          × (s.candidate ≡ c)
    select_exact_candidate_total c r checked e present old fresh k p =
        let (g, found) =
          select_exact_candidate_lem c (evaluation_time.seconds - c.published_at.seconds) checked e
            (fresh_lem c.version locked fresh) present
            (elapsed_lem evaluation_time c.published_at (omega arith)) (ground arith)
            (prior-has_base c r k p) in
        (_, found, refl)
