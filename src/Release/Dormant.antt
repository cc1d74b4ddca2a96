-- ===== src/Release/Dormant.antt =====
-- The dormant gap of a history: `first_dormant_gap` of rust/src/update/policy.rs.
use mathlib.Core.Path.{subst}
use mathlib.Core.Option.{some_inj}
use pkgre.Prelude.{
  ℕ, ◌+◌, ◌-◌, ◌≤◌, ◌≡◌, refl, sym, inl, inr, ◌⊎◌, ◌∙◌, arith, [], ◌∷◌, List, keep, Elem, head,
  Bool, true, false, leb, Option, none, some, ok, Bool-cases, ok_inj,
}
use pkgre.Schema.{UtcTimestamp}
use pkgre.Release.{Version, PolicyRelease, LockedRelease, PublicationGap, same_key, leb_time}
use pkgre.Release.Order.{
  IsPreorder, total_refl, leb_time-IsPreorder, same_key_refl, published-IsPreorder, leb_time→le,
  leb_time→false, lexicographic→le,
}
use pkgre.Release.Lists.{
  each-Elem, keep-Elem, Elem-keep, any-Elem, IsSorted, sorted_cons, sort_by-Elem, Elem-sort_by,
  sort_by-IsSorted,
}
use pkgre.Release.Gap.{
  gap_floor, is_behind, scan, is_between, leb_published, activity_of, first_dormant_gap,
}
use pkgre.Release.Quiet.{
  moment, not-behind, behind→le, scan-step, scan_total, Soon, scan-none, IsGap, IsGap-skips,
  IsGap-follows,
}

module _ (leb_version : Version → Version → Bool) (o : IsPreorder leb_version) where
  published : IsPreorder (leb_published leb_version)
  published =
      published-IsPreorder (λ (r : PolicyRelease). r.published_at)
        (λ (r : PolicyRelease). r.version) leb_version o

  IsGap-here :
      (v : Version) (t : UtcTimestamp) (r : PolicyRelease) (rs : List PolicyRelease)
      → t.seconds ≤ moment r
      → gap_floor ≤ moment r - t.seconds
      → ((y : PolicyRelease) → Elem y rs → leb_published leb_version r y ≡ true)
      → IsGap t.seconds (r ∷ rs) (record {
        before_version = v;
        before_published_at = t;
        after_version = r.version;
        after_published_at = r.published_at;
        seconds = moment r - t.seconds;
      })
  IsGap-here v t r rs high long below = record {
    ends = (r, head, refl, refl);
    starts = omega arith;
    long = long;
    measured = omega arith;
    quiet =
        each-Elem (λ x. moment x ≤ t.seconds ⊎ moment r ≤ moment x) r rs (inr (omega arith))
          (λ y e. inr (
            lexicographic→le leb_version r.published_at y.published_at r.version y.version
              (below y e)));
    before = λ time h h'. absurd (omega arith);
  }

  scan-some :
      (v : Version) (t : UtcTimestamp) (rs : List PolicyRelease) (g : PublicationGap)
      → IsSorted (leb_published leb_version) published rs
      → scan v t rs ≡ ok (some g)
      → IsGap t.seconds rs g
  scan-some v t [] g s h = absurd (ground arith)
  scan-some v t (r ∷ rs) g (sorted_cons below s) h = elim (Bool-cases (is_behind v t r)) [
    | inl skipped ↦
        IsGap-skips t.seconds r rs g (behind→le v t r skipped) (scan-some v t rs g s (ground arith))
    | inr taken ↦
        let high = not-behind v t r taken in
        let step = sym (scan-step v t r rs taken) ∙ h in
        elim (Bool-cases (leb gap_floor (moment r - t.seconds))) [
          | inl found ↦
              subst (λ x. IsGap t.seconds (r ∷ rs) x)
                (some_inj.0 (ok_inj (sym (rw found refl) ∙ step)))
                (IsGap-here v t r rs high (ground arith) below)
          | inr short ↦
              IsGap-follows t.seconds r rs g high (ground arith)
                (scan-some r.version r.published_at rs g s (ground arith))
        ]
  ]

  soon-weaken :
      (xs ys : List PolicyRelease) (time : ℕ)
      → ((r : PolicyRelease) → Elem r xs → Elem r ys)
      → Soon xs time
      → Soon ys time
  soon-weaken xs ys time within (r, e, after, near) = (r, within r e, after, near)

  module _ (history : List PolicyRelease) (base : LockedRelease) (candidate : PolicyRelease) where
    -- What the result says of the publications from the base to the candidate.
    abbrev pub Finds : Option PublicationGap → Type 0
    Finds none =
        (time : ℕ)
        → base.published_at.seconds ≤ time
        → time + gap_floor ≤ moment candidate
        → Soon history time
    Finds (some g) =
        IsGap base.published_at.seconds history g
        × (g.after_published_at.seconds ≤ moment candidate)

    activity-Elem :
        (r : PolicyRelease)
        → Elem r (activity_of leb_version history base candidate)
        → Elem r history × (is_between base candidate r ≡ true)
    activity-Elem r e = keep-Elem (is_between base candidate) history r (
        sort_by-Elem (leb_published leb_version) published
          (keep (is_between base candidate) history) r e)

    Elem-activity :
        (r : PolicyRelease)
        → Elem r history
        → is_between base candidate r ≡ true
        → Elem r (activity_of leb_version history base candidate)
    Elem-activity r e k =
        Elem-sort_by (leb_published leb_version) published
          (keep (is_between base candidate) history) r
          (Elem-keep (is_between base candidate) history r e k)

    outside :
        (r : PolicyRelease)
        → is_between base candidate r ≡ false
        → (moment r ≤ base.published_at.seconds) ⊎ (moment candidate ≤ moment r)
    outside r h = elim (Bool-cases (leb_time base.published_at r.published_at)) [
      | inl late ↦ inr (leb_time→false r.published_at candidate.published_at (ground arith))
      | inr early ↦ inl (leb_time→false base.published_at r.published_at early)
    ]

    found-Finds :
        (g : PublicationGap)
        → IsGap base.published_at.seconds (activity_of leb_version history base candidate) g
        → Finds (some g)
    found-Finds g k =
        let (x, e, same, at) = k.ends in
        let (inside, between) = activity-Elem x e in
        let limit : moment x ≤ moment candidate =
          leb_time→le x.published_at candidate.published_at (ground arith) in
        let limit' : g.after_published_at.seconds ≤ moment candidate =
          subst (λ (t : UtcTimestamp). t.seconds ≤ moment candidate) at limit in
        (
          record {
            ends = (x, inside, same, at);
            starts = k.starts;
            long = k.long;
            measured = k.measured;
            quiet = λ r inside'. elim (Bool-cases (is_between base candidate r)) [
              | inl within ↦ k.quiet r (Elem-activity r inside' within)
              | inr apart ↦ elim (outside r apart) [
                | inl early ↦ inl (omega (arith, k.starts))
                | inr late ↦ inr (omega (arith, limit'))
              ]
            ];
            before = λ time h h'.
                soon-weaken (activity_of leb_version history base candidate) history time
                  (λ r m. (activity-Elem r m).0) (k.before time h h');
          },
          limit',
        )

    finds :
        (g : Option PublicationGap)
        → scan base.version base.published_at (activity_of leb_version history base candidate)
          ≡ ok g
        → Elem candidate (activity_of leb_version history base candidate)
        → Finds g
    finds none found inside = λ time h h'.
        soon-weaken (activity_of leb_version history base candidate) history time
          (λ r m. (activity-Elem r m).0)
          (scan-none base.version base.published_at (activity_of leb_version history base candidate)
            candidate time found inside h h')
    finds (some g) found inside = found-Finds g (
        scan-some base.version base.published_at (activity_of leb_version history base candidate) g
          (sort_by-IsSorted (leb_published leb_version) published
            (keep (is_between base candidate) history))
          found)

    -- If the candidate is in the history and is not earlier than the base, then the search succeeds.
    -- When it finds nothing, every time that is not earlier than the base and at least 365 days before
    -- the candidate is followed by a publication in less than 365 days. When it finds a gap, then that
    -- gap starts at or after the base, is at least 365 days long, it ends at a publication of the history not later than the
    -- candidate, nothing is published inside it, and every time from the base on, at least 365 days
    -- before the start of the gap, is followed by a publication in less than 365 days.
    pub first_dormant_gap-Finds :
        leb_time base.published_at candidate.published_at ≡ true
        → Elem candidate history
        → (g : Option PublicationGap) × (first_dormant_gap leb_version history base candidate
            ≡ ok g)
          × Finds g
    unfolding first_dormant_gap
    first_dormant_gap-Finds order e =
        let between : is_between base candidate candidate ≡ true =
          ground (arith, total_refl leb_time-IsPreorder candidate.published_at) in
        let activity = activity_of leb_version history base candidate in
        let inside = Elem-activity candidate e between in
        let known =
          any-Elem (λ (r : PolicyRelease). same_key r.version candidate.version) activity candidate
            inside (same_key_refl candidate.version) in
        let (g, found) = scan_total base.version base.published_at activity in
        rw (order, known) (g, found, finds g found inside)
