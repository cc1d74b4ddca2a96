-- ===== src/Release/Quiet.antt =====
-- What `first_dormant_gap` of rust/src/update/policy.rs finds.
use pkgre.Prelude.{
  ℕ, ◌+◌, ◌-◌, ◌≤◌, ◌<◌, ◌≡◌, refl, sym, inl, inr, ◌⊎◌, ◌∙◌, ltb, arith, [], ◌∷◌, List, Elem, head,
  tail, true, false, leb, Option, none, ok, Bool-cases,
}
use pkgre.Schema.{UtcTimestamp}
use pkgre.Time.Stamp.{duration_since}
use pkgre.Release.{Version, PolicyRelease, PublicationGap, leb_time}
use pkgre.Release.Order.{leb_time→le}
use pkgre.Release.Lists.{each-Elem}
use pkgre.Release.Gap.{gap_floor, elapsed, is_behind, measure, scan}

-- The seconds of a publication.
abbrev pub moment : PolicyRelease → ℕ
moment r = r.published_at.seconds

pub elapsed_lem :
    (later earlier : UtcTimestamp)
    → earlier.seconds ≤ later.seconds
    → elapsed later earlier ≡ ok (later.seconds - earlier.seconds)
unfolding duration_since
elapsed_lem later earlier h = ground arith

pub not-behind :
    (v : Version) (t : UtcTimestamp) (r : PolicyRelease)
    → is_behind v t r ≡ false
    → t.seconds ≤ moment r
not-behind v t r h = leb_time→le t r.published_at (ground arith)

pub behind→le :
    (v : Version) (t : UtcTimestamp) (r : PolicyRelease)
    → is_behind v t r ≡ true
    → moment r ≤ t.seconds
unfolding leb_time
behind→le v t r h = ground arith

-- One round of the loop, for a release that is not skipped.
pub scan-step :
    (v : Version) (t : UtcTimestamp) (r : PolicyRelease) (rs : List PolicyRelease)
    → is_behind v t r ≡ false
    → scan v t (r ∷ rs) ≡ measure v t r (scan r.version r.published_at rs) (moment r - t.seconds)
scan-step v t r rs h = rw (h, elapsed_lem r.published_at t (not-behind v t r h)) refl

pub scan_total :
    (v : Version) (t : UtcTimestamp) (rs : List PolicyRelease)
    → (g : Option PublicationGap) × (scan v t rs ≡ ok g)
scan_total v t [] = (none, refl)
scan_total v t (r ∷ rs) = elim (Bool-cases (is_behind v t r)) [
  | inl skipped ↦ rw skipped (scan_total v t rs)
  | inr taken ↦ elim (Bool-cases (leb gap_floor (moment r - t.seconds))) [
    | inl found ↦ rw (scan-step v t r rs taken, found) (_, refl)
    | inr short ↦ rw (scan-step v t r rs taken, short) (scan_total r.version r.published_at rs)
  ]
]

-- A publication that follows the time within a year.
abbrev pub Soon : List PolicyRelease → ℕ → Type 0
Soon rs time = (r : PolicyRelease) × Elem r rs × (time < moment r) × (moment r < time + gap_floor)

soon-tail :
    (r : PolicyRelease) (rs : List PolicyRelease) (time : ℕ) → Soon rs time → Soon (r ∷ rs) time
soon-tail r rs time (x, e, after, before) = (x, tail e, after, before)

-- The tail holds a publication that is later than its head.
later-Elem :
    (r c : PolicyRelease) (rs : List PolicyRelease)
    → Elem c (r ∷ rs)
    → moment r < moment c
    → Elem c rs
later-Elem r c rs head h = absurd (omega arith)
later-Elem r c rs (tail e) h = e

-- A loop that finds no gap has a publication within a year of every time that is a year before some
-- publication.
pub scan-none :
    (v : Version) (t : UtcTimestamp) (rs : List PolicyRelease) (c : PolicyRelease) (time : ℕ)
    → scan v t rs ≡ ok none
    → Elem c rs
    → t.seconds ≤ time
    → time + gap_floor ≤ moment c
    → Soon rs time
scan-none v t [] c time h e from to = elim e [ ]
scan-none v t (r ∷ rs) c time h e from to = elim (Bool-cases (is_behind v t r)) [
  | inl skipped ↦
      let low = behind→le v t r skipped in
      soon-tail r rs time
        (scan-none v t rs c time (ground arith) (later-Elem r c rs e (omega arith)) from to)
  | inr taken ↦
      let high = not-behind v t r taken in
      let step = sym (scan-step v t r rs taken) ∙ h in
      elim (Bool-cases (leb gap_floor (moment r - t.seconds))) [
        | inl found ↦ absurd (ground arith)
        | inr short ↦ elim (Bool-cases (ltb time (moment r))) [
          | inl after ↦ (r, head, ground arith, ground arith)
          | inr before ↦ soon-tail r rs time (
              scan-none r.version r.published_at rs c time (ground arith)
                (later-Elem r c rs e (ground arith)) (ground arith) to)
        ]
      ]
]

-- A gap of at least a year between a time of the list and the release at its end, with no release
-- of the list strictly between.
pub record IsGap (from : ℕ) (rs : List PolicyRelease) (g : PublicationGap) : Type 0 where
  pub ends :
      (r : PolicyRelease) × Elem r rs
      × (r.version ≡ g.after_version)
      × (r.published_at ≡ g.after_published_at)
  pub starts : from ≤ g.before_published_at.seconds
  pub long : gap_floor ≤ g.seconds
  pub measured : g.before_published_at.seconds + g.seconds ≡ g.after_published_at.seconds
  pub quiet :
      (r : PolicyRelease)
      → Elem r rs
      → moment r ≤ g.before_published_at.seconds ⊎ g.after_published_at.seconds ≤ moment r
  pub before :
      (time : ℕ) → from ≤ time → time + gap_floor ≤ g.before_published_at.seconds → Soon rs time

pub IsGap-skips :
    (from : ℕ) (r : PolicyRelease) (rs : List PolicyRelease) (g : PublicationGap)
    → moment r ≤ from
    → IsGap from rs g
    → IsGap from (r ∷ rs) g
IsGap-skips from r rs g low k = record {
  ends = let (x, e, same, at) = k.ends in (x, tail e, same, at);
  starts = k.starts;
  long = k.long;
  measured = k.measured;
  quiet =
      each-Elem
        (λ x. moment x ≤ g.before_published_at.seconds ⊎ g.after_published_at.seconds ≤ moment x) r
        rs (inl (omega (arith, k.starts))) k.quiet;
  before = λ time h h'. soon-tail r rs time (k.before time h h');
}

pub IsGap-follows :
    (from : ℕ) (r : PolicyRelease) (rs : List PolicyRelease) (g : PublicationGap)
    → from ≤ moment r
    → moment r < from + gap_floor
    → IsGap (moment r) rs g
    → IsGap from (r ∷ rs) g
IsGap-follows from r rs g high near k = record {
  ends = let (x, e, same, at) = k.ends in (x, tail e, same, at);
  starts = omega (arith, k.starts);
  long = k.long;
  measured = k.measured;
  quiet =
      each-Elem
        (λ x. moment x ≤ g.before_published_at.seconds ⊎ g.after_published_at.seconds ≤ moment x) r
        rs (inl k.starts) k.quiet;
  before = λ time h h'. elim (Bool-cases (ltb time (moment r))) [
    | inl after ↦ (r, head, ground arith, omega arith)
    | inr passed ↦ soon-tail r rs time (k.before time (ground arith) h')
  ];
}
