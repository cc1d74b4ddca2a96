-- ===== src/Release/Gap.antt =====
-- The search for a dormant publication gap: `first_dormant_gap` of rust/src/update/policy.rs.
use pkgre.Prelude.{
  ℕ, ◌*◌, [], ◌∷◌, List, any, keep, Bool, not, ◌&&◌, ◌||◌, leb, if◌then◌else◌, Option, none, some,
  Result, ok, ◌>>=◌, ◌>>◌, ensure, map_err,
}
use pkgre.Schema.{UtcTimestamp, same_time}
use pkgre.Time.{seconds_per_day}
use pkgre.Time.Stamp.{duration_since}
use pkgre.Release.{
  Version, PolicyRelease, LockedRelease, PublicationGap, PolicyError, in_future, predates_base,
  candidate_absent, dormant_release_gap_days, same_key, leb_time, lexicographic, sort_by,
}

-- The seconds of a dormant gap.
abbrev pub gap_floor : ℕ
gap_floor = dormant_release_gap_days * seconds_per_day

-- `later.duration_since(&earlier)?`.
abbrev pub elapsed : UtcTimestamp → UtcTimestamp → Result PolicyError ℕ
elapsed later earlier = map_err (λ e. in_future) (duration_since later earlier)

-- A release that is skipped: behind the previous one, or the previous one itself.
abbrev pub is_behind : Version → UtcTimestamp → PolicyRelease → Bool
is_behind version time release =
    not (leb_time time release.published_at)
    || same_time release.published_at time && same_key release.version version

-- The body of the loop for a release that is not skipped, with the rest of the loop.
abbrev pub measure :
    Version
    → UtcTimestamp
    → PolicyRelease
    → Result PolicyError (Option PublicationGap)
    → ℕ
    → Result PolicyError (Option PublicationGap)
measure version time release later seconds =
    if leb gap_floor seconds
    then ok (
        some (record {
          before_version = version;
          before_published_at = time;
          after_version = release.version;
          after_published_at = release.published_at;
          seconds = seconds;
        }))
    else later

abbrev pub scan :
    Version → UtcTimestamp → List PolicyRelease → Result PolicyError (Option PublicationGap)
scan version time [] = ok none
scan version time (r ∷ activity) =
    let skipped = scan version time activity in
    let later = scan r.version r.published_at activity in
    if is_behind version time r
    then skipped
    else (elapsed r.published_at time >>= measure version time r later)

-- The releases from the time of the base to the time of the candidate.
abbrev pub is_between : LockedRelease → PolicyRelease → PolicyRelease → Bool
is_between base candidate release =
    leb_time base.published_at release.published_at
    && leb_time release.published_at candidate.published_at

module _ (leb_version : Version → Version → Bool) where
  abbrev pub leb_published : PolicyRelease → PolicyRelease → Bool
  leb_published a b = lexicographic leb_version a.published_at a.version b.published_at b.version

  abbrev pub activity_of : List PolicyRelease → LockedRelease → PolicyRelease → List PolicyRelease
  activity_of history base candidate =
      sort_by leb_published (keep (is_between base candidate) history)

  unfoldable pub first_dormant_gap :
      List PolicyRelease
      → LockedRelease
      → PolicyRelease
      → Result PolicyError (Option PublicationGap)
  first_dormant_gap history base candidate = do
    ensure (leb_time base.published_at candidate.published_at) predates_base
    let activity = activity_of history base candidate
    ensure (any (λ (release : PolicyRelease). same_key release.version candidate.version) activity)
        candidate_absent
    scan base.version base.published_at activity
