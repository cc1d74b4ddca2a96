-- ===== src/Release/Selection.antt =====
-- The selection of update candidates: rust/src/update/policy.rs. A `BTreeMap` is the list of its
-- entries; the order of versions is a parameter.
use pkgre.Prelude.{
  ℕ, ◌*◌, [], ◌∷◌, List, any, keep, Bool, true, false, not, ◌&&◌, leb, if◌then◌else◌, Option, none,
  some, Result, ok, err, ◌>>=◌, ◌>>◌, ensure, ok_or,
}
use pkgre.Schema.{UtcTimestamp, same_time}
use pkgre.Time.{seconds_per_day}
use pkgre.Transition.{each}
use pkgre.Release.{
  Version, PolicyRelease, LockedRelease, PublicationGap, CompatibilityLane, PolicyError,
  min_release_age_days, duplicate_upstream, duplicate_locked, locked_absent, time_changed,
  no_locked_base, already_locked, request_absent, yanked_upstream, too_young, predates_bases,
  outside_lane, no_active_identity, not_newer, implicit_lane, in_lane, same_lane, leb_lane,
  same_key, leb_time, lexicographic, max_by, sort_by,
}
use pkgre.Release.Gap.{elapsed, first_dormant_gap}

pub record SelectedCandidate : Type 0 where
  pub lane : CompatibilityLane
  pub active_lane_maximum : Version
  pub base : LockedRelease
  pub candidate : PolicyRelease
  pub age_seconds : ℕ
  pub dormant_gap : Option PublicationGap

pub record SelectedExactCandidate : Type 0 where
  pub base : Option LockedRelease
  pub candidate : PolicyRelease
  pub age_seconds : ℕ
  pub dormant_gap : Option PublicationGap

-- The seconds of the minimum age.
abbrev pub age_floor : ℕ
age_floor = min_release_age_days * seconds_per_day

-- Both checks for a duplicate: the versions that were inserted so far come first.
unfoldable pub insert_versions :
    {A : Type 0}
    → (A → Version)
    → PolicyError
    → List Version
    → List A
    → Result PolicyError (Unit {0})
insert_versions version duplicate seen [] = ok tt
insert_versions version duplicate seen (r ∷ releases) =
    ensure (not (any (same_key (version r)) seen)) duplicate
    >> insert_versions version duplicate (version r ∷ seen) releases

abbrev pub validate_unique_versions : List PolicyRelease → Result PolicyError (Unit {0})
validate_unique_versions = insert_versions (λ r. r.version) duplicate_upstream []

abbrev pub validate_unique_locked_versions : List LockedRelease → Result PolicyError (Unit {0})
validate_unique_locked_versions = insert_versions (λ r. r.version) duplicate_locked []

-- `upstream.get(&version_key(version))`: the last release with the key is the one in the map.
unfoldable pub upstream_get : Version → List PolicyRelease → Option PolicyRelease
upstream_get version [] = none
upstream_get version (r ∷ history) =
    let later = upstream_get version history in
    elim later [ some x ↦ some x | none ↦ if same_key r.version version then some r else none ]

abbrev pub check_published : UtcTimestamp → PolicyRelease → Result PolicyError (Unit {0})
check_published evaluation_time release =
    elapsed evaluation_time release.published_at >>= λ age. ok tt

abbrev pub check_locked : List PolicyRelease → LockedRelease → Result PolicyError (Unit {0})
check_locked history release = do
  observed ← ok_or (upstream_get release.version history) locked_absent
  ensure (same_time observed.published_at release.published_at) time_changed

-- The checks that both selections begin with.
unfoldable pub check_inputs :
    UtcTimestamp → List PolicyRelease → List LockedRelease → Result PolicyError (Unit {0})
check_inputs evaluation_time history locked = do
  validate_unique_versions history
  validate_unique_locked_versions locked
  each (check_published evaluation_time) history
  each (check_locked history) locked

-- `duration_since(...).is_ok_and(|age| age >= minimum)`.
abbrev pub is_old : UtcTimestamp → PolicyRelease → Bool
is_old evaluation_time release = elim (elapsed evaluation_time release.published_at) [
  | ok age ↦ leb age_floor age
  | err e ↦ false
]

module _ (leb_version : Version → Version → Bool) where
  abbrev pub leb_locked : LockedRelease → LockedRelease → Bool
  leb_locked a b = lexicographic leb_version a.published_at a.version b.published_at b.version

  abbrev pub leb_release : PolicyRelease → PolicyRelease → Bool
  leb_release a b = leb_version a.version b.version

  abbrev pub leb_locked_version : LockedRelease → LockedRelease → Bool
  leb_locked_version a b = leb_version a.version b.version

  abbrev pub is_prior : PolicyRelease → LockedRelease → Bool
  is_prior candidate release = leb_time release.published_at candidate.published_at

  abbrev pub latest_base : List LockedRelease → PolicyRelease → Option LockedRelease
  latest_base locked candidate = max_by leb_locked (keep (is_prior candidate) locked)

  abbrev pub is_lane : CompatibilityLane → LockedRelease → Bool
  is_lane lane release = in_lane lane (implicit_lane release.version)

  abbrev pub latest_lane_base :
      CompatibilityLane → List LockedRelease → PolicyRelease → Option LockedRelease
  latest_lane_base lane locked candidate = latest_base (keep (is_lane lane) locked) candidate

  -- `active_maxima.get(&lane)` and `active_maxima.insert(lane, release)`.
  abbrev pub Maxima : Type 0
  Maxima = List (CompatibilityLane × LockedRelease)

  abbrev pub get : CompatibilityLane → Maxima → Option LockedRelease
  get lane [] = none
  get lane (e ∷ maxima) = if same_lane e.0 lane then some e.1 else get lane maxima

  abbrev pub insert : CompatibilityLane → LockedRelease → Maxima → Maxima
  insert lane release maxima =
      (lane, release)
      ∷ keep (λ (e : CompatibilityLane × LockedRelease). not (same_lane e.0 lane)) maxima

  abbrev pub raise : CompatibilityLane → LockedRelease → Maxima → Option LockedRelease → Maxima
  raise lane release maxima none = insert lane release maxima
  raise lane release maxima (some previous) =
      if leb_version release.version previous.version then maxima else insert lane release maxima

  abbrev pub observe : LockedRelease → Option CompatibilityLane → Maxima → Maxima
  observe release none maxima = maxima
  observe release (some lane) maxima = raise lane release maxima (get lane maxima)

  unfoldable pub active_maxima : List LockedRelease → Maxima → Maxima
  active_maxima [] maxima = maxima
  active_maxima (release ∷ locked) maxima =
      active_maxima locked
        (if release.active then observe release (implicit_lane release.version) maxima else maxima)

  -- The candidates of a lane: its releases that are not yanked, are newer than its active maximum,
  -- and are old enough.
  abbrev pub is_eligible : UtcTimestamp → CompatibilityLane → LockedRelease → PolicyRelease → Bool
  is_eligible evaluation_time lane active_maximum release =
      in_lane lane (implicit_lane release.version)
      && (not release.yanked && not (leb_version release.version active_maximum.version))
      && is_old evaluation_time release

  unfoldable pub describe :
      UtcTimestamp
      → List PolicyRelease
      → List LockedRelease
      → CompatibilityLane
      → LockedRelease
      → PolicyRelease
      → Result PolicyError SelectedCandidate
  describe evaluation_time history locked lane active_maximum candidate = do
    base ← ok_or (latest_lane_base lane locked candidate) no_locked_base
    age_seconds ← elapsed evaluation_time candidate.published_at
    dormant_gap ← first_dormant_gap leb_version history base candidate
    ok (record {
      lane = lane;
      active_lane_maximum = active_maximum.version;
      base = base;
      candidate = candidate;
      age_seconds = age_seconds;
      dormant_gap = dormant_gap;
    })

  module _ (evaluation_time : UtcTimestamp) (history : List PolicyRelease)
      (locked : List LockedRelease) where
    abbrev pub eligible : CompatibilityLane → LockedRelease → Option PolicyRelease
    eligible lane active_maximum =
        max_by leb_release (keep (is_eligible evaluation_time lane active_maximum) history)

    unfoldable pub select_lanes : Maxima → Result PolicyError (List SelectedCandidate)
    select_lanes [] = ok []
    select_lanes (e ∷ maxima) = elim (eligible e.0 e.1) [
      | none ↦ select_lanes maxima
      | some candidate ↦
          (describe evaluation_time history locked e.0 e.1 candidate >>= λ selected.
          select_lanes maxima >>= λ rest. ok (selected ∷ rest))
    ]

    -- The map's entries in the order of the lanes.
    abbrev pub lanes_in_order : Maxima
    lanes_in_order =
        sort_by
          (λ (a : CompatibilityLane × LockedRelease) (b : CompatibilityLane × LockedRelease).
            leb_lane a.0 b.0)
          (active_maxima locked [])

    unfoldable pub select_implicit_candidates : Result PolicyError (List SelectedCandidate)
    unfolding select_lanes
    select_implicit_candidates =
        check_inputs evaluation_time history locked >> select_lanes lanes_in_order

    abbrev pub gap_after_base :
        PolicyRelease → Option LockedRelease → Result PolicyError (Option PublicationGap)
    gap_after_base candidate none = ok none
    gap_after_base candidate (some base) = first_dormant_gap leb_version history base candidate

    abbrev pub has_base : List LockedRelease → Option LockedRelease → Bool
    has_base [] base = true
    has_base (r ∷ rs) none = false
    has_base (r ∷ rs) (some base) = true

    unfoldable pub select_exact_candidate : Version → Result PolicyError SelectedExactCandidate
    select_exact_candidate requested = do
      check_inputs evaluation_time history locked
      ensure (not (any (λ (release : LockedRelease). same_key release.version requested) locked))
          already_locked
      candidate ← ok_or (upstream_get requested history) request_absent
      ensure (not candidate.yanked) yanked_upstream
      age_seconds ← elapsed evaluation_time candidate.published_at
      ensure (leb age_floor age_seconds) too_young
      ensure (has_base locked (latest_base locked candidate)) predates_bases
      dormant_gap ← gap_after_base candidate (latest_base locked candidate)
      ok (record {
        base = latest_base locked candidate;
        candidate = candidate;
        age_seconds = age_seconds;
        dormant_gap = dormant_gap;
      })

    -- The greatest active release of the lane.
    abbrev pub lane_maximum : CompatibilityLane → Option LockedRelease
    lane_maximum lane =
        max_by leb_locked_version
          (keep (is_lane lane) (keep (λ (release : LockedRelease). release.active) locked))

    unfoldable pub select_exact_implicit_candidate :
        CompatibilityLane → Version → Result PolicyError SelectedCandidate
    select_exact_implicit_candidate lane requested = do
      exact ← select_exact_candidate requested
      ensure (in_lane lane (implicit_lane exact.candidate.version)) outside_lane
      active_maximum ← ok_or (lane_maximum lane) no_active_identity
      ensure (not (leb_version exact.candidate.version active_maximum.version)) not_newer
      base ← ok_or (latest_lane_base lane locked exact.candidate) no_locked_base
      dormant_gap ← first_dormant_gap leb_version history base exact.candidate
      ok (record {
        lane = lane;
        active_lane_maximum = active_maximum.version;
        base = base;
        candidate = exact.candidate;
        age_seconds = exact.age_seconds;
        dormant_gap = dormant_gap;
      })
