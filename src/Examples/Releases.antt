-- ===== src/Examples/Releases.antt =====
-- The selection of update candidates on a short history, with an order of versions by their numbers
-- and texts.
use pkgre.Prelude.{
  ℕ, ◌≡◌, refl, arith, [], ◌∷◌, List, codes, Elem, head, tail, Bool, true, false, ◌&&◌, ◌||◌, ltb,
  ◌==◌, if◌then◌else◌, Option, none, some, ok,
}
use pkgre.Schema.{UtcTimestamp}
use pkgre.Time.Stamp.{duration_since}
use pkgre.Release.{
  Version, PolicyRelease, LockedRelease, PublicationGap, major_lane, leb_bytes, leb_time, same_key,
  implicit_lane, in_lane,
}
use pkgre.Release.Order.{IsOrder, bytes_total, bytes_trans, bytes_antisym}
use pkgre.Release.Gap.{first_dormant_gap}
use pkgre.Release.Dormant.{Finds, first_dormant_gap-Finds}
use pkgre.Release.Selection.{
  SelectedCandidate, SelectedExactCandidate, insert_versions, upstream_get, check_inputs,
  active_maxima, describe, select_lanes, select_implicit_candidates, select_exact_candidate,
  select_exact_implicit_candidate,
}
use pkgre.Release.Exact.{IsExact, select_exact_candidate-IsExact}
use pkgre.Release.Implicit.{
  IsActive, IsEligible, IsImplicit, select_implicit_candidates-IsImplicit,
  select_implicit_candidates_complete,
}
use pkgre.Release.Revalidation.{select_exact_implicit_candidate-agrees}

abbrev leb_texts : Version → Version → Bool
leb_texts a b =
    if leb_bytes b.pre a.pre
    then leb_bytes a.pre b.pre && leb_bytes a.build b.build
    else leb_bytes a.pre b.pre

abbrev pub by_numbers : Version → Version → Bool
by_numbers a b =
    ltb a.major b.major
    || (a.major == b.major
        && (ltb a.minor b.minor
            || (a.minor == b.minor
                && (ltb a.patch b.patch || (a.patch == b.patch && leb_texts a b)))))

texts_trans : (a b c : Version) → leb_texts a b ≡ true → leb_texts b c ≡ true → leb_texts a c ≡ true
texts_trans a b c h k = ground (
  arith,
  bytes_trans a.pre b.pre c.pre,
  bytes_trans c.pre b.pre a.pre,
  bytes_trans b.pre c.pre a.pre,
  bytes_trans c.pre a.pre b.pre,
  bytes_total a.pre c.pre,
  bytes_trans a.build b.build c.build,
)

texts_total : (a b : Version) → leb_texts a b ≡ false → leb_texts b a ≡ true
texts_total a b h =
    ground (arith, bytes_total a.pre b.pre, bytes_total b.pre a.pre, bytes_total a.build b.build)

pub by_numbers-IsOrder : IsOrder by_numbers
by_numbers-IsOrder = record {
  preorder = record {
    total = λ a b h. ground (arith, texts_total a b);
    trans = λ a b c h k. ground (arith, texts_trans a b c);
  };
  antisym = λ a b h k.
      let major : a.major ≡ b.major = ground arith in
      let minor : a.minor ≡ b.minor = ground arith in
      let patch : a.patch ≡ b.patch = ground arith in
      let pre : a.pre ≡ b.pre = bytes_antisym a.pre b.pre (ground arith) (ground arith) in
      let build : a.build ≡ b.build = bytes_antisym a.build b.build (ground arith) (ground arith) in
      λ i. record {
        major = major i;
        minor = minor i;
        patch = patch i;
        pre = pre i;
        build = build i;
      };
}

abbrev version_of : ℕ → Version
version_of patch = record { major = 1; minor = 0; patch = patch; pre = []; build = [] }

abbrev first_time : UtcTimestamp
first_time = record { seconds = 1704067200; text = codes "2024-01-01T00:00:00Z" }

abbrev second_time : UtcTimestamp
second_time = record { seconds = 1738627200; text = codes "2025-02-04T00:00:00Z" }

abbrev now : UtcTimestamp
now = record { seconds = 1742083200; text = codes "2025-03-16T00:00:00Z" }

abbrev old_release : PolicyRelease
old_release = record { version = version_of 0; published_at = first_time; yanked = false }

abbrev next_release : PolicyRelease
next_release = record { version = version_of 1; published_at = second_time; yanked = false }

abbrev releases : List PolicyRelease
releases = old_release ∷ next_release ∷ []

abbrev locked_release : LockedRelease
locked_release = record { version = version_of 0; published_at = first_time; active = true }

abbrev locked_releases : List LockedRelease
locked_releases = locked_release ∷ []

abbrev gap_found : PublicationGap
gap_found = record {
  before_version = version_of 0;
  before_published_at = first_time;
  after_version = version_of 1;
  after_published_at = second_time;
  seconds = 34560000;
}

abbrev implicit_choice : SelectedCandidate
implicit_choice = record {
  lane = major_lane 1;
  active_lane_maximum = version_of 0;
  base = locked_release;
  candidate = next_release;
  age_seconds = 3456000;
  dormant_gap = some gap_found;
}

abbrev exact_choice : SelectedExactCandidate
exact_choice = record {
  base = some locked_release;
  candidate = next_release;
  age_seconds = 3456000;
  dormant_gap = some gap_found;
}

inputs_pass : check_inputs now releases locked_releases ≡ ok tt
unfolding check_inputs insert_versions upstream_get same_key duration_since
inputs_pass = refl

implicit_run :
    select_implicit_candidates by_numbers now releases locked_releases ≡ ok (implicit_choice ∷ [])
unfolding select_implicit_candidates select_lanes describe active_maxima check_inputs
    insert_versions upstream_get same_key duration_since first_dormant_gap leb_time implicit_lane
    in_lane
implicit_run = refl

exact_run :
    select_exact_candidate by_numbers now releases locked_releases (version_of 1) ≡ ok exact_choice
unfolding select_exact_candidate check_inputs insert_versions upstream_get same_key duration_since
    first_dormant_gap leb_time
exact_run = refl

in_history : Elem next_release releases
in_history = tail head

bases_in_order : leb_time first_time second_time ≡ true
unfolding leb_time
bases_in_order = refl

fresh_release :
    (r : LockedRelease) → Elem r locked_releases → same_key r.version (version_of 1) ≡ false
unfolding same_key
fresh_release r head = refl
fresh_release r (tail e) = elim e [ ]

is_active :
    IsActive by_numbers by_numbers-IsOrder.preorder now releases locked_releases
      (major_lane 1)
      locked_release
unfolding implicit_lane
is_active = record { among = head; active = refl; in_lane = refl }

newer_release :
    (r : LockedRelease) → Elem r locked_releases → by_numbers (version_of 1) r.version ≡ false
newer_release r head = refl
newer_release r (tail e) = elim e [ ]

is_eligible :
    IsEligible by_numbers by_numbers-IsOrder.preorder now releases locked_releases
      (major_lane 1)
      next_release
unfolding implicit_lane
is_eligible = record {
  upstream = in_history;
  in_lane = refl;
  not_yanked = refl;
  old = omega arith;
  newer = λ r a. newer_release r a.among;
}

first_dormant_gap-Finds_example :
    (g : Option PublicationGap) × (first_dormant_gap by_numbers releases locked_release next_release
      ≡ ok g)
    × Finds by_numbers by_numbers-IsOrder.preorder releases locked_release next_release g
first_dormant_gap-Finds_example =
    first_dormant_gap-Finds by_numbers by_numbers-IsOrder.preorder releases locked_release
      next_release bases_in_order in_history

select_exact_candidate-IsExact_example :
    IsExact by_numbers by_numbers-IsOrder.preorder now releases locked_releases
      (version_of 1)
      exact_choice
select_exact_candidate-IsExact_example =
    select_exact_candidate-IsExact by_numbers by_numbers-IsOrder.preorder now releases
      locked_releases (version_of 1) exact_choice exact_run

select_implicit_candidates-IsImplicit_example :
    IsImplicit by_numbers by_numbers-IsOrder.preorder now releases locked_releases implicit_choice
select_implicit_candidates-IsImplicit_example =
    select_implicit_candidates-IsImplicit by_numbers by_numbers-IsOrder.preorder now releases
      locked_releases (implicit_choice ∷ []) implicit_choice implicit_run head

select_implicit_candidates_complete_example :
    (s : SelectedCandidate) × Elem s (implicit_choice ∷ []) × (s.lane ≡ major_lane 1)
select_implicit_candidates_complete_example =
    select_implicit_candidates_complete by_numbers by_numbers-IsOrder.preorder now releases
      locked_releases (implicit_choice ∷ []) (major_lane 1) locked_release next_release implicit_run
      is_active is_eligible

select_exact_implicit_candidate-agrees_example :
    select_exact_implicit_candidate by_numbers now releases locked_releases
      (major_lane 1)
      (version_of 1)
    ≡ ok implicit_choice
select_exact_implicit_candidate-agrees_example =
    select_exact_implicit_candidate-agrees by_numbers by_numbers-IsOrder now releases
      locked_releases (implicit_choice ∷ []) implicit_choice implicit_run head fresh_release

-- A release that was removed, and that is greater than every active one, is selected again, with
-- itself as its base.
abbrev removed_release : LockedRelease
removed_release = record { version = version_of 1; published_at = second_time; active = false }

abbrev repeated_choice : SelectedCandidate
repeated_choice = record implicit_choice { base = removed_release; dormant_gap = none }

removed_run :
    select_implicit_candidates by_numbers now releases (locked_release ∷ removed_release ∷ [])
    ≡ ok (repeated_choice ∷ [])
unfolding select_implicit_candidates select_lanes describe active_maxima check_inputs
    insert_versions upstream_get same_key duration_since first_dormant_gap leb_time implicit_lane
    in_lane
removed_run = refl
