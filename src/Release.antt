-- ===== src/Release.antt =====
-- Releases, compatibility lanes and the order of publications: rust/src/update/policy.rs. A version
-- of the semver crate is its numbers and its two texts; the order of versions is a parameter.
pub mod Order
pub mod Lists
pub mod Gap
pub mod Quiet
pub mod Dormant
pub mod Selection
pub mod Evidence
pub mod Exact
pub mod Maxima
pub mod Implicit
pub mod Revalidation
use pkgre.Prelude.{
  ℕ, zero, suc, ◌*◌, [], ◌∷◌, List, Bytes, beq, any, keep, Bool, true, false, not, ◌&&◌, ◌||◌, leb,
  ltb, ◌==◌, if◌then◌else◌, Option, none, some,
}
use pkgre.Schema.{UtcTimestamp}

abbrev pub min_release_age_days : ℕ
min_release_age_days = 30

abbrev pub dormant_release_gap_days : ℕ
dormant_release_gap_days = 365

pub record Version : Type 0 where
  pub major : ℕ
  pub minor : ℕ
  pub patch : ℕ
  pub pre : Bytes
  pub build : Bytes

pub data CompatibilityLane : Type 0 where
  zero_minor : (minor : ℕ) → CompatibilityLane
  major_lane : (major : ℕ) → CompatibilityLane

pub record PolicyRelease : Type 0 where
  pub version : Version
  pub published_at : UtcTimestamp
  pub yanked : Bool

pub record LockedRelease : Type 0 where
  pub version : Version
  pub published_at : UtcTimestamp
  pub active : Bool

pub data PackageActivity : Type 0 where
  new_name inactive_name active_name : PackageActivity

pub record PublicationGap : Type 0 where
  pub before_version : Version
  pub before_published_at : UtcTimestamp
  pub after_version : Version
  pub after_published_at : UtcTimestamp
  pub seconds : ℕ

pub data PolicyError : Type 0 where
  duplicate_upstream duplicate_locked in_future locked_absent time_changed : PolicyError
  no_locked_base already_locked request_absent yanked_upstream too_young : PolicyError
  predates_bases outside_lane no_active_identity not_newer : PolicyError
  predates_base candidate_absent : PolicyError

unfoldable pub implicit_lane : Version → Option CompatibilityLane
implicit_lane version =
    if not (beq version.pre [])
    then none
    else if leb 1 version.major
    then some (major_lane version.major)
    else if ltb 0 version.minor
    then some (zero_minor version.minor)
    else none

abbrev pub same_lane : CompatibilityLane → CompatibilityLane → Bool
same_lane (zero_minor a) (zero_minor b) = a == b
same_lane (major_lane a) (major_lane b) = a == b
same_lane _ _ = false

-- The derived order: the constructors in order, then their numbers.
abbrev pub leb_lane : CompatibilityLane → CompatibilityLane → Bool
leb_lane (zero_minor a) (zero_minor b) = leb a b
leb_lane (zero_minor a) (major_lane b) = true
leb_lane (major_lane a) (zero_minor b) = false
leb_lane (major_lane a) (major_lane b) = leb a b

-- `implicit_lane(version).as_ref() == Some(lane)`.
unfoldable pub in_lane : CompatibilityLane → Option CompatibilityLane → Bool
in_lane lane none = false
in_lane lane (some other) = same_lane other lane

unfoldable pub classify_package : List LockedRelease → PackageActivity
classify_package [] = new_name
classify_package (r ∷ locked) =
    if any (λ (release : LockedRelease). release.active) (r ∷ locked)
    then active_name
    else inactive_name

-- `version_key(a) == version_key(b)`.
unfoldable pub same_key : Version → Version → Bool
same_key a b =
    (a.major == b.major) && (a.minor == b.minor) && (a.patch == b.patch) && beq a.pre b.pre

-- The order of byte strings.
abbrev pub leb_bytes : Bytes → Bytes → Bool
leb_bytes [] ys = true
leb_bytes (x ∷ xs) [] = false
leb_bytes (x ∷ xs) (y ∷ ys) = ltb x y || (x == y && leb_bytes xs ys)

-- The derived order of timestamps: by seconds, then by text.
unfoldable pub leb_time : UtcTimestamp → UtcTimestamp → Bool
leb_time a b = ltb a.seconds b.seconds || (a.seconds == b.seconds && leb_bytes a.text b.text)

-- The order of the pairs of a time and a version.
abbrev pub lexicographic :
    (Version → Version → Bool) → UtcTimestamp → Version → UtcTimestamp → Version → Bool
lexicographic leb_version t v u w =
    if leb_time u t then leb_time t u && leb_version v w else leb_time t u

module _ {ℓ} {A : Type ℓ} (le : A → A → Bool) where
  -- The last greatest element: `Iterator::max_by`.
  abbrev pub max_from : A → List A → A
  max_from best [] = best
  max_from best (x ∷ xs) = max_from (if le best x then x else best) xs

  abbrev pub max_by : List A → Option A
  max_by [] = none
  max_by (x ∷ xs) = some (max_from x xs)

  -- The stable sort: `slice::sort_by`.
  abbrev pub insert_by : A → List A → List A
  insert_by x [] = x ∷ []
  insert_by x (y ∷ ys) = let rest = insert_by x ys in if le x y then x ∷ y ∷ ys else y ∷ rest

  abbrev pub sort_by : List A → List A
  sort_by [] = []
  sort_by (x ∷ xs) = insert_by x (sort_by xs)
