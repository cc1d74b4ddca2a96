-- ===== src/Examples/Policies.antt =====
-- A small catalog, validated, and texts of tags.
use pkgre.Prelude.{
  ◌≡◌, ◌↔◌, refl, [], ◌∷◌, Bytes, codes, arith, beq, beq→eq, beq_refl, Bool, true, false, ◌&&◌,
  ◌==◌, Elem, none, ok, err, split,
}
use pkgre.Category.{CategoryId}
use pkgre.Schema.{
  Audience, PackageState, Source, Registry, Approval, Catalog, PackageKey, router_download_template,
  native_download_template,
}
use pkgre.AcceptedRef.{starts_with, is_ascii, is_lower_hex}
use pkgre.Release.{Version, same_key}
use pkgre.Policy.{
  unsafe_tag, path_traversal, validate_package_name, validate_sha256, validate_registry_alias,
  validate_git_tag, validate_relative_path, package_collision_key,
}
use pkgre.Policy.Topology.{
  Policy, permits_dependency, dependencies_of, canonical_registry_route_base,
  canonical_registry_index, validate_registry_download, check_registry, check_category,
  validate_package_home, check_home, validate_homes, check_source, validate_approval,
  check_approval, validate_catalog,
}
use pkgre.Policy.Tags.{IsRefName, validate_git_tag-IsRefName}
use pkgre.Policy.Checks.{HasCategory}
use pkgre.Release.Order.{same_key_refl}
use pkgre.Download.{download_url, replace, from_catalog, validate}
use pkgre.Download.Derived.{from_catalog-validate}
use pkgre.Examples.Releases.{by_numbers, by_numbers-IsOrder}
use pkgre.Policy.Sound.{IsSound, validate_catalog-IsSound, permits_dependency_iff}

-- A text for the pinned version only.
abbrev to_string : Version → Bytes
to_string version = if_pinned (version.minor == 95)
  where
    if_pinned : Bool → Bytes
    if_pinned true = codes "1.95.0"
    if_pinned false = codes "0.1.0"

abbrev same_version : Version → Version → Bool
same_version a b = same_key a b && beq a.build b.build

abbrev pinned : Version
pinned = record { major = 1; minor = 95; patch = 0; pre = []; build = [] }

abbrev small : Version
small = record { major = 0; minor = 1; patch = 0; pre = []; build = [] }

abbrev general : CategoryId
general = record { registry = codes "main"; local = codes "general" }

abbrev main_registry : Registry Version
main_registry = record {
  name = codes "main";
  index = codes "sparse+https://rust.pkg.re/";
  download = codes "https://static.crates.io/crates";
  audience = Audience.public;
  cargo_version = pinned;
  delivery = none;
}

abbrev digest_text : Bytes
digest_text = codes "0123456789abcdef0123456789abcdef0123456789abcdef0123456789abcdef"

abbrev notify : PackageKey
notify = record { registry = codes "main"; name = codes "notify" }

abbrev notify_approval : Approval Version
notify_approval = record {
  registry = codes "main";
  category = general;
  name = codes "notify";
  version = small;
  archive_sha256 = digest_text;
  index_record_sha256 = digest_text;
  index_row_sha256 = digest_text;
  admission_sha256 = none;
  admitted_at = record { seconds = 0; text = codes "1970-01-01T00:00:00Z" };
  state = PackageState.active;
  source = Source.crates_io;
  declared_in = codes "main.lock";
}

abbrev pub small_catalog : Catalog Version
small_catalog = record {
  schema = 5;
  cname = codes "rust.pkg.re";
  cargo_version = pinned;
  registries = main_registry ∷ [];
  categories = (general, general ∷ []) ∷ [];
  homes_schema = 5;
  homes = (notify, record { registry = codes "main"; category = general }) ∷ [];
  mirror_names = notify ∷ [];
  publish_names = [];
  approvals = notify_approval ∷ [];
}

abbrev small_policy : Policy
small_policy = record {
  registry_urls = (codes "main", codes "sparse+https://rust.pkg.re/") ∷ [];
  category_dependencies = (general, general ∷ []) ∷ [];
}

small_run : validate_catalog to_string same_version small_catalog ≡ ok small_policy
unfolding validate_catalog validate_homes check_registry check_category check_home check_approval
    validate_approval validate_package_home check_source validate_registry_download
    canonical_registry_index canonical_registry_route_base validate_registry_alias
    validate_package_name validate_sha256 router_download_template native_download_template
    package_collision_key same_key is_ascii is_lower_hex
small_run = refl

validate_catalog-IsSound_example : IsSound to_string same_version small_catalog
validate_catalog-IsSound_example =
    validate_catalog-IsSound to_string same_version small_catalog small_policy small_run

permits_dependency_iff_example :
    ((permits_dependency small_policy general general ≡ true)
      ↔ Elem general (dependencies_of small_catalog.categories general))
    × (permits_dependency small_policy general general ≡ true
        → HasCategory to_string same_version small_catalog general
          × HasCategory to_string same_version small_catalog general)
permits_dependency_iff_example =
    permits_dependency_iff to_string same_version small_catalog small_policy general general
      small_run

tag_run : validate_git_tag (codes "release/v1.2.3") ≡ ok tt
unfolding validate_git_tag is_ascii starts_with split
tag_run = refl

validate_git_tag-IsRefName_example : IsRefName (codes "release/v1.2.3")
validate_git_tag-IsRefName_example = validate_git_tag-IsRefName (codes "release/v1.2.3") tag_run

tag_refused : validate_git_tag (codes "a/.b") ≡ err unsafe_tag
unfolding validate_git_tag is_ascii starts_with split
tag_refused = refl

path_refused : validate_relative_path (codes "a/../b") false ≡ err path_traversal
unfolding validate_relative_path is_ascii starts_with split
path_refused = refl

path_dot : validate_relative_path (codes "./") true ≡ ok tt
unfolding validate_relative_path is_ascii starts_with split
path_dot = refl

same_version_refl : (a : Version) → same_version a a ≡ true
same_version_refl a = ground (arith, same_key_refl a, beq_refl a.build)

-- The equality of versions decides their equality.
same_version_iff : (a b : Version) → (same_version a b ≡ true) ↔ (a ≡ b)
unfolding same_key
same_version_iff a b = (
  λ h.
      let major : a.major ≡ b.major = ground arith in
      let minor : a.minor ≡ b.minor = ground arith in
      let patch : a.patch ≡ b.patch = ground arith in
      let pre : a.pre ≡ b.pre = beq→eq a.pre b.pre (ground arith) in
      let build : a.build ≡ b.build = beq→eq a.build b.build (ground arith) in
      λ i. record {
        major = major i;
        minor = minor i;
        patch = patch i;
        pre = pre i;
        build = build i;
      },
  λ e. rw e (same_version_refl b),
)

from_catalog-validate_example :
    validate to_string same_version by_numbers
      (from_catalog to_string same_version by_numbers small_catalog)
    ≡ ok tt
from_catalog-validate_example =
    from_catalog-validate to_string same_version by_numbers same_version_iff by_numbers-IsOrder
      small_catalog small_policy small_run

url_run :
    download_url to_string same_version by_numbers
      (codes "main")
      (codes "notify")
      small
      (codes "ab")
    ≡ codes "https://dl.rust.pkg.re/v1/main/notify/0.1.0/ab"
unfolding download_url replace router_download_template starts_with
url_run = refl
