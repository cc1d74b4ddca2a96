-- ===== src/Policy/Topology.antt =====
-- The validation of a catalog's topology: `validate_catalog` of rust/src/policy.rs. A map or a set is
-- the list of its entries.
use pkgre.Prelude.{
  [], ◌∷◌, ◌++◌, List, Bytes, codes, length, all, any, beq, ◌==◌, Bool, true, false, not, ◌&&◌,
  ◌||◌, if◌then◌else◌, Option, none, some, Result, ok, ◌>>=◌, ◌>>◌, ensure, ok_or,
}
use pkgre.Category.{CategoryId}
use pkgre.Schema.{
  Source, crates_io, git_tag, Registry, Approval, Catalog, PackageKey, PackageHome, schema_version,
  mirror_download, publish_download, router_download_template, native_download_template,
  same_category,
}
use pkgre.Transition.{each}
use pkgre.Release.{Version, same_key}
use pkgre.Policy.{
  PolicyError, validate_package_name, validate_sha256, validate_git_object_id,
  validate_registry_alias, validate_https_repository, validate_git_tag, validate_tag_version,
  validate_relative_path, package_collision_key, bad_cname, topology_schema, homes_schema,
  bad_cargo_version, no_registries, bad_index, mixed_sources, bad_download, registry_cargo,
  duplicate_registry, no_main, no_categories, unknown_category_registry, repeated_dependency,
  unknown_dependency, wrong_registry_key, unknown_home_registry, foreign_category,
  unknown_home_category, name_collision, uninhabited_category, source_without_home,
  home_without_source, unknown_registry, no_home, wrong_home, undeclared_source, wrong_package,
  wrong_cargo, duplicate_approval,
}

abbrev pub host_name : Bytes
host_name = codes "rust.pkg.re"

abbrev pub cargo_pin : Bytes
cargo_pin = codes "1.95.0"

unfoldable pub canonical_registry_route_base : Bytes → Bytes
canonical_registry_route_base name =
    if beq name (codes "main") then codes "/" else codes "/r/" ++ name ++ codes "/"

unfoldable pub canonical_registry_index : Bytes → Bytes
unfolding canonical_registry_route_base
canonical_registry_index name =
    codes "sparse+https://rust.pkg.re" ++ canonical_registry_route_base name

abbrev pub same_package : PackageKey → PackageKey → Bool
same_package a b = beq a.registry b.registry && beq a.name b.name

-- The list without its repetitions: `collect` into a set.
abbrev pub to_set : List CategoryId → List CategoryId
to_set [] = []
to_set (c ∷ cs) = let rest = to_set cs in if any (same_category c) cs then rest else c ∷ rest

-- Every element against the ones before it.
abbrev pub each_after :
    {A E : Type 0} → (List A → A → Result E (Unit {0})) → List A → List A → Result E (Unit {0})
each_after check seen [] = ok tt
each_after check seen (x ∷ xs) = check seen x >> each_after check (x ∷ seen) xs

abbrev pub Homes : Type 0
Homes = List (PackageKey × PackageHome)

abbrev pub Categories : Type 0
Categories = List (CategoryId × List CategoryId)

abbrev pub has_category : Categories → CategoryId → Bool
has_category categories category =
    any (λ (e : CategoryId × List CategoryId). same_category e.0 category) categories

abbrev pub has_home : Homes → PackageKey → Bool
has_home homes key = any (λ (e : PackageKey × PackageHome). same_package e.0 key) homes

abbrev pub home_of : PackageKey → Homes → Option PackageHome
home_of key [] = none
home_of key (e ∷ homes) = if same_package e.0 key then some e.1 else home_of key homes

abbrev pub same_normal_name : Bytes → Bytes → Bool
same_normal_name a b = beq (package_collision_key a) (package_collision_key b)

-- The name last inserted for the registry and the normalized name.
abbrev pub collides : Homes → PackageKey → Bool
collides [] package' = false
collides (e ∷ seen) package' =
    if beq e.0.registry package'.registry && same_normal_name e.0.name package'.name
    then not (beq e.0.name package'.name)
    else collides seen package'

abbrev pub home_categories : Homes → List CategoryId
home_categories [] = []
home_categories (e ∷ homes) = e.1.category ∷ home_categories homes

abbrev pub dependencies_of : Categories → CategoryId → List CategoryId
dependencies_of [] category = []
dependencies_of (e ∷ categories) category =
    if same_category e.0 category then e.1 else dependencies_of categories category

-- `Policy`.
pub record Policy : Type 0 where
  pub registry_urls : List (Bytes × Bytes)
  pub category_dependencies : Categories

-- `Policy::permits_dependency`.
unfoldable pub permits_dependency : Policy → CategoryId → CategoryId → Bool
permits_dependency policy from to =
    any (λ c. same_category c to) (dependencies_of policy.category_dependencies from)

module _ (to_string : Version → Bytes) (same_version : Version → Version → Bool)
    (catalog : Catalog Version) where
  abbrev pub is_registry : Bytes → Bool
  is_registry name = any (λ (r : Registry Version). beq r.name name) catalog.registries

  unfoldable pub validate_registry_download : Registry Version → Result PolicyError (Unit {0})
  validate_registry_download registry =
      let has_mirror =
        any (λ (key : PackageKey). beq key.registry registry.name) catalog.mirror_names in
      let has_publish =
        any (λ (key : PackageKey). beq key.registry registry.name) catalog.publish_names in
      if beq registry.download (router_download_template registry.name)
        || beq registry.download (native_download_template registry.name)
      then ok tt
      else (do
        ensure (not (has_mirror && has_publish)) mixed_sources
        ensure (beq registry.download (if has_publish then publish_download else mirror_download))
            bad_download)

  unfoldable pub check_registry :
      List (Registry Version) → Registry Version → Result PolicyError (Unit {0})
  check_registry seen registry = do
    validate_registry_alias registry.name
    ensure (beq registry.index (canonical_registry_index registry.name)) bad_index
    validate_registry_download registry
    ensure (same_version registry.cargo_version catalog.cargo_version) registry_cargo
    ensure (not (any (λ (r : Registry Version). beq r.name registry.name) seen)) duplicate_registry

  unfoldable pub check_category : CategoryId × List CategoryId → Result PolicyError (Unit {0})
  check_category e = do
    ensure (is_registry e.0.registry) unknown_category_registry
    ensure (length (to_set e.1) == length e.1) repeated_dependency
    each (λ dependency. ensure (has_category catalog.categories dependency) unknown_dependency)
        (to_set e.1)

  unfoldable pub validate_package_home : PackageKey → PackageHome → Result PolicyError (Unit {0})
  validate_package_home package' home = do
    ensure (beq package'.registry home.registry) wrong_registry_key
    ensure (is_registry home.registry) unknown_home_registry
    ensure (beq home.category.registry home.registry) foreign_category
    ensure (has_category catalog.categories home.category) unknown_home_category

  unfoldable pub check_home : Homes → PackageKey × PackageHome → Result PolicyError (Unit {0})
  unfolding validate_package_home
  check_home seen e = do
    validate_package_name e.0.name
    validate_package_home e.0 e.1
    ensure (not (collides seen e.0)) name_collision

  abbrev pub inhabited : List CategoryId
  inhabited = home_categories catalog.homes

  unfoldable pub validate_homes : Result PolicyError (Unit {0})
  unfolding check_home
  validate_homes = do
    each_after check_home [] catalog.homes
    ensure
        (length (to_set inhabited) == length catalog.categories
          && all (λ (e : CategoryId × List CategoryId). any (same_category e.0) inhabited)
              catalog.categories)
        uninhabited_category
    each (λ name. ensure (has_home catalog.homes name) source_without_home)
        (catalog.mirror_names ++ catalog.publish_names)
    each
        (λ (e : PackageKey × PackageHome).
          ensure
            (any (same_package e.0) catalog.mirror_names
              || any (same_package e.0) catalog.publish_names)
            home_without_source)
        catalog.homes

  abbrev pub key_of : Approval Version → PackageKey
  key_of approval = record { registry = approval.registry; name = approval.name }

  abbrev pub is_declared : PackageKey → Source Version → Bool
  is_declared key crates_io = any (same_package key) catalog.mirror_names
  is_declared key (git_tag repository tag tag_oid commit name subdir cargo_version) =
      any (same_package key) catalog.publish_names

  unfoldable pub check_source : Approval Version → Source Version → Result PolicyError (Unit {0})
  check_source approval crates_io = ok tt
  check_source approval (git_tag repository tag tag_oid commit name subdir cargo_version) = do
    ensure (beq name approval.name) wrong_package
    validate_https_repository repository
    validate_git_tag tag
    validate_git_object_id tag_oid
    validate_git_object_id commit
    validate_relative_path subdir true
    ensure (same_version cargo_version catalog.cargo_version) wrong_cargo
    validate_tag_version tag (to_string approval.version)

  unfoldable pub validate_approval : Approval Version → Result PolicyError (Unit {0})
  unfolding check_source
  validate_approval approval = do
    validate_package_name approval.name
    ensure (is_registry approval.registry) unknown_registry
    home ← ok_or (home_of (key_of approval) catalog.homes) no_home
    ensure (beq home.registry approval.registry && same_category home.category approval.category)
        wrong_home
    validate_sha256 approval.archive_sha256
    validate_sha256 approval.index_record_sha256
    validate_sha256 approval.index_row_sha256
    ensure (is_declared (key_of approval) approval.source) undeclared_source
    check_source approval approval.source

  -- The registry, the normalized name, and the version without its build metadata.
  abbrev pub same_identity : Approval Version → Approval Version → Bool
  same_identity a b =
      beq a.registry b.registry && same_normal_name a.name b.name && same_key a.version b.version

  unfoldable pub check_approval :
      List (Approval Version) → Approval Version → Result PolicyError (Unit {0})
  unfolding validate_approval
  check_approval seen approval = do
    validate_approval approval
    ensure (not (any (same_identity approval) seen)) duplicate_approval

  abbrev pub is_empty_list : {A : Type 0} → List A → Bool
  is_empty_list [] = true
  is_empty_list (x ∷ xs) = false

  abbrev pub urls : List (Registry Version) → List (Bytes × Bytes)
  urls [] = []
  urls (r ∷ registries) = (r.name, r.index) ∷ urls registries

  abbrev pub dependency_sets : Categories → Categories
  dependency_sets [] = []
  dependency_sets (e ∷ categories) = (e.0, to_set e.1) ∷ dependency_sets categories

  unfoldable pub validate_catalog : Result PolicyError Policy
  unfolding check_registry check_category validate_homes check_approval
  validate_catalog = do
    ensure (beq catalog.cname host_name) bad_cname
    ensure (catalog.schema == schema_version) topology_schema
    ensure (catalog.homes_schema == schema_version) homes_schema
    ensure (beq (to_string catalog.cargo_version) cargo_pin) bad_cargo_version
    ensure (not (is_empty_list catalog.registries)) no_registries
    each_after check_registry [] catalog.registries
    ensure (is_registry (codes "main")) no_main
    ensure (not (is_empty_list catalog.categories)) no_categories
    each check_category catalog.categories
    validate_homes
    each_after check_approval [] catalog.approvals
    ok (record {
      registry_urls = urls catalog.registries;
      category_dependencies = dependency_sets catalog.categories;
    })
