-- ===== src/Download.antt =====
-- The table of download routes: rust/src/download.rs. The text, the equality and the order of
-- versions are those of the semver crate, which are parameters.
pub mod Order
pub mod Derived
pub mod Codec
use pkgre.Prelude.{
  ℕ, zero, suc, ◌-◌, [], ◌∷◌, ◌++◌, List, Bytes, codes, length, any, beq, ◌==◌, Bool, true, false,
  not, ◌&&◌, ◌||◌, if◌then◌else◌, Option, none, some, Result, ok, err, ◌>>=◌, ◌>>◌, ensure,
}
use pkgre.AcceptedRef.{starts_with}
use pkgre.Schema.{
  Source, crates_io, git_tag, Registry, Approval, Catalog, router_download_template, is_retained,
}
use pkgre.Release.{Version, leb_bytes, sort_by}
use pkgre.Policy.{
  PolicyError, lower, validate_registry_alias, validate_package_name, validate_sha256,
}
use pkgre.Policy.Topology.{each_after}

abbrev pub download_catalog_schema : ℕ
download_catalog_schema = 2

pub data Delivery : Type 0 where
  redirect retained : Bytes → Delivery

pub record DownloadRoute : Type 0 where
  pub registry : Bytes
  pub name : Bytes
  pub version : Version
  pub sha256 : Bytes
  pub delivery : Delivery

pub record DownloadCatalog : Type 0 where
  pub schema : ℕ
  pub routes : List DownloadRoute

pub data DownloadError : Type 0 where
  bad_schema not_ordered duplicate_identity wrong_redirect wrong_path : DownloadError
  too_large malformed serialization_failure not_canonical differs : DownloadError
  invalid : PolicyError → DownloadError

-- `str::replace`: the matches from left to right, without overlaps. The number is how many bytes of
-- the last match are left.
unfoldable pub replace : Bytes → Bytes → ℕ → Bytes → Bytes
replace needle text left [] = []
replace needle text (suc left) (c ∷ value) = replace needle text left value
replace needle text zero (c ∷ value) =
    let past = replace needle text (length needle - 1) value in
    let rest = replace needle text zero value in
    if starts_with needle (c ∷ value) then text ++ past else c ∷ rest

unfoldable pub retained_object_path : Bytes → Bytes → Bytes
retained_object_path registry sha256 =
    registry ++ codes "/objects/crates/" ++ sha256 ++ codes ".crate"

abbrev pub lowercase : Bytes → Bytes
lowercase [] = []
lowercase (c ∷ name) = lower c ∷ lowercase name

-- The derived order: the constructors in order, then their texts.
abbrev pub leb_delivery : Delivery → Delivery → Bool
leb_delivery (redirect a) (redirect b) = leb_bytes a b
leb_delivery (redirect a) (retained b) = true
leb_delivery (retained a) (redirect b) = false
leb_delivery (retained a) (retained b) = leb_bytes a b

abbrev pub same_delivery : Delivery → Delivery → Bool
same_delivery (redirect a) (redirect b) = beq a b
same_delivery (retained a) (retained b) = beq a b
same_delivery _ _ = false

-- The order by a first, then by a second part.
abbrev pub then_by : {A : Type 0} → (A → A → Bool) → (A → A → Bool) → A → A → Bool
then_by first second a b = if first b a then first a b && second a b else first a b

-- `result.context(...)`.
abbrev pub context : Result PolicyError (Unit {0}) → Result DownloadError (Unit {0})
context (ok tt) = ok tt
context (err e) = err (invalid e)

module _ (to_string : Version → Bytes) (same_version leb_version : Version → Version → Bool) where
  unfoldable pub download_url : Bytes → Bytes → Version → Bytes → Bytes
  unfolding replace router_download_template
  download_url registry name version sha256 = replace (codes "{sha256-checksum}") sha256 0 (
      replace (codes "{version}") (to_string version) 0
        (replace (codes "{crate}") name 0 (router_download_template registry)))

  abbrev pub by_registry : DownloadRoute → DownloadRoute → Bool
  by_registry a b = leb_bytes a.registry b.registry

  abbrev pub by_lowercase : DownloadRoute → DownloadRoute → Bool
  by_lowercase a b = leb_bytes (lowercase a.name) (lowercase b.name)

  abbrev pub by_name : DownloadRoute → DownloadRoute → Bool
  by_name a b = leb_bytes a.name b.name

  abbrev pub by_version : DownloadRoute → DownloadRoute → Bool
  by_version a b = leb_version a.version b.version

  abbrev pub by_sha256 : DownloadRoute → DownloadRoute → Bool
  by_sha256 a b = leb_bytes a.sha256 b.sha256

  abbrev pub by_delivery : DownloadRoute → DownloadRoute → Bool
  by_delivery a b = leb_delivery a.delivery b.delivery

  -- `route_order(a, b)` is not `Greater`.
  unfoldable pub leb_route : DownloadRoute → DownloadRoute → Bool
  leb_route =
      then_by by_registry (
        then_by by_lowercase (then_by by_name (then_by by_version (then_by by_sha256 by_delivery))))

  unfoldable pub from_routes : List DownloadRoute → DownloadCatalog
  from_routes routes = record {
    schema = download_catalog_schema;
    routes = sort_by leb_route routes;
  }

  module _ (catalog : Catalog Version) where
    abbrev pub is_retained_registry : Bytes → Bool
    is_retained_registry name =
        any (λ (r : Registry Version). is_retained r.delivery && beq r.name name) catalog.registries

    abbrev pub delivery_of : Approval Version → Source Version → Delivery
    delivery_of approval crates_io =
        if is_retained_registry approval.registry
        then retained (retained_object_path approval.registry approval.archive_sha256)
        else redirect
            (download_url approval.registry approval.name approval.version approval.archive_sha256)
    delivery_of approval (git_tag repository tag tag_oid commit name subdir cargo_version) =
        retained (retained_object_path approval.registry approval.archive_sha256)

    abbrev pub route_of : Approval Version → DownloadRoute
    route_of approval = record {
      registry = approval.registry;
      name = approval.name;
      version = approval.version;
      sha256 = approval.archive_sha256;
      delivery = delivery_of approval approval.source;
    }

    abbrev pub routes_of : List (Approval Version) → List DownloadRoute
    routes_of [] = []
    routes_of (a ∷ approvals) = route_of a ∷ routes_of approvals

    unfoldable pub from_catalog : DownloadCatalog
    from_catalog = from_routes (routes_of catalog.approvals)

  -- The registry, the name and the version: the set of the source compares versions by their order,
  -- which agrees with their equality.
  abbrev pub same_route : DownloadRoute → DownloadRoute → Bool
  same_route a b =
      beq a.registry b.registry && beq a.name b.name && same_version a.version b.version

  -- `route_order(prior, route).is_lt()`, if there is a prior route.
  abbrev pub follows : List DownloadRoute → DownloadRoute → Bool
  follows [] route = true
  follows (prior ∷ seen) route = not (leb_route route prior)

  abbrev pub check_delivery : DownloadRoute → Delivery → Result DownloadError (Unit {0})
  check_delivery route (redirect url) =
      ensure (beq url (download_url route.registry route.name route.version route.sha256))
        wrong_redirect
  check_delivery route (retained path) =
      ensure (beq path (retained_object_path route.registry route.sha256)) wrong_path

  unfoldable pub check_route : List DownloadRoute → DownloadRoute → Result DownloadError (Unit {0})
  check_route seen route = do
    context (validate_registry_alias route.registry)
    context (validate_package_name route.name)
    context (validate_sha256 route.sha256)
    ensure (follows seen route) not_ordered
    ensure (not (any (same_route route) seen)) duplicate_identity
    check_delivery route route.delivery

  unfoldable pub validate : DownloadCatalog → Result DownloadError (Unit {0})
  unfolding check_route
  validate catalog = do
    ensure (catalog.schema == download_catalog_schema) bad_schema
    each_after check_route [] catalog.routes
