-- ===== src/Schema.antt =====
-- The catalog as rust/src/schema.rs loads it, without its directory, and the download
-- templates of rust/src/download.rs. The version of a package is of the type of the semver crate,
-- which is a parameter, with its equality.
use pkgre.Prelude.{
  ℕ, ◌++◌, List, Bytes, codes, beq, Bool, true, false, ◌&&◌, ◌||◌, ◌==◌, Option, some,
}
use pkgre.Category.{CategoryId}

pub data Audience : Type 0 where
  public lan_public : Audience

pub data RegistryDelivery : Type 0 where
  redirect retained : RegistryDelivery

pub data PackageState : Type 0 where
  active removed : PackageState

-- `UtcTimestamp` of rust/src/update/time.rs.
pub record UtcTimestamp : Type 0 where
  pub seconds : ℕ
  pub text : Bytes

pub data Source (Version : Type 0) : Type 0 where
  crates_io : Source Version
  git_tag :
      (repository tag tag_oid commit name subdir : Bytes)
      → (cargo_version : Version) → Source Version

pub record Registry (Version : Type 0) : Type 0 where
  pub name : Bytes
  pub index : Bytes
  pub download : Bytes
  pub audience : Audience
  pub cargo_version : Version
  pub delivery : Option RegistryDelivery

pub record Approval (Version : Type 0) : Type 0 where
  pub registry : Bytes
  pub category : CategoryId
  pub name : Bytes
  pub version : Version
  pub archive_sha256 : Bytes
  pub index_record_sha256 : Bytes
  pub index_row_sha256 : Bytes
  pub admission_sha256 : Option Bytes
  pub admitted_at : UtcTimestamp
  pub state : PackageState
  pub source : Source Version
  pub declared_in : Bytes

pub record PackageKey : Type 0 where
  pub registry : Bytes
  pub name : Bytes

pub record PackageHome : Type 0 where
  pub registry : Bytes
  pub category : CategoryId

-- The fields of `RegistriesFile` and `HomesFile` stand in the catalog itself. A map is the list of
-- its entries.
pub record Catalog (Version : Type 0) : Type 0 where
  pub schema : ℕ
  pub cname : Bytes
  pub cargo_version : Version
  pub registries : List (Registry Version)
  pub categories : List (CategoryId × List CategoryId)
  pub homes_schema : ℕ
  pub homes : List (PackageKey × PackageHome)
  pub mirror_names : List PackageKey
  pub publish_names : List PackageKey
  pub approvals : List (Approval Version)

abbrev pub schema_version : ℕ
schema_version = 5

abbrev pub mirror_download : Bytes
mirror_download = codes "https://static.crates.io/crates"

abbrev pub publish_download : Bytes
publish_download = codes "https://rust.pkg.re/crates/{sha256-checksum}.crate"

abbrev template_tail : Bytes
template_tail = codes "/{crate}/{version}/{sha256-checksum}"

unfoldable pub router_download_template : Bytes → Bytes
router_download_template registry =
    codes "https://dl.rust.pkg.re" ++ codes "/v1/" ++ registry ++ template_tail

unfoldable pub native_download_template : Bytes → Bytes
native_download_template registry =
    codes "https://rust.pkg.re" ++ codes "/v1/" ++ registry ++ template_tail

unfoldable pub is_allowed_download_migration : Bytes → Bytes → Bytes → Bool
is_allowed_download_migration registry before after =
    beq before after
    || beq before publish_download && beq after mirror_download
    || (beq before mirror_download || beq before publish_download)
      && beq after (router_download_template registry)
    || beq before (router_download_template registry)
      && beq after (native_download_template registry)

-- The derived equalities.
abbrev pub same_audience : Audience → Audience → Bool
same_audience public public = true
same_audience lan_public lan_public = true
same_audience _ _ = false

abbrev pub same_state : PackageState → PackageState → Bool
same_state active active = true
same_state removed removed = true
same_state _ _ = false

abbrev pub same_time : UtcTimestamp → UtcTimestamp → Bool
same_time a b = (a.seconds == b.seconds) && beq a.text b.text

abbrev pub same_category : CategoryId → CategoryId → Bool
same_category a b = beq a.registry b.registry && beq a.local b.local

abbrev pub is_retained : Option RegistryDelivery → Bool
is_retained (some RegistryDelivery.retained) = true
is_retained _ = false

module _ {Version : Type 0} (same_version : Version → Version → Bool) where
  unfoldable pub same_source : Source Version → Source Version → Bool
  same_source crates_io crates_io = true
  same_source (git_tag repository tag tag_oid commit name subdir cargo)
        (git_tag repository' tag' tag_oid' commit' name' subdir' cargo') =
      beq repository repository'
      && beq tag tag'
      && beq tag_oid tag_oid'
      && beq commit commit'
      && beq name name'
      && beq subdir subdir'
      && same_version cargo cargo'
  same_source _ _ = false
