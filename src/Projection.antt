-- ===== src/Projection.antt =====
-- The projected responses of rust/src/projection.rs that the HTTP policy serves. The version of a
-- crate stands as its printed form, the only thing that is read of it here.
use pkgre.Prelude.{◌++◌, Bytes, codes, Option, none, some}

pub data ProjectedRepresentation : Type 0 where
  metadata_json metadata_text archive redirect : ProjectedRepresentation

pub data RedirectDestination : Type 0 where
  crates_io : (name : Bytes) → (version : Bytes) → RedirectDestination
  first_party : (sha256 : Bytes) → RedirectDestination

-- `ProjectedResponse`, by its source.
pub data ProjectedResponse : Type 0 where
  inline : (body : Bytes) → ProjectedRepresentation → ProjectedResponse
  archive : (body : Bytes) → (sha256 : Bytes) → ProjectedResponse
  redirect : RedirectDestination → ProjectedResponse

unfoldable pub representation : ProjectedResponse → ProjectedRepresentation
representation (ProjectedResponse.inline body shown) = shown
representation (ProjectedResponse.archive body sha256) = ProjectedRepresentation.archive
representation (ProjectedResponse.redirect destination) = ProjectedRepresentation.redirect

unfoldable pub shared_body : ProjectedResponse → Option Bytes
shared_body (ProjectedResponse.inline body shown) = some body
shared_body (ProjectedResponse.archive body sha256) = some body
shared_body (ProjectedResponse.redirect destination) = none

unfoldable pub redirect_destination : ProjectedResponse → Option RedirectDestination
redirect_destination (ProjectedResponse.inline body shown) = none
redirect_destination (ProjectedResponse.archive body sha256) = none
redirect_destination (ProjectedResponse.redirect destination) = some destination

-- `RedirectDestination::location`.
unfoldable pub location : RedirectDestination → Bytes
location (crates_io name version) =
    codes "https://static.crates.io/crates/" ++ name ++ codes "/" ++ version ++ codes "/download"
location (first_party sha256) = codes "https://rust.pkg.re/crates/" ++ sha256 ++ codes ".crate"
