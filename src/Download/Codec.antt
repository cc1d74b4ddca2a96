-- ===== src/Download/Codec.antt =====
-- The bytes of a download table, and its comparison with the catalog: rust/src/download.rs. The
-- JSON encoder and decoder are a parameter.
use pkgre.Prelude.{
  ℕ, ◌*◌, ◌≤◌, ◌≡◌, ◌↔◌, refl, sym, arith, [], ◌∷◌, ◌++◌, List, Bytes, length, keep, beq, beq→eq,
  beq_refl, ◌==◌, leb, le→leb, Bool, true, false, ◌&&◌, Option, some, Result, ok, ◌>>=◌, ◌>>◌,
  ensure, ok_or, >>=-eq-ok, ok_inj,
}
use mathlib.Core.Path.{subst}
use pkgre.Schema.{Catalog}
use pkgre.Release.{Version}
use pkgre.Release.Evidence.{ok_or-eq-ok}
use pkgre.Policy.Checks.{ensured}
use pkgre.Download.{
  Delivery, redirect, retained, DownloadRoute, DownloadCatalog, DownloadError, too_large, malformed,
  serialization_failure, not_canonical, differs, same_delivery, from_catalog, validate,
}

abbrev pub max_download_catalog_bytes : ℕ
max_download_catalog_bytes = 16 * 1024 * 1024

pub record Json : Type 0 where
  pub to_vec_pretty : DownloadCatalog → Option Bytes
  pub from_slice : Bytes → Option DownloadCatalog

-- `Delivery::is_retained`.
abbrev pub is_retained : Delivery → Bool
is_retained (retained path) = true
is_retained (redirect url) = false

module _ (json : Json) (to_string : Version → Bytes)
    (same_version leb_version : Version → Version → Bool) where
  unfoldable pub canonical_bytes : DownloadCatalog → Result DownloadError Bytes
  canonical_bytes catalog = do
    validate to_string same_version leb_version catalog
    bytes ← ok_or (json.to_vec_pretty catalog) serialization_failure
    ok (bytes ++ b'\n' ∷ [])

  unfoldable pub parse_canonical : Bytes → Result DownloadError DownloadCatalog
  parse_canonical bytes = do
    ensure (leb (length bytes) max_download_catalog_bytes) too_large
    catalog ← ok_or (json.from_slice bytes) malformed
    validate to_string same_version leb_version catalog
    canonical ← canonical_bytes catalog
    ensure (beq bytes canonical) not_canonical
    ok catalog

  -- The derived equality of tables.
  abbrev pub same_routes : List DownloadRoute → List DownloadRoute → Bool
  same_routes [] [] = true
  same_routes (a ∷ routes) (b ∷ routes') =
      beq a.registry b.registry
      && beq a.name b.name
      && same_version a.version b.version
      && beq a.sha256 b.sha256
      && same_delivery a.delivery b.delivery
      && same_routes routes routes'
  same_routes _ _ = false

  unfoldable pub validate_against_catalog :
      DownloadCatalog → Catalog Version → Result DownloadError (Unit {0})
  validate_against_catalog table catalog =
      let derived = from_catalog to_string same_version leb_version catalog in
      ensure ((table.schema == derived.schema) && same_routes table.routes derived.routes) differs

  abbrev pub identities : List DownloadRoute → List (Bytes × Bytes × Version)
  identities [] = []
  identities (r ∷ routes) = (r.registry, r.name, r.version) ∷ identities routes

  unfoldable pub retained_route_identities : Catalog Version → List (Bytes × Bytes × Version)
  retained_route_identities catalog = identities (
      keep (λ (r : DownloadRoute). is_retained r.delivery)
        (from_catalog to_string same_version leb_version catalog).routes)

  canonical-validate :
      (table : DownloadCatalog) (bytes : Bytes)
      → canonical_bytes table ≡ ok bytes
      → validate to_string same_version leb_version table ≡ ok tt
  unfolding canonical_bytes
  canonical-validate table bytes h =
      let (u, valid, h1) = >>=-eq-ok (validate to_string same_version leb_version table) _ h in
      valid

  -- A text of at most 16 MiB is accepted exactly when it decodes to the table and is what the table
  -- is written as.
  pub parse_canonical_iff :
      (bytes : Bytes) (table : DownloadCatalog)
      → (parse_canonical bytes ≡ ok table) ↔ (
          (length bytes ≤ max_download_catalog_bytes)
          × (json.from_slice bytes ≡ some table)
          × (canonical_bytes table ≡ ok bytes))
  unfolding parse_canonical
  parse_canonical_iff bytes table = (there, back)
    where
      there :
          parse_canonical bytes ≡ ok table
          → (length bytes ≤ max_download_catalog_bytes)
            × (json.from_slice bytes ≡ some table)
            × (canonical_bytes table ≡ ok bytes)
      there h =
          let (small, h1) = ensured (leb (length bytes) max_download_catalog_bytes) too_large _ h in
          let (c, decoded, h2) = >>=-eq-ok (ok_or (json.from_slice bytes) malformed) _ h1 in
          let (u, valid, h3) = >>=-eq-ok (validate to_string same_version leb_version c) _ h2 in
          let (canonical, written, h4) = >>=-eq-ok (canonical_bytes c) _ h3 in
          let (equal, h5) = ensured (beq bytes canonical) not_canonical _ h4 in
          let same : c ≡ table = ok_inj h5 in
          (
            ground (arith, small),
            subst (λ x. json.from_slice bytes ≡ some x) same
                (ok_or-eq-ok (json.from_slice bytes) malformed c decoded),
            subst (λ x. canonical_bytes x ≡ ok bytes) same
                (subst (λ x. canonical_bytes c ≡ ok x) (sym (beq→eq bytes canonical equal))
                  written),
          )

      back :
          (length bytes ≤ max_download_catalog_bytes)
            × (json.from_slice bytes ≡ some table)
            × (canonical_bytes table ≡ ok bytes)
          → parse_canonical bytes ≡ ok table
      back (small, decoded, written) =
          rw
            (
              le→leb (length bytes) max_download_catalog_bytes small,
              decoded,
              canonical-validate table bytes written,
              written,
              beq_refl bytes,
            )
            refl
