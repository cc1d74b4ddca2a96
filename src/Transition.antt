-- ===== src/Transition.antt =====
-- The transition check of rust/src/transition.rs. The two catalogs stand as what loading and
-- validating them gave; reading a retained body and SHA-256 are parameters, and so is the equality
-- of versions. A reason names what the source's message names.
pub mod Evidence
pub mod History
pub mod Successor
use pkgre.Prelude.{
  ℕ, [], ◌∷◌, List, Bytes, beq, any, find, Bool, true, false, not, ◌&&◌, ◌||◌, if◌then◌else◌,
  Option, none, some, Result, ok, err, ◌>>=◌, ◌>>◌, ensure, ok_or,
}
use pkgre.Schema.{
  Source, Registry, Approval, Catalog, PackageState, same_audience, same_state, same_time,
  same_category, same_source, is_retained, is_allowed_download_migration,
}

pub data RejectReason (Version : Type 0) : Type 0 where
  registry_topology : (registry : Bytes) → RejectReason Version
  missing_identity mutated_identity category_move :
      (registry name : Bytes) → (version : Version) → RejectReason Version
  missing_retained_body : RejectReason Version

-- `for` with `?` in its body.
abbrev pub each {ℓ κ} :
    {A : Type ℓ} {E : Type κ} → (A → Result E (Unit {0})) → List A → Result E (Unit {0})
each check [] = ok tt
each check (x ∷ xs) = check x >> each check xs

module _ {Version : Type 0} where
  -- `ensure_topology`, in the order of the source's tests.
  unfoldable pub topology_changed :
      (Version → Version → Bool) → Registry Version → Registry Version → Bool
  topology_changed same_version accepted candidate =
      not (beq accepted.name candidate.name)
      || not (beq accepted.index candidate.index)
      || not (beq accepted.download candidate.download)
        && not (is_allowed_download_migration accepted.name accepted.download candidate.download)
      || not (same_audience accepted.audience candidate.audience)
      || not (same_version accepted.cargo_version candidate.cargo_version)

  module _ (same_version : Version → Version → Bool) where
    unfoldable pub ensure_topology :
        Registry Version → Registry Version → Result (RejectReason Version) (Unit {0})
    unfolding topology_changed
    ensure_topology accepted candidate =
        ensure (not (topology_changed same_version accepted candidate))
          (registry_topology accepted.name)

    -- The body of the loop over the accepted registries.
    unfoldable pub check_registry :
        List (Registry Version) → Registry Version → Result (RejectReason Version) (Unit {0})
    unfolding ensure_topology
    check_registry candidates accepted = do
      candidate ←
          ok_or (find (λ r. beq r.name accepted.name) candidates) (registry_topology accepted.name)
      ensure_topology accepted candidate

    -- The body of the loop over the candidate's registries.
    unfoldable pub check_appeared :
        List (Registry Version) → Registry Version → Result (RejectReason Version) (Unit {0})
    check_appeared accepted candidate =
        ensure (any (λ r. beq r.name candidate.name) accepted) (registry_topology candidate.name)

    -- Equality of `identity_key`.
    abbrev pub same_identity : Approval Version → Approval Version → Bool
    same_identity a b =
        beq a.registry b.registry && beq a.name b.name && same_version a.version b.version

    -- A lookup in the map that is collected from the approvals: the last one of a key is kept.
    unfoldable pub candidate_index :
        List (Approval Version) → Approval Version → Option (Approval Version)
    candidate_index [] wanted = none
    candidate_index (approval ∷ approvals) wanted =
        let later = candidate_index approvals wanted in
        elim later [
          | some found ↦ some found
          | none ↦ if same_identity wanted approval then some approval else none
        ]

    unfoldable pub mutated : Approval Version → Approval Version → Bool
    mutated accepted candidate =
        not (beq accepted.archive_sha256 candidate.archive_sha256)
        || not (beq accepted.index_record_sha256 candidate.index_record_sha256)
        || not (beq accepted.index_row_sha256 candidate.index_row_sha256)
        || not (same_time accepted.admitted_at candidate.admitted_at)
        || not (same_state accepted.state candidate.state)
        || not (same_source same_version accepted.source candidate.source)

    -- The body of the loop over the accepted approvals.
    unfoldable pub check_approval :
        List (Approval Version) → Approval Version → Result (RejectReason Version) (Unit {0})
    unfolding mutated
    check_approval candidates accepted = do
      candidate ←
          ok_or (candidate_index candidates accepted)
            (missing_identity accepted.registry accepted.name accepted.version)
      ensure (not (mutated accepted candidate))
          (mutated_identity accepted.registry accepted.name accepted.version)
      ensure (same_category accepted.category candidate.category)
          (category_move accepted.registry accepted.name accepted.version)

    -- `Delivery::is_retained` of the route that `DownloadCatalog::from_catalog` derives.
    unfoldable pub source_is_retained : Bool → Source Version → Bool
    source_is_retained registry_is_retained Source.crates_io = registry_is_retained
    source_is_retained registry_is_retained (Source.git_tag _ _ _ _ _ _ _) = true

    unfoldable pub route_is_retained : Catalog Version → Approval Version → Bool
    unfolding source_is_retained
    route_is_retained catalog approval =
        source_is_retained
          (any (λ r. is_retained r.delivery && beq r.name approval.registry) catalog.registries)
          approval.source

    -- `retained_route_identities(catalog).contains(identity_key(approval))`.
    unfoldable pub identity_is_retained : Catalog Version → Approval Version → Bool
    unfolding route_is_retained
    identity_is_retained catalog approval =
        any (λ other. route_is_retained catalog other && same_identity other approval)
          catalog.approvals

    module _ (digest : Bytes → Bytes) (read_body : Bytes → Option Bytes) where
      abbrev pub body_matches : Bytes → Option Bytes → Bool
      body_matches sha256 none = false
      body_matches sha256 (some bytes) = beq (digest bytes) sha256

      -- The body of the loop of `verify_retained_bodies`. A body that is missing, is no regular file
      -- or cannot be read is a `none` of `read_body`.
      unfoldable pub verify_body :
          Catalog Version → Approval Version → Result (RejectReason Version) (Unit {0})
      unfolding identity_is_retained
      verify_body catalog approval =
          if not (same_state approval.state PackageState.active)
          then ok tt
          else if not (identity_is_retained catalog approval)
          then ok tt
          else ensure (body_matches approval.archive_sha256 (read_body approval.archive_sha256))
              missing_retained_body

      unfoldable pub check_catalogs :
          Catalog Version → Catalog Version → Result (RejectReason Version) (Unit {0})
      unfolding check_registry check_appeared check_approval verify_body
      check_catalogs accepted candidate = do
        each (check_registry candidate.registries) accepted.registries
        each (check_appeared accepted.registries) candidate.registries
        each (check_approval candidate.approvals) accepted.approvals
        each (verify_body candidate) candidate.approvals

      -- `check_transition`, with `none` for a catalog that does not load or validate.
      unfoldable pub check_transition :
          Option (Catalog Version)
          → Option (Catalog Version)
          → Result (RejectReason Version) (Unit {0})
      unfolding check_catalogs
      check_transition accepted_root candidate_root = do
        accepted ← ok_or accepted_root missing_retained_body
        candidate ← ok_or candidate_root missing_retained_body
        check_catalogs accepted candidate
