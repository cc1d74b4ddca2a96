-- ===== src/Admission/Covered.antt =====
-- Every identity of a catalog that names an admission batch stands in one: `validate_admission_inventory`
-- of rust/src/update/admission.rs.
use mathlib.Core.Path.{subst}
use pkgre.Prelude.{
  ◌≡◌, ◌⊎◌, inl, inr, refl, [], ◌∷◌, ◌++◌, List, Bytes, codes, Elem, head, tail, any, beq, not,
  true, some, ok, ok_inj, ensure, map_err, >>=-eq-ok,
}
use pkgre.Schema.{Approval, Catalog}
use pkgre.Release.{Version}
use pkgre.Transition.Evidence.{and_then, ensure_passes}
use pkgre.Plan.{UpdateCandidate}
use pkgre.Plan.Reasons.{no_element}
use pkgre.Plan.Steps.{map_err-eq-ok}
use pkgre.Manifest.{AdmissionManifest}
use pkgre.Manifest.Codec.{load_admission_manifest, serialize_admission_manifest}
use pkgre.Admission.{
  Tools, AdmissionLock, AdmissionIdentity, Entries, approval_identity, bad_manifest,
  unbound_manifest, repeated_batch, uncovered_identity, missing_batches,
}
use pkgre.Admission.Lock.{load_admission_lock}
use pkgre.Admission.Directory.{
  Tree, DirEntry, absent, other_kind, directory, validate_admission_tree_structure,
}
use pkgre.Admission.Inventory.{
  admission_bound_approvals, Progress, find_file, stems, cover_batch, cover_batches, cover_tree,
  validate_admission_inventory,
}
use pkgre.Admission.Requested.{LoadsLock, IsAdmitted, load_admission_lock-IsBatch}
use pkgre.Admission.Bound.{Binds, cover_candidates-Binds, admission_bound_approvals-Elem, nothing}

module _ (tools : Tools) where
  -- A batch of the directory covers the approval: its two files load, and a candidate that it admits binds
  -- the approval to the hash of its lock.
  pub record IsCovered (entries : List DirEntry) (a : Approval Version) : Type 0 where
    pub stem : Bytes
    pub listed : Elem stem (stems entries)
    pub manifest : AdmissionManifest
    pub human :
        load_admission_manifest tools.leb_version tools.version_text tools.manifest_toml
          (find_file (stem ++ codes ".toml") entries)
        ≡ ok manifest
    pub lock : AdmissionLock
    pub bytes : Bytes
    pub machine : LoadsLock tools (find_file (stem ++ codes ".lock") entries) manifest lock bytes
    pub candidate : UpdateCandidate
    pub inside : Elem candidate lock.plan.candidates
    pub binds : Binds candidate a (tools.sha256 bytes)
    pub admitted : IsAdmitted manifest candidate

  cover_batch-IsCovered :
      (entries : List DirEntry) (progress after : Progress) (stem : Bytes)
      → Elem stem (stems entries)
      → cover_batch tools entries progress stem ≡ ok after
      → (e : AdmissionIdentity × Approval Version) → Elem e progress.expected
      → Elem e after.expected ⊎ IsCovered entries e.1
  unfolding cover_batch
  cover_batch-IsCovered entries progress after stem listed h e k =
      let file = find_file (stem ++ codes ".lock") entries in
      let read =
        load_admission_manifest tools.leb_version tools.version_text tools.manifest_toml
          (find_file (stem ++ codes ".toml") entries) in
      let (manifest, human, s0) = >>=-eq-ok (map_err bad_manifest read) _ h in
      let (text, printed, s1) =
        >>=-eq-ok
          (map_err bad_manifest (
            serialize_admission_manifest tools.leb_version tools.version_text tools.manifest_toml
              manifest))
          _ s0 in
      let (loaded, machine, s2) = >>=-eq-ok (load_admission_lock tools file manifest) _ s1 in
      let (u, bound, s3) =
        >>=-eq-ok (ensure (beq loaded.0.manifest_sha256 (tools.sha256 text)) unbound_manifest) _
          s2 in
      let (w, fresh, s4) =
        >>=-eq-ok
          (ensure (not (any (beq (tools.sha256 loaded.1)) progress.batch_hashes)) repeated_batch) _
          s3 in
      let batch = (load_admission_lock-IsBatch tools file manifest loaded.0 loaded.1 machine).1 in
      covered manifest loaded.0 loaded.1 (map_err-eq-ok bad_manifest read manifest human) machine
        batch.admitted
        (cover_candidates-Binds (tools.sha256 loaded.1) _ after loaded.0.plan.candidates s4 e k)
    where
      covered :
          (manifest : AdmissionManifest) (lock : AdmissionLock) (bytes : Bytes)
          → load_admission_manifest tools.leb_version tools.version_text tools.manifest_toml
              (find_file (stem ++ codes ".toml") entries)
            ≡ ok manifest
          → LoadsLock tools (find_file (stem ++ codes ".lock") entries) manifest lock bytes
          → ((c : UpdateCandidate) → Elem c lock.plan.candidates → IsAdmitted manifest c)
          → Elem e after.expected
            ⊎ ((c : UpdateCandidate) × Elem c lock.plan.candidates
                × Binds c e.1 (tools.sha256 bytes))
          → Elem e after.expected ⊎ IsCovered entries e.1
      covered manifest lock bytes human machine admitted (inl stays) = inl stays
      covered manifest lock bytes human machine admitted (inr (c, inside, binds)) = inr (record {
        stem = stem;
        listed = listed;
        manifest = manifest;
        human = human;
        lock = lock;
        bytes = bytes;
        machine = machine;
        candidate = c;
        inside = inside;
        binds = binds;
        admitted = admitted c inside;
      })

  cover_batches-IsCovered :
      (entries : List DirEntry) (progress after : Progress) (names : List Bytes)
      → ((stem : Bytes) → Elem stem names → Elem stem (stems entries))
      → cover_batches tools entries progress names ≡ ok after
      → (e : AdmissionIdentity × Approval Version) → Elem e progress.expected
      → Elem e after.expected ⊎ IsCovered entries e.1
  unfolding cover_batches
  cover_batches-IsCovered entries progress after [] listed h e k =
      inl (subst (λ (p : Progress). Elem e p.expected) (ok_inj h) k)
  cover_batches-IsCovered entries progress after (stem ∷ names) listed h e k =
      let (next, first, s0) = >>=-eq-ok (cover_batch tools entries progress stem) _ h in
      go next (cover_batches-IsCovered entries next after names (λ s i. listed s (tail i)) s0 e)
        (cover_batch-IsCovered entries progress next stem (listed stem head) first e k)
    where
      go :
          (next : Progress)
          → (Elem e next.expected → Elem e after.expected ⊎ IsCovered entries e.1)
          → Elem e next.expected ⊎ IsCovered entries e.1
          → Elem e after.expected ⊎ IsCovered entries e.1
      go next rest (inl stays) = rest stays
      go next rest (inr found) = inr found

  cover_tree-IsCovered :
      (tree : Tree) (expected : Entries (Approval Version))
      → cover_tree tools tree expected ≡ ok tt
      → (e : AdmissionIdentity × Approval Version) → Elem e expected
      → (entries : List DirEntry) × (tree ≡ directory entries) × IsCovered entries e.1
  unfolding cover_tree
  cover_tree-IsCovered absent expected h e k =
      absurd (nothing expected e ((ensure_passes (no_element expected) missing_batches).0 h) k)
  cover_tree-IsCovered other_kind expected h e k = absurd (cc)
  cover_tree-IsCovered (directory entries) expected h e k =
      let start : Progress = record { covered = []; batch_hashes = []; expected = expected } in
      let (after, covers, s0) = >>=-eq-ok (cover_batches tools entries start (stems entries)) _ h in
      let empty = (ensure_passes (no_element after.expected) uncovered_identity).0 s0 in
      (
        entries,
        refl,
        go after empty
            (cover_batches-IsCovered entries start after (stems entries) (λ s i. i) covers e k),
      )
    where
      go :
          (after : Progress)
          → no_element after.expected ≡ true
          → Elem e after.expected ⊎ IsCovered entries e.1
          → IsCovered entries e.1
      go after empty (inl stays) = absurd (nothing after.expected e empty stays)
      go after empty (inr found) = found

  -- In a catalog whose admission inventory validates, every approval that names a batch is covered by
  -- one of the directory: the manifest and the lock of a listed stem load, the named hash is the one
  -- of the lock's bytes, and a candidate of the lock's plan has the approval's registry, category and
  -- name, its version up to build metadata, and the hashes of its archive and of its index row. The
  -- candidate is not blocked, and a request of the manifest asks for its category, name and version up
  -- to build metadata.
  pub validate_admission_inventory-IsCovered :
      (tree : Tree) (catalog : Catalog Version)
      → validate_admission_inventory tools tree catalog ≡ ok tt
      → (a : Approval Version) (hash : Bytes) → Elem a catalog.approvals
      → a.admission_sha256 ≡ some hash
      → (entries : List DirEntry) × (tree ≡ directory entries) × IsCovered entries a
  unfolding validate_admission_inventory
  validate_admission_inventory-IsCovered tree catalog h a hash inside same =
      let s0 = (and_then (validate_admission_tree_structure tree) _).0 h in
      let (expected, bound, covers) =
        >>=-eq-ok (admission_bound_approvals [] catalog.approvals) _ s0.1 in
      cover_tree-IsCovered tree expected covers (approval_identity a, a)
        ((admission_bound_approvals-Elem [] expected catalog.approvals bound).1 a hash inside same)
