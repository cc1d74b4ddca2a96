-- ===== src/Admission/Prepared.antt =====
-- A lock that is prepared loads again: `prepare_admission_lock` and `load_admission_lock` of
-- rust/src/update/admission.rs.
use pkgre.Prelude.{◌≡◌, refl, sym, ap, ◌∙◌, Bytes, some, ok, map_err, >>=-eq-ok, ok_inj}
use pkgre.Schema.{UtcTimestamp}
use pkgre.Release.Evidence.{ok_or-eq-ok}
use pkgre.Plan.{UpdatePlan}
use pkgre.Plan.Steps.{map_err-eq-ok}
use pkgre.Plan.Codec.{regular, load_canonical_complete}
use pkgre.Manifest.{AdmissionManifest}
use pkgre.Manifest.Codec.{serialize_admission_manifest}
use pkgre.Admission.{
  Tools, AdmissionLock, bad_manifest, serialization_failure, admission_lock_schema, lock_errors,
}
use pkgre.Admission.Lock.{
  validate_admission_lock, serialize_admission_lock, load_admission_lock, prepare_admission_lock,
}

module _ (tools : Tools) where
  -- A lock of the current schema that carries a plan and the requests of a manifest, and binds the manifest's bytes.
  pub record Carries (manifest : AdmissionManifest) (plan : UpdatePlan) (admitted_at : UtcTimestamp)
      (lock : AdmissionLock) : Type 0 where
    pub current : lock.schema ≡ admission_lock_schema
    pub plan_kept : lock.plan ≡ plan
    pub requests_kept : lock.requests ≡ manifest.entries
    pub time_kept : lock.admitted_at ≡ admitted_at
    pub text : Bytes
    pub printed :
        serialize_admission_manifest tools.leb_version tools.version_text tools.manifest_toml
          manifest
        ≡ ok text
    pub bound : lock.manifest_sha256 ≡ tools.sha256 text

  -- If TOML reads back the lock that it prints, the bytes of a prepared lock load, beside the manifest, as a
  -- lock of the current schema that carries the plan, the time and the requests of the manifest and binds the manifest's bytes;
  -- and the binding that is returned is the hash of the lock's bytes.
  pub prepare_admission_lock-load :
      (manifest : AdmissionManifest) (plan : UpdatePlan) (admitted_at : UtcTimestamp)
      (bytes binding : Bytes)
      → ((lock : AdmissionLock) (text : Bytes)
          → Carries manifest plan admitted_at lock
          → tools.lock_toml.to_string_pretty lock ≡ some text
          → tools.lock_toml.from_slice text ≡ some lock)
      → prepare_admission_lock tools manifest plan admitted_at ≡ ok (bytes, binding)
      → (lock : AdmissionLock) × (load_admission_lock tools (regular bytes) manifest
          ≡ ok (lock, bytes))
        × Carries manifest plan admitted_at lock
        × (binding ≡ tools.sha256 bytes)
  unfolding prepare_admission_lock load_admission_lock serialize_admission_lock
  prepare_admission_lock-load manifest plan admitted_at bytes binding reads h =
      let write =
        serialize_admission_manifest tools.leb_version tools.version_text tools.manifest_toml
          manifest in
      let (text, printed, s0) = >>=-eq-ok (map_err bad_manifest write) _ h in
      let lock : AdmissionLock = record {
        schema = admission_lock_schema;
        manifest_sha256 = tools.sha256 text;
        admitted_at = admitted_at;
        plan = plan;
        requests = manifest.entries;
      } in
      let serialize = serialize_admission_lock tools (some manifest) in
      let (found, written, s1) = >>=-eq-ok (serialize lock) _ s0 in
      let pair = ok_inj s1 in
      let same : found ≡ bytes = ap (λ (p : Bytes × Bytes). p.0) pair in
      let hash : tools.sha256 found ≡ binding = ap (λ (p : Bytes × Bytes). p.1) pair in
      let (u, valid, s2) =
        >>=-eq-ok (validate_admission_lock tools lock (some manifest)) _ written in
      let shown =
        ok_or-eq-ok (tools.lock_toml.to_string_pretty lock) serialization_failure found s2 in
      let carries : Carries manifest plan admitted_at lock = record {
        current = refl;
        plan_kept = refl;
        requests_kept = refl;
        time_kept = refl;
        text = text;
        printed = map_err-eq-ok bad_manifest write text printed;
        bound = refl;
      } in
      (
        lock,
        load_canonical_complete lock_errors tools.lock_toml.from_slice serialize lock bytes
            (ap tools.lock_toml.from_slice (sym same) ∙ reads lock found carries shown)
            (written ∙ ap ok same),
        carries,
        sym hash ∙ ap tools.sha256 same,
      )
