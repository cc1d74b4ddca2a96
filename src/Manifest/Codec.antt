-- ===== src/Manifest/Codec.antt =====
-- The bytes and the file of an admission manifest: rust/src/update/manifest.rs.
use pkgre.Prelude.{Bytes, Bool, Result, ok, ◌>>=◌, ◌>>◌, ok_or}
use pkgre.Release.{Version}
use pkgre.Plan.Codec.{Toml, File, LoadErrors, load_canonical}
use pkgre.Manifest.{
  AdmissionManifest, ManifestError, serialization_failure, validate_admission_manifest,
}

abbrev pub manifest_errors : LoadErrors ManifestError
manifest_errors = record {
  not_regular = ManifestError.not_regular;
  unreadable = ManifestError.unreadable;
  malformed = ManifestError.malformed;
  not_canonical = ManifestError.not_canonical;
}

module _ (leb_version : Version → Version → Bool) (version_text : Version → Bytes)
    (toml : Toml AdmissionManifest) where
  unfoldable pub serialize_admission_manifest : AdmissionManifest → Result ManifestError Bytes
  unfolding validate_admission_manifest
  serialize_admission_manifest manifest = do
    validate_admission_manifest leb_version version_text manifest
    ok_or (toml.to_string_pretty manifest) serialization_failure

  unfoldable pub load_admission_manifest : File → Result ManifestError AdmissionManifest
  unfolding serialize_admission_manifest
  load_admission_manifest file = do
    loaded ← load_canonical manifest_errors toml.from_slice serialize_admission_manifest file
    ok loaded.0
