-- ===== src/AcceptedRef.antt =====
-- The accepted-ref record and its binding to one repository: rust/src/accepted_ref.rs, lines 1 to
-- 178 and 595 to 609. The two transition functions of that file are in the modules Startup and
-- Reload; the proofs about records are in Canonical and Identity.
pub mod Startup
pub mod Reload
pub mod Records
pub mod Authority
pub mod Forward
pub mod Canonical
pub mod Identity
use pkgre.Prelude.{
  ℕ, ◌/◌, ◌%◌, ◌^◌, [], ◌∷◌, ◌++◌, Bool, true, false, not, Option, ◌&&◌, ◌||◌, Bytes, codes, length,
  all, any, beq, leb, ltb, ◌==◌, Result, ok, ensure, ok_or, ◌>>=◌, ◌>>◌,
}

-- The messages of the file's errors.
pub data Error : Type 0 where
  unsupported_schema malformed_commit invalid_full_ref malformed_identity : Error
  identity_mismatch full_ref_mismatch : Error
  origin_too_large ref_too_large : Error
  malformed_json serialization_failure not_canonical : Error
  bootstrap_not_applicable record_required accepted_not_applicable : Error
  inconsistent_ancestry validity_not_evaluated persistence_not_attempted : Error

abbrev pub accepted_ref_schema : Bytes
accepted_ref_schema = codes "pkgre-accepted-ref-v1"

-- The domain ends with a NUL byte.
abbrev pub identity_domain : Bytes
identity_domain = codes "pkgre-repository-identity-v1" ++ 0 ∷ []

pub record AcceptedRef : Type 0 where
  pub accepted_commit : Bytes
  pub full_ref : Bytes
  pub repository_identity : Bytes
  pub schema : Bytes

pub record RepositoryConfig : Type 0 where
  pub full_ref : Bytes
  pub repository_identity : Bytes

-- `u8::is_ascii_digit`, or a byte of `a..=f`.
unfoldable pub is_lower_hex : ℕ → Bool
is_lower_hex byte = (leb b'0' byte && leb byte b'9') || (leb b'a' byte && leb byte b'f')

unfoldable pub valid_hex : Bytes → ℕ → Bool
valid_hex value bytes = length value == bytes && all is_lower_hex value

unfoldable pub starts_with : Bytes → Bytes → Bool
starts_with [] value = true
starts_with (c ∷ prefix) [] = false
starts_with (c ∷ prefix) (d ∷ value) = c == d && starts_with prefix value

-- `u8::is_ascii_whitespace`: space, tab, line feed, form feed and carriage return.
unfoldable pub is_ascii_whitespace : ℕ → Bool
is_ascii_whitespace byte = byte == 32 || byte == 9 || byte == 10 || byte == 12 || byte == 13

-- `u8::is_ascii_control`.
unfoldable pub is_ascii_control : ℕ → Bool
is_ascii_control byte = ltb byte 32 || byte == 127

unfoldable pub is_ascii : Bytes → Bool
is_ascii value = all (λ byte. ltb byte 128) value

unfoldable pub valid_full_ref : Bytes → Bool
unfolding starts_with is_ascii
valid_full_ref value =
    starts_with (codes "refs/") value
    && ltb (length (codes "refs/")) (length value)
    && is_ascii value
    && not (any (λ byte. is_ascii_whitespace byte || is_ascii_control byte) value)

-- `AcceptedRef::validate`.
unfoldable pub validate : AcceptedRef → Result Error (Unit {0})
validate record' = do
  ensure (beq record'.schema accepted_ref_schema) unsupported_schema
  ensure (valid_hex record'.accepted_commit 40) malformed_commit
  ensure (valid_full_ref record'.full_ref) invalid_full_ref
  ensure (valid_hex record'.repository_identity 64) malformed_identity

-- `AcceptedRef::new`.
unfoldable pub new : Bytes → Bytes → Bytes → Result Error AcceptedRef
new commit full_ref identity = do
  let record' : AcceptedRef = record {
    accepted_commit = commit;
    full_ref = full_ref;
    repository_identity = identity;
    schema = accepted_ref_schema;
  }
  validate record'
  ok record'

-- `RepositoryConfig::new`.
unfoldable pub new_config : Bytes → Bytes → Result Error RepositoryConfig
new_config full_ref identity = do
  ensure (valid_full_ref full_ref) invalid_full_ref
  ensure (valid_hex identity 64) malformed_identity
  ok (record { full_ref = full_ref; repository_identity = identity })

-- `RepositoryConfig::validate_record`.
unfoldable pub validate_record : RepositoryConfig → AcceptedRef → Result Error (Unit {0})
validate_record config record' = do
  validate record'
  ensure (beq record'.repository_identity config.repository_identity) identity_mismatch
  ensure (beq record'.full_ref config.full_ref) full_ref_mismatch

-- `u32::to_be_bytes`.
unfoldable pub to_be_bytes : ℕ → Bytes
to_be_bytes n = n / 2 ^ 24 % 256 ∷ n / 2 ^ 16 % 256 ∷ n / 2 ^ 8 % 256 ∷ n % 256 ∷ []

-- What `derive_repository_identity` feeds to the digest, in order.
unfoldable pub identity_frame : Bytes → Bytes → Bytes
identity_frame origin full_ref =
    identity_domain
    ++ (to_be_bytes (length origin) ++ (origin ++ (to_be_bytes (length full_ref) ++ full_ref)))

module _ (hex_sha256 : Bytes → Bytes) where
  -- `u32::try_from` refuses a length of 2^32 or more.
  unfoldable pub derive_repository_identity : Bytes → Bytes → Result Error Bytes
  derive_repository_identity origin full_ref = do
    ensure (ltb (length origin) (2 ^ 32)) origin_too_large
    ensure (ltb (length full_ref) (2 ^ 32)) ref_too_large
    ok (hex_sha256 (identity_frame origin full_ref))

-- `serde_json` on accepted-ref records: `to_vec_pretty` and `from_slice`.
pub record Json : Type 0 where
  pub to_vec_pretty : AcceptedRef → Option Bytes
  pub from_slice : Bytes → Option AcceptedRef

module _ (json : Json) where
  unfoldable pub canonical_accepted_ref_bytes : AcceptedRef → RepositoryConfig → Result Error Bytes
  canonical_accepted_ref_bytes record' config = do
    validate_record config record'
    bytes ← ok_or (json.to_vec_pretty record') serialization_failure
    ok (bytes ++ b'\n' ∷ [])

  unfoldable pub parse_accepted_ref : Bytes → RepositoryConfig → Result Error AcceptedRef
  parse_accepted_ref bytes config = do
    record' ← ok_or (json.from_slice bytes) malformed_json
    validate_record config record'
    canonical ← canonical_accepted_ref_bytes record' config
    ensure (beq canonical bytes) not_canonical
    ok record'
