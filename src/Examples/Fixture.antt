-- ===== src/Examples/Fixture.antt =====
-- Concrete records, a configuration and a JSON library for the examples.
use pkgre.Prelude.{ℕ, suc, ◌≡◌, refl, ap, [], ◌∷◌, ◌++◌, map, Bytes, codes, some, append_assoc}
use pkgre.AcceptedRef
use pkgre.AcceptedRef.{
  AcceptedRef, RepositoryConfig, Json, valid_hex, valid_full_ref, is_ascii_whitespace,
  is_ascii_control, is_lower_hex, validate_record, validate,
}
use pkgre.AcceptedRef.Records.{IsBound, validate_record_iff}
use pkgre.AcceptedRef.Canonical.{ReadsBack}

abbrev pub forty : Bytes
forty = codes "aaaaaaaaaaaaaaaaaaaaaaaaaaaaaaaaaaaaaaaa"

abbrev pub other_forty : Bytes
other_forty = codes "bbbbbbbbbbbbbbbbbbbbbbbbbbbbbbbbbbbbbbbb"

abbrev pub main_ref : Bytes
main_ref = codes "refs/heads/main"

abbrev pub sixty_four : Bytes
sixty_four = codes "0123456789abcdef0123456789abcdef0123456789abcdef0123456789abcdef"

abbrev pub config : RepositoryConfig
config = record { full_ref = main_ref; repository_identity = sixty_four }

abbrev pub first_record : AcceptedRef
first_record = record {
  accepted_commit = forty;
  full_ref = main_ref;
  repository_identity = sixty_four;
  schema = AcceptedRef.accepted_ref_schema;
}

pub first_record-IsBound : IsBound config first_record
first_record-IsBound = (validate_record_iff config first_record).0 (
    unfold validate_record validate valid_hex is_lower_hex valid_full_ref is_ascii_whitespace
      is_ascii_control in
    refl)

-- A JSON library that writes each field with a zero behind it, every byte raised by one.
abbrev field : Bytes → Bytes → Bytes
field value rest = map suc value ++ 0 ∷ rest

abbrev cons_first : ℕ → Bytes × Bytes → Bytes × Bytes
cons_first c (value, rest) = (c ∷ value, rest)

abbrev take_field : Bytes → Bytes × Bytes
take_field [] = ([], [])
take_field (ℕ.zero ∷ rest) = ([], rest)
take_field (suc c ∷ rest) = cons_first c (take_field rest)

take_field_lem : (value rest : Bytes) → take_field (field value rest) ≡ (value, rest)
take_field_lem [] rest = refl
take_field_lem (c ∷ value) rest = ap (cons_first c) (take_field_lem value rest)

abbrev pub plain_json : Json
plain_json = record {
  to_vec_pretty = λ r. some (
      field r.accepted_commit (field r.full_ref (field r.repository_identity (field r.schema []))));
  from_slice = λ bytes.
      let (commit, rest) = take_field bytes in
      let (full_ref, rest') = take_field rest in
      let (identity, rest'') = take_field rest' in
      let (schema, _) = take_field rest'' in
      some (record {
        accepted_commit = commit;
        full_ref = full_ref;
        repository_identity = identity;
        schema = schema;
      });
}

pub plain_json-ReadsBack : ReadsBack plain_json
plain_json-ReadsBack r bytes h =
    let written : field r.accepted_commit
          (field r.full_ref (field r.repository_identity (field r.schema [])))
        ≡ bytes =
      cc in
    rw (← written) (simp (append_assoc, take_field_lem))
