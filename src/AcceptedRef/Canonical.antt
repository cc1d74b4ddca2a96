-- ===== src/AcceptedRef/Canonical.antt =====
-- Parsing and printing of accepted-ref records: laws of `canonical_accepted_ref_bytes` and
-- `parse_accepted_ref` of rust/src/accepted_ref.rs over any JSON library.
use mathlib.Core.Path.{subst}
use pkgre.Prelude.{
  ◌≡◌, ◌↔◌, refl, ap, [], ◌∷◌, ◌++◌, Bytes, Option, none, some, Result, ok, err, ok_or, ensure, beq,
  beq→eq, beq_iff, ◌>>=◌, ◌>>◌, arith, true,
}
use pkgre.AcceptedRef.{
  malformed_json, not_canonical, serialization_failure, Error, AcceptedRef, RepositoryConfig, Json,
  validate_record, canonical_accepted_ref_bytes, parse_accepted_ref,
}

-- `from_slice` reads what `to_vec_pretty` writes, with a line feed behind it.
abbrev pub ReadsBack : Json → Type 0
ReadsBack json =
    (r : AcceptedRef) (bytes : Bytes)
    → json.to_vec_pretty r ≡ some bytes
    → json.from_slice (bytes ++ b'\n' ∷ []) ≡ some r

-- The chain of `parse_accepted_ref`, over any parts.
abbrev chain :
    Option AcceptedRef
    → (AcceptedRef → Result Error (Unit {0}))
    → (AcceptedRef → Result Error Bytes)
    → Bytes
    → Result Error AcceptedRef
chain read check print bytes = do
  r ← ok_or read malformed_json
  check r
  canonical ← print r
  ensure (beq canonical bytes) not_canonical
  ok r

chain_print :
    (checked : Result Error (Unit {0})) (printed : Result Error Bytes) (bytes : Bytes)
    (r' r : AcceptedRef)
    → (do checked; canonical ← printed; ensure (beq canonical bytes) not_canonical; ok r') ≡ ok r
    → (r' ≡ r) × (checked ≡ ok tt) × (printed ≡ ok bytes)
chain_print (ok u) (ok c) bytes r' r h =
    let same : beq c bytes ≡ true = ground arith in
    (ground arith, refl, ap ok (beq→eq c bytes same))
chain_print (ok u) (err e) bytes r' r h = absurd (cc)
chain_print (err e) printed bytes r' r h = absurd (cc)

chain_steps :
    (read : Option AcceptedRef) (check : AcceptedRef → Result Error (Unit {0}))
    (print : AcceptedRef → Result Error Bytes) (bytes : Bytes) (r : AcceptedRef)
    → chain read check print bytes ≡ ok r
    → (read ≡ some r) × (check r ≡ ok tt) × (print r ≡ ok bytes)
chain_steps none check print bytes r h = absurd (cc)
chain_steps (some r') check print bytes r h =
    let (same, a, b) = chain_print (check r') (print r') bytes r' r h in
    (ap some same, subst (λ x. check x ≡ ok tt) same a, subst (λ x. print x ≡ ok bytes) same b)

print_chain :
    (checked : Result Error (Unit {0})) (written : Option Bytes) (bytes : Bytes)
    → (do checked; b ← ok_or written serialization_failure; ok (b ++ b'\n' ∷ [])) ≡ ok bytes
    → (checked ≡ ok tt) × ((b : Bytes) × (written ≡ some b) × (b ++ b'\n' ∷ [] ≡ bytes))
print_chain (ok u) (some b) bytes h = (refl, (b, refl, cc))
print_chain (ok u) none bytes h = absurd (cc)
print_chain (err e) written bytes h = absurd (cc)

module _ (json : Json) where
  parse_steps :
      (bytes : Bytes) (config : RepositoryConfig) (r : AcceptedRef)
      → parse_accepted_ref json bytes config ≡ ok r
      → (json.from_slice bytes ≡ some r)
        × (validate_record config r ≡ ok tt)
        × (canonical_accepted_ref_bytes json r config ≡ ok bytes)
  unfolding parse_accepted_ref
  parse_steps bytes config r h =
      chain_steps (json.from_slice bytes) (validate_record config)
        (λ x. canonical_accepted_ref_bytes json x config) bytes r h

  -- A record is read from one byte string only: two accepted files with the same record are equal,
  -- whatever the JSON library reads.
  pub parse-injective :
      (config : RepositoryConfig) (bytes bytes' : Bytes) (r : AcceptedRef)
      → parse_accepted_ref json bytes config ≡ ok r
      → parse_accepted_ref json bytes' config ≡ ok r
      → bytes ≡ bytes'
  parse-injective config bytes bytes' r h h' =
      let (_, _, p) = parse_steps bytes config r h in
      let (_, _, q) = parse_steps bytes' config r h' in cc (p, q)

  print_steps :
      (config : RepositoryConfig) (bytes : Bytes) (r : AcceptedRef)
      → canonical_accepted_ref_bytes json r config ≡ ok bytes
      → (validate_record config r ≡ ok tt)
        × ((b : Bytes) × (json.to_vec_pretty r ≡ some b) × (b ++ b'\n' ∷ [] ≡ bytes))
  unfolding canonical_accepted_ref_bytes
  print_steps config bytes r h =
      print_chain (validate_record config r) (json.to_vec_pretty r) bytes h

  module _ (reads_back : ReadsBack json) where
    -- If the JSON library reads back what it writes, a byte string is read as a record exactly when
    -- it is what the record is written as.
    pub parse-canonical_iff :
        (config : RepositoryConfig) (bytes : Bytes) (r : AcceptedRef)
        → (parse_accepted_ref json bytes config ≡ ok r)
          ↔ (canonical_accepted_ref_bytes json r config ≡ ok bytes)
    unfolding parse_accepted_ref
    parse-canonical_iff config bytes r = (
      λ h. (parse_steps bytes config r h).2,
      λ h.
          let (v, (b, written, e)) = print_steps config bytes r h in
          let read : json.from_slice bytes ≡ some r =
            subst (λ x. json.from_slice x ≡ some r) e (reads_back r b written) in
          rw (read, v, h, (beq_iff bytes bytes).1 refl),
    )
