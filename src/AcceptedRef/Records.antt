-- ===== src/AcceptedRef/Records.antt =====
-- Which records `validate` and `new` of rust/src/accepted_ref.rs let through, by a description of
-- the bytes that does not use the code's tests.
use mathlib.Core.Path.{subst}
use mathlib.Core.List.{cons-ne-nil}
use pkgre.Prelude.{
  ℕ, ◌≤◌, ◌<◌, ◌≡◌, ◌≢◌, ◌↔◌, ◌⊎◌, refl, ap, [], ◌∷◌, ◌++◌, Bytes, codes, length, All, Bool, true,
  not, all, any, ok, >>=-eq-ok, sym, ◌∙◌, beq_iff, beq→eq, ==_iff, arith, ltb, ◌&&◌, ◌||◌,
}
use pkgre.AcceptedRef.{
  AcceptedRef, RepositoryConfig, accepted_ref_schema, is_lower_hex, valid_hex, starts_with,
  is_ascii, is_ascii_whitespace, is_ascii_control, valid_full_ref, validate, new, validate_record,
}

-- A digit or a letter of `a` to `f`.
abbrev pub IsHexDigit : ℕ → Type 0
IsHexDigit c = (b'0' ≤ c) × (c ≤ b'9') ⊎ (b'a' ≤ c) × (c ≤ b'f')

abbrev pub IsLowerHex : ℕ → Bytes → Type 0
IsLowerHex n value = (length value ≡ n) × All IsHexDigit value

-- Printable ASCII without the space.
abbrev pub IsGraphic : ℕ → Type 0
IsGraphic c = (33 ≤ c) × (c < 127)

abbrev pub IsFullRef : Bytes → Type 0
IsFullRef value =
    (rest : Bytes) × (value ≡ codes "refs/" ++ rest) × (rest ≢ []) × All IsGraphic value

pub record IsCanonical (r : AcceptedRef) : Type 0 where
  pub schema : r.schema ≡ accepted_ref_schema
  pub commit : IsLowerHex 40 r.accepted_commit
  pub full_ref : IsFullRef r.full_ref
  pub identity : IsLowerHex 64 r.repository_identity

all_hex : (value : Bytes) → (all is_lower_hex value ≡ true) ↔ All IsHexDigit value
unfolding is_lower_hex
all_hex [] = (λ _. tt, λ _. refl)
all_hex (c ∷ value) = (
  λ h. (ground arith, (all_hex value).0 (ground arith)),
  λ h. ground (arith, (all_hex value).1 h.1),
)

pub valid_hex_iff : (value : Bytes) (n : ℕ) → (valid_hex value n ≡ true) ↔ IsLowerHex n value
unfolding valid_hex
valid_hex_iff value n = (
  λ h. (ground (arith, ==_iff (length value) n), (all_hex value).0 (ground arith)),
  λ h. ground (arith, (all_hex value).1 h.1, ==_iff (length value) n),
)

-- One byte passes the two tests of `valid_full_ref` exactly when it is graphic.
graphic_tests : Bytes → Bool
graphic_tests value =
    is_ascii value && not (any (λ byte. is_ascii_whitespace byte || is_ascii_control byte) value)

IsGraphic-iff : (value : Bytes) → (graphic_tests value ≡ true) ↔ All IsGraphic value
unfolding graphic_tests is_ascii is_ascii_whitespace is_ascii_control
IsGraphic-iff [] = (λ _. tt, λ _. refl)
IsGraphic-iff (c ∷ value) = (
  λ h. (ground arith, (IsGraphic-iff value).0 (ground arith)),
  λ h. ground (arith, (IsGraphic-iff value).1 h.1),
)

starts_with_sound :
    (prefix value : Bytes)
    → starts_with prefix value ≡ true
    → (rest : Bytes) × (value ≡ prefix ++ rest)
unfolding starts_with
starts_with_sound [] value h = (value, refl)
starts_with_sound (c ∷ prefix) [] h = ground arith
starts_with_sound (c ∷ prefix) (d ∷ value) h =
    let (rest, e) = starts_with_sound prefix value (ground arith) in
    (rest, ground (arith, e, ==_iff c d))

starts_with_complete : (prefix rest : Bytes) → starts_with prefix (prefix ++ rest) ≡ true
unfolding starts_with
starts_with_complete [] rest = refl
starts_with_complete (c ∷ prefix) rest = ground (arith, starts_with_complete prefix rest)

refs_nonempty :
    (value rest : Bytes) → ltb 5 (length value) ≡ true → value ≡ codes "refs/" ++ rest → rest ≢ []
refs_nonempty value [] h e = λ _. ground (arith, ap {B = ℕ} length e)
refs_nonempty value (c ∷ rest) h e = cons-ne-nil c rest

valid_full_ref_sound : (value : Bytes) → valid_full_ref value ≡ true → IsFullRef value
unfolding valid_full_ref graphic_tests
valid_full_ref_sound value h =
    let (rest, e) = starts_with_sound (codes "refs/") value (ground arith) in
    (rest, e, refs_nonempty value rest (ground arith) e, (IsGraphic-iff value).0 (ground arith))

refs_length : (rest : Bytes) → rest ≢ [] → ltb 5 (length (codes "refs/" ++ rest)) ≡ true
refs_length [] h = absurd (h refl)
refs_length (c ∷ rest) h = ground arith

valid_full_ref_complete : (value : Bytes) → IsFullRef value → valid_full_ref value ≡ true
unfolding valid_full_ref graphic_tests
valid_full_ref_complete value (rest, e, nonempty, graphic) = ground (
  arith,
  e,
  starts_with_complete (codes "refs/") rest,
  refs_length rest nonempty,
  (IsGraphic-iff value).1 graphic,
)

-- `validate` accepts a record exactly when it is canonical: the schema name, a commit of 40 lower
-- case hexadecimal digits, a graphic ref below `refs/`, and an identity of 64 such digits.
pub validate_iff : (r : AcceptedRef) → (validate r ≡ ok tt) ↔ IsCanonical r
unfolding validate
validate_iff r = (
  λ h. record {
    schema = beq→eq r.schema accepted_ref_schema (ground arith);
    commit = (valid_hex_iff r.accepted_commit 40).0 (ground arith);
    full_ref = valid_full_ref_sound r.full_ref (ground arith);
    identity = (valid_hex_iff r.repository_identity 64).0 (ground arith);
  },
  λ h. rw (
    (beq_iff r.schema accepted_ref_schema).1 h.schema,
    (valid_hex_iff r.accepted_commit 40).1 h.commit,
    valid_full_ref_complete r.full_ref h.full_ref,
    (valid_hex_iff r.repository_identity 64).1 h.identity,
  ),
)

abbrev pub draft : Bytes → Bytes → Bytes → AcceptedRef
draft commit full_ref identity = record {
  accepted_commit = commit;
  full_ref = full_ref;
  repository_identity = identity;
  schema = accepted_ref_schema;
}

pub new-draft :
    (commit full_ref identity : Bytes)
    → IsCanonical (draft commit full_ref identity)
    → new commit full_ref identity ≡ ok (draft commit full_ref identity)
unfolding new
new-draft commit full_ref identity h = rw ((validate_iff (draft commit full_ref identity)).1 h)

new_sound :
    (commit full_ref identity : Bytes) (r : AcceptedRef)
    → new commit full_ref identity ≡ ok r
    → IsCanonical r
      × (r.accepted_commit ≡ commit)
      × (r.full_ref ≡ full_ref)
      × (r.repository_identity ≡ identity)
unfolding new
new_sound commit full_ref identity r h =
    let d : AcceptedRef = draft commit full_ref identity in
    let (u, v, e) = >>=-eq-ok (validate d) (λ _. ok d) h in
    let same : d ≡ r = cc in
    (
      subst IsCanonical same ((validate_iff d).0 v),
      sym (ap (λ (x : AcceptedRef). x.accepted_commit) same),
      sym (ap (λ (x : AcceptedRef). x.full_ref) same),
      sym (ap (λ (x : AcceptedRef). x.repository_identity) same),
    )

-- `new` returns a record exactly when the commit, the ref and the identity are well formed; it is
-- then the canonical record of the three, and otherwise `new` returns an error.
pub new_iff :
    (commit full_ref identity : Bytes) (r : AcceptedRef)
    → (new commit full_ref identity ≡ ok r) ↔ (
        IsCanonical r
        × (r.accepted_commit ≡ commit)
        × (r.full_ref ≡ full_ref)
        × (r.repository_identity ≡ identity))
unfolding new
new_iff commit full_ref identity r = (
  new_sound commit full_ref identity r,
  λ h.
      let same : r ≡ draft commit full_ref identity = λ i. record {
        accepted_commit = h.1 i;
        full_ref = h.2 i;
        repository_identity = h.3 i;
        schema = h.0.schema i;
      } in
      new-draft commit full_ref identity (subst IsCanonical same h.0) ∙ ap ok (sym same),
)

pub record IsBound (config : RepositoryConfig) (r : AcceptedRef) : Type 0 where
  pub canonical : IsCanonical r
  pub identity : r.repository_identity ≡ config.repository_identity
  pub full_ref : r.full_ref ≡ config.full_ref

-- `validate_record` accepts exactly the canonical records that carry the configured ref and identity.
pub validate_record_iff :
    (config : RepositoryConfig) (r : AcceptedRef)
    → (validate_record config r ≡ ok tt) ↔ IsBound config r
unfolding validate_record
validate_record_iff config r = (
  λ h. record {
    canonical = (validate_iff r).0 (ground arith);
    identity = beq→eq r.repository_identity config.repository_identity (ground arith);
    full_ref = beq→eq r.full_ref config.full_ref (ground arith);
  },
  λ h. rw (
    (validate_iff r).1 h.canonical,
    (beq_iff r.repository_identity config.repository_identity).1 h.identity,
    (beq_iff r.full_ref config.full_ref).1 h.full_ref,
  ),
)
