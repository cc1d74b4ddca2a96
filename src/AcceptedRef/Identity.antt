-- ===== src/AcceptedRef/Identity.antt =====
-- The repository identity of rust/src/accepted_ref.rs and the frame that it is the digest of.
use pkgre.Prelude.{
  ℕ, ◌^◌, ◌<◌, ◌≡◌, ◌≢◌, ◌⊎◌, inl, inr, refl, [], ◌∷◌, ◌++◌, Bytes, length, ok, beq, beq→eq,
  beq_iff, Bool-cases, arith, ◌&&◌,
}
use pkgre.AcceptedRef.{to_be_bytes, identity_domain, identity_frame, derive_repository_identity}

append-injective :
    (xs ys us vs : Bytes) → length xs ≡ length ys → xs ++ us ≡ ys ++ vs → (xs ≡ ys) × (us ≡ vs)
append-injective [] [] us vs n e = (refl, e)
append-injective [] (y ∷ ys) us vs n e = absurd (omega arith)
append-injective (x ∷ xs) [] us vs n e = absurd (omega arith)
append-injective (x ∷ xs) (y ∷ ys) us vs n e =
    let (p, q) = append-injective xs ys us vs (omega arith) (cc) in (cc, q)

length-to_be_bytes : (n : ℕ) → length (to_be_bytes n) ≡ 4
unfolding to_be_bytes
length-to_be_bytes n = refl

to_be_bytes-injective : (m n : ℕ) → m < 2 ^ 32 → n < 2 ^ 32 → to_be_bytes m ≡ to_be_bytes n → m ≡ n
unfolding to_be_bytes
to_be_bytes-injective m n hm hn e = ground arith

-- A length-prefixed field can be taken off in one way.
field-injective :
    (xs ys us vs : Bytes)
    → length xs < 2 ^ 32
    → length ys < 2 ^ 32
    → to_be_bytes (length xs) ++ (xs ++ us) ≡ to_be_bytes (length ys) ++ (ys ++ vs)
    → (xs ≡ ys) × (us ≡ vs)
field-injective xs ys us vs hx hy e =
    let (p, q) =
      append-injective (to_be_bytes (length xs)) (to_be_bytes (length ys)) (xs ++ us) (ys ++ vs)
        (unfold to_be_bytes in refl) e in
    append-injective xs ys us vs (to_be_bytes-injective (length xs) (length ys) hx hy p) q

identity_frame-injective :
    (o r o' r' : Bytes)
    → length o < 2 ^ 32
    → length r < 2 ^ 32
    → length o' < 2 ^ 32
    → length r' < 2 ^ 32
    → identity_frame o r ≡ identity_frame o' r'
    → (o ≡ o') × (r ≡ r')
unfolding identity_frame
identity_frame-injective o r o' r' a b c d e =
    let (_, p) = append-injective identity_domain identity_domain _ _ refl e in
    let (same, q) = field-injective o o' _ _ a c p in
    let (_, rest) =
      append-injective (to_be_bytes (length r)) (to_be_bytes (length r')) r r'
        (unfold to_be_bytes in refl) q in
    (same, rest)

module _ (hex_sha256 : Bytes → Bytes) where
  -- Two different inputs of the digest with the same digest.
  abbrev pub Collides : Bytes → Bytes → Type 0
  Collides xs ys = (xs ≢ ys) × (hex_sha256 xs ≡ hex_sha256 ys)

  -- If two pairs of an origin and a ref are given the same identity, then they are the same pair, or
  -- the digest has a collision on their frames.
  pub derive-injective :
      (o r o' r' identity : Bytes)
      → derive_repository_identity hex_sha256 o r ≡ ok identity
      → derive_repository_identity hex_sha256 o' r' ≡ ok identity
      → (o ≡ o') × (r ≡ r') ⊎ Collides (identity_frame o r) (identity_frame o' r')
  unfolding derive_repository_identity
  derive-injective o r o' r' identity h h' = elim (Bool-cases (beq o o' && beq r r')) [
    | inl same ↦ inl (beq→eq o o' (ground arith), beq→eq r r' (ground arith))
    | inr differ ↦ inr (
      λ e.
          let (p, q) =
            identity_frame-injective o r o' r' (ground arith) (ground arith) (ground arith)
              (ground arith) e in
          ground (arith, (beq_iff o o').1 p, (beq_iff r r').1 q),
      ground arith,
    )
  ]
