-- ===== src/Release/Order.antt =====
-- The orders that rust/src/update/policy.rs compares releases by.
use pkgre.Prelude.{
  ◌≤◌, ◌≡◌, inl, inr, refl, arith, [], ◌∷◌, Bytes, Bool, true, false, Bool-cases, ==_iff, beq,
  beq_refl, beq_iff, beq→eq, sym, ◌∙◌,
}
use pkgre.Schema.{UtcTimestamp}
use pkgre.Release.{Version, leb_bytes, leb_time, lexicographic, same_key}

-- A total preorder.
pub record IsPreorder {ℓ} {A : Type ℓ} (le : A → A → Bool) : Type ℓ where
  pub total : (a b : A) → le a b ≡ false → le b a ≡ true
  pub trans : (a b c : A) → le a b ≡ true → le b c ≡ true → le a c ≡ true

pub record IsOrder {ℓ} {A : Type ℓ} (le : A → A → Bool) : Type ℓ where
  pub preorder : IsPreorder le
  pub antisym : (a b : A) → le a b ≡ true → le b a ≡ true → a ≡ b

pub total_refl {ℓ} : {A : Type ℓ} {le : A → A → Bool} → IsPreorder le → (a : A) → le a a ≡ true
total_refl {A} {le} o a = elim (Bool-cases (le a a)) [ inl h ↦ h | inr h ↦ o.total a a h ]

pub bytes_total : (a b : Bytes) → leb_bytes a b ≡ false → leb_bytes b a ≡ true
bytes_total [] b h = absurd (cc)
bytes_total (x ∷ xs) [] h = refl
bytes_total (x ∷ xs) (y ∷ ys) h = ground (arith, bytes_total xs ys)

pub bytes_trans :
    (a b c : Bytes) → leb_bytes a b ≡ true → leb_bytes b c ≡ true → leb_bytes a c ≡ true
bytes_trans [] b c h k = refl
bytes_trans (x ∷ xs) [] c h k = absurd (cc)
bytes_trans (x ∷ xs) (y ∷ ys) [] h k = absurd (cc)
bytes_trans (x ∷ xs) (y ∷ ys) (z ∷ zs) h k = ground (arith, bytes_trans xs ys zs)

pub bytes_antisym : (a b : Bytes) → leb_bytes a b ≡ true → leb_bytes b a ≡ true → a ≡ b
bytes_antisym [] [] h k = refl
bytes_antisym [] (y ∷ ys) h k = absurd (cc)
bytes_antisym (x ∷ xs) [] h k = absurd (cc)
bytes_antisym (x ∷ xs) (y ∷ ys) h k =
    let first : x ≡ y = ground arith in
    let rest : xs ≡ ys = bytes_antisym xs ys (ground arith) (ground arith) in λ i. first i ∷ rest i

pub leb_time-IsPreorder : IsPreorder leb_time
unfolding leb_time
leb_time-IsPreorder = record {
  total = λ a b h. ground (arith, bytes_total a.text b.text);
  trans = λ a b c h k. ground (arith, bytes_trans a.text b.text c.text);
}

pub leb_time→le : (a b : UtcTimestamp) → leb_time a b ≡ true → a.seconds ≤ b.seconds
unfolding leb_time
leb_time→le a b h = ground arith

pub leb_time→false : (a b : UtcTimestamp) → leb_time a b ≡ false → b.seconds ≤ a.seconds
unfolding leb_time
leb_time→false a b h = ground arith

-- A pair of a time and a version is ordered as its parts are.
pub published-IsPreorder {ℓ} :
    {A : Type ℓ} (time : A → UtcTimestamp) (version : A → Version)
    → (leb_version : Version → Version → Bool) → IsPreorder leb_version
    → IsPreorder
        (λ (a : A) (b : A). lexicographic leb_version (time a) (version a) (time b) (version b))
published-IsPreorder time version leb_version o = record {
  total = λ a b h. ground (
    arith,
    leb_time-IsPreorder.total (time a) (time b),
    leb_time-IsPreorder.total (time b) (time a),
    o.total (version a) (version b),
  );
  trans = λ a b c h k. ground (
    arith,
    leb_time-IsPreorder.trans (time a) (time b) (time c),
    leb_time-IsPreorder.trans (time c) (time b) (time a),
    leb_time-IsPreorder.trans (time b) (time c) (time a),
    leb_time-IsPreorder.trans (time c) (time a) (time b),
    leb_time-IsPreorder.total (time a) (time c),
    o.trans (version a) (version b) (version c),
  );
}

-- The order of pairs implies that of the times.
pub lexicographic→le :
    (leb_version : Version → Version → Bool) (t u : UtcTimestamp) (v w : Version)
    → lexicographic leb_version t v u w ≡ true
    → t.seconds ≤ u.seconds
lexicographic→le leb_version t u v w h = leb_time→le t u (ground arith)

pub same_key_refl : (a : Version) → same_key a a ≡ true
unfolding same_key
same_key_refl a =
    ground (
      arith,
      ==_iff a.major a.major,
      ==_iff a.minor a.minor,
      ==_iff a.patch a.patch,
      beq_refl a.pre,
    )

pub same_key_sym : (a b : Version) → same_key a b ≡ true → same_key b a ≡ true
unfolding same_key
same_key_sym a b h =
    let pre : beq b.pre a.pre ≡ true =
      (beq_iff b.pre a.pre).1 (sym (beq→eq a.pre b.pre (ground arith))) in
    ground arith

pub same_key_trans :
    (a b c : Version) → same_key a b ≡ true → same_key b c ≡ true → same_key a c ≡ true
unfolding same_key
same_key_trans a b c h k =
    let pre : beq a.pre c.pre ≡ true =
      (beq_iff a.pre c.pre).1
        (beq→eq a.pre b.pre (ground arith) ∙ beq→eq b.pre c.pre (ground arith)) in
    ground arith
