-- ===== src/Policy/Tags.antt =====
-- What a validated Git tag looks like: `validate_git_tag` of rust/src/policy.rs.
use pkgre.Prelude.{
  ℕ, ◌≤◌, ◌≡◌, inl, inr, arith, [], ◌∷◌, Bytes, codes, length, all, last, All, all→All, Bool, true,
  false, not, ◌&&◌, ◌||◌, leb, ◌==◌, ok, Bool-cases, split,
}
use pkgre.Category.{first, is_some_and, is_ascii_alphanumeric, is_empty}
use pkgre.AcceptedRef.{starts_with, is_ascii}
use pkgre.Transition.Evidence.{ensure_passes}
use pkgre.Policy.{
  contains, ends_with, pieces, is_tag_byte, validate_git_tag, tag_empty, tag_too_long,
  tag_not_ascii, tag_character, tag_start, unsafe_tag,
}
use pkgre.Policy.Checks.{ensured}

-- A piece that is not empty and does not begin with a dot.
pub data IsNamed : Bytes → Type 0 where
  named : (c : ℕ) (rest : Bytes) → (c == b'.') ≡ false → IsNamed (c ∷ rest)

-- No slash is followed by a slash, a dot or the end, in a text behind a byte.
record IsClean (before : ℕ) (value : Bytes) : Type 0 where
  pub slashes : contains (codes "//") (before ∷ value) ≡ false
  pub dots : contains (codes "/.") (before ∷ value) ≡ false
  pub ending : is_some_and (λ byte. byte == b'.' || byte == b'/') (last (before ∷ value)) ≡ false

IsClean-tail : (before c : ℕ) (value : Bytes) → IsClean before (c ∷ value) → IsClean c value
IsClean-tail before c value k = record {
  slashes = ground (arith, k.slashes);
  dots = ground (arith, k.dots);
  ending = k.ending;
}

split-IsNamed :
    (before : ℕ) (value : Bytes)
    → IsClean before value
    → ((before == b'/') ≡ true → IsNamed (split b'/' value).0) × All IsNamed (split b'/' value).1
unfolding split starts_with
split-IsNamed before [] k = (λ slash. absurd (ground (arith, k.ending)), tt)
split-IsNamed before (c ∷ value) k =
    let (start, others) = split-IsNamed c value (IsClean-tail before c value k) in
    elim (Bool-cases (c == b'/')) [
      | inl slash ↦ rw slash (λ slash'. absurd (ground (arith, k.slashes)), (start slash, others))
      | inr other ↦
          rw other (λ slash. named c (split b'/' value).0 (ground (arith, k.dots)), others)
    ]

-- The rules of a reference's name.
pub record IsRefName (tag : Bytes) : Type 0 where
  pub short : length tag ≤ 255
  pub allowed : All (λ byte. is_tag_byte byte ≡ true) tag
  pub components : All IsNamed (pieces tag)
  pub no_lock : All (λ piece. not (ends_with (codes ".lock") piece) ≡ true) (pieces tag)
  pub no_range : contains (codes "..") tag ≡ false

components_lem :
    (c : ℕ) (value : Bytes)
    → is_ascii_alphanumeric c ≡ true
    → IsClean c value
    → All IsNamed (pieces (c ∷ value))
unfolding split
components_lem c value start clean =
    let slash : (c == b'/') ≡ false = ground (arith, start) in
    let dot : (c == b'.') ≡ false = ground (arith, start) in
    rw slash (named c (split b'/' value).0 dot, (split-IsNamed c value clean).1)

-- The last test of the source.
abbrev is_safe : Bytes → Bool
is_safe tag =
    not (contains (codes "..") tag)
    && not (contains (codes "//") tag)
    && not (contains (codes "/.") tag)
    && not (is_some_and (λ byte. byte == b'.' || byte == b'/') (last tag))
    && all (λ (component : Bytes). not (ends_with (codes ".lock") component)) (pieces tag)

record Tests (tag : Bytes) : Type 0 where
  pub short : leb (length tag) 255 ≡ true
  pub bytes : all is_tag_byte tag ≡ true
  pub start : is_some_and is_ascii_alphanumeric (first tag) ≡ true
  pub safe : is_safe tag ≡ true

validate_git_tag-Tests : (tag : Bytes) → validate_git_tag tag ≡ ok tt → Tests tag
unfolding validate_git_tag
validate_git_tag-Tests tag h =
    let (nonempty, h1) = ensured (not (is_empty tag)) tag_empty _ h in
    let (short, h2) = ensured (leb (length tag) 255) tag_too_long _ h1 in
    let (ascii, h3) = ensured (is_ascii tag) tag_not_ascii _ h2 in
    let (bytes, h4) = ensured (all is_tag_byte tag) tag_character _ h3 in
    let (start, h5) = ensured (is_some_and is_ascii_alphanumeric (first tag)) tag_start _ h4 in
    record {
      short = short;
      bytes = bytes;
      start = start;
      safe = (ensure_passes (is_safe tag) unsafe_tag).0 h5;
    }

tag-IsRefName : (tag : Bytes) → Tests tag → IsRefName tag
tag-IsRefName [] t = absurd (cc (t.start))
tag-IsRefName (c ∷ value) t =
    let safe = t.safe in
    let clean : IsClean c value = record {
      slashes = ground (arith, safe);
      dots = ground (arith, safe);
      ending = ground (arith, safe);
    } in
    record {
      short = ground (arith, t.short);
      allowed = all→All is_tag_byte (c ∷ value) t.bytes;
      components = components_lem c value t.start clean;
      no_lock =
          all→All (λ (p : Bytes). not (ends_with (codes ".lock") p)) (pieces (c ∷ value))
            (ground (arith, safe));
      no_range = ground (arith, safe);
    }

-- A validated tag has at most 255 bytes, all of them letters, digits, `.`, `_`, `/` or `-`. Its
-- components between slashes are not empty, do not begin with a dot and do not end in `.lock`, and
-- it does not contain `..`.
pub validate_git_tag-IsRefName : (tag : Bytes) → validate_git_tag tag ≡ ok tt → IsRefName tag
validate_git_tag-IsRefName tag h = tag-IsRefName tag (validate_git_tag-Tests tag h)
