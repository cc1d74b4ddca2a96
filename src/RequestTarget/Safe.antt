-- ===== src/RequestTarget/Safe.antt =====
-- What `CanonicalRequestTarget::parse` of rust/src/request_target.rs lets through.
use mathlib.Core.Option.{some_inj}
use pkgre.Prelude.{
  ◌≤◌, ◌≡◌, ◌⊎◌, inl, inr, refl, sym, ap, ◌∙◌, [], ◌∷◌, Bytes, codes, length, any, ltb, All,
  if◌then◌else◌, beq, beq→eq, Bool, true, false, not, ◌||◌, arith, none, some, split, join-split,
}
use pkgre.AcceptedRef.{starts_with, is_ascii}
use pkgre.RequestTarget.{
  CanonicalRequestTarget, max_request_target_bytes, is_empty, is_bad_segment, valid_path, drop,
  parse,
}
use pkgre.RequestTarget.Grammar.{
  IsSegment, IsRooted, IsPathByte, IsScoped, segments_good, path_good,
}

-- What is promised of an accepted target.
pub record IsCanonicalTarget (raw : Bytes) : Type 0 where
  pub bounded : length raw ≤ 1024
  pub rooted : (raw ≡ codes "/") ⊎ IsRooted raw
  pub grammar : (raw ≡ codes "/") ⊎ IsScoped raw ⊎ All IsPathByte (drop 1 raw)

starts_slash : (raw : Bytes) → starts_with (codes "/") raw ≡ true → raw ≡ b'/' ∷ drop 1 raw
unfolding starts_with
starts_slash [] h = cc
starts_slash (a ∷ raw) h = ground arith

-- The pieces behind the first `/` are the pieces of what follows it.
split-IsRooted :
    (raw : Bytes)
    → starts_with (codes "/") raw ≡ true
    → any is_bad_segment (split b'/' raw).1 ≡ false
    → IsRooted raw
unfolding split
split-IsRooted raw s h =
    let cut = split b'/' (drop 1 raw) in
    let e : (split b'/' raw).1 ≡ cut.0 ∷ cut.1 = ap (λ v. (split b'/' v).1) (starts_slash raw s) in
    let good : All IsSegment (cut.0 ∷ cut.1) = segments_good (cut.0 ∷ cut.1) (cc (e, h)) in
    (
      cut.0,
      cut.1,
      starts_slash raw s ∙ ap (λ v. b'/' ∷ v) (sym (join-split b'/' (drop 1 raw))),
      good.0,
      good.1,
    )

-- Which way through the guards of `parse` leads to a target.
gates :
    (early root odd bad invalid : Bool) (raw : Bytes) (target : CanonicalRequestTarget)
    → (if early
        then none
        else if root
        then some (record { path = codes "/" })
        else if odd
        then none
        else if bad
        then none
        else if invalid
        then none
        else some (record { path = raw }))
      ≡ some target
    → (early ≡ false)
      × ((root ≡ true) × (codes "/" ≡ target.path)
          ⊎ (bad ≡ false) × (invalid ≡ false) × (raw ≡ target.path))
gates true root odd bad invalid raw target h = absurd (cc)
gates false true odd bad invalid raw target h =
    (refl, inl (refl, ap (λ (t : CanonicalRequestTarget). t.path) (some_inj.0 h)))
gates false false true bad invalid raw target h = absurd (cc)
gates false false false true invalid raw target h = absurd (cc)
gates false false false false true raw target h = absurd (cc)
gates false false false false false raw target h =
    (refl, inr (refl, refl, ap (λ (t : CanonicalRequestTarget). t.path) (some_inj.0 h)))

early_passed :
    (raw : Bytes)
    → (is_empty raw
        || ltb max_request_target_bytes (length raw)
        || not (is_ascii raw)
        || not (starts_with (codes "/") raw))
      ≡ false
    → (ltb 1024 (length raw) ≡ false) × (starts_with (codes "/") raw ≡ true)
early_passed raw h = (ground arith, ground arith)

canonical_good :
    (raw path : Bytes)
    → ltb 1024 (length raw) ≡ false
    → starts_with (codes "/") raw ≡ true
    → (beq raw (codes "/") ≡ true) × (codes "/" ≡ path)
      ⊎ (any is_bad_segment (split b'/' raw).1 ≡ false)
        × (not (valid_path raw) ≡ false)
        × (raw ≡ path)
    → (path ≡ raw) × IsCanonicalTarget raw
canonical_good raw path short slash (inl (root, e)) = (
  sym e ∙ sym (beq→eq raw (codes "/") root),
  record {
    bounded = ground arith;
    rooted = inl (beq→eq raw (codes "/") root);
    grammar = inl (beq→eq raw (codes "/") root);
  },
)
canonical_good raw path short slash (inr (good, valid, e)) = (
  sym e,
  record {
    bounded = ground arith;
    rooted = inr (split-IsRooted raw slash good);
    grammar = inr (path_good raw (ground arith));
  },
)

-- An accepted target is the raw target itself, unchanged, and at most 1024 bytes long. It is `/`, or
-- `/` and segments joined by `/` of which none is empty, `.` or `..`; and it is `/`, or the encoded
-- name of a scoped package, or made of letters, digits and `+ - . / @ _ ~` only.
pub parse-IsCanonicalTarget :
    (raw : Bytes) (target : CanonicalRequestTarget)
    → parse raw ≡ some target
    → (target.path ≡ raw) × IsCanonicalTarget raw
unfolding parse
parse-IsCanonicalTarget raw target h =
    let (early, way) = gates _ _ _ _ _ raw target h in
    let (short, slash) = early_passed raw early in canonical_good raw target.path short slash way
