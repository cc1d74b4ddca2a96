-- ===== src/Prelude/Split.antt =====
-- `split` of a string or slice at a separator, and its inverse.
use Prim.Native.Nat.{ℕ}
use mathlib.Core.Path.{◌≡◌, refl, sym, ap, ◌∙◌}
use mathlib.Core.Logic.{◌≢◌, inl, inr}
use mathlib.Core.Bool.{false}
use mathlib.Core.List.{List, [], ◌∷◌, ◌++◌}
use native.Mathlib.Omega.{arith}
use pkgre.Prelude.Tests.{◌==◌, ==_iff, if◌then◌else◌, Bool-cases}
use pkgre.Prelude.Lists.{Bytes, All}

-- The pieces between the separators. There is always a first one, so it stands apart.
unfoldable pub split : ℕ → Bytes → Bytes × List Bytes
split sep [] = ([], [])
split sep (c ∷ value) =
    let (first, others) = split sep value in
    if c == sep then ([], first ∷ others) else (c ∷ first, others)

unfoldable pub join : ℕ → Bytes → List Bytes → Bytes
join sep first [] = first
join sep first (piece ∷ others) = first ++ (sep ∷ join sep piece others)

-- The separator does not stand in a piece.
abbrev pub Lacks : ℕ → Bytes → Type 0
Lacks sep piece = All (λ c. c ≢ sep) piece

join-cons :
    (sep c : ℕ) (first : Bytes) (others : List Bytes)
    → join sep (c ∷ first) others ≡ c ∷ join sep first others
unfolding join
join-cons sep c first [] = refl
join-cons sep c first (piece ∷ others) = refl

pub join-split :
    (sep : ℕ) (value : Bytes) → join sep (split sep value).0 (split sep value).1 ≡ value
unfolding split join
join-split sep [] = refl
join-split sep (c ∷ value) = elim (Bool-cases (c == sep)) [
  | inl same ↦ rw same (
      ap (λ s. s ∷ join sep (split sep value).0 (split sep value).1) (sym ((==_iff c sep).0 same))
      ∙ ap (λ v. c ∷ v) (join-split sep value))
  | inr other ↦ rw other (
      join-cons sep c (split sep value).0 (split sep value).1
      ∙ ap (λ v. c ∷ v) (join-split sep value))
]

join-cons-split :
    (sep c : ℕ) (first : Bytes) (others : List Bytes)
    → (c == sep) ≡ false
    → split sep (join sep first others) ≡ (first, others)
    → split sep (join sep (c ∷ first) others) ≡ (c ∷ first, others)
unfolding split
join-cons-split sep c first others other h =
    ap (split sep) (join-cons sep c first others) ∙ rw (h, other) refl

pub split-join :
    (sep : ℕ) (first : Bytes) (others : List Bytes)
    → Lacks sep first
    → All (Lacks sep) others
    → split sep (join sep first others) ≡ (first, others)
unfolding split join
split-join sep [] [] h hs = refl
split-join sep [] (piece ∷ others) h hs =
    rw ((==_iff sep sep).1 refl, split-join sep piece others hs.0 hs.1)
split-join sep (c ∷ first) others h hs =
    let other : (c == sep) ≡ false = ground (arith, h.0) in
    join-cons-split sep c first others other (split-join sep first others h.1 hs)

pub split-Lacks :
    (sep : ℕ) (value : Bytes) → Lacks sep (split sep value).0 × All (Lacks sep) (split sep value).1
unfolding split
split-Lacks sep [] = (tt, tt)
split-Lacks sep (c ∷ value) = elim (Bool-cases (c == sep)) [
  | inl same ↦ rw same (tt, split-Lacks sep value)
  | inr other ↦
      rw other
        (((λ e. ground (arith, other)), (split-Lacks sep value).0), (split-Lacks sep value).1)
]
