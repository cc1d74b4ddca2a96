-- ===== src/RequestTarget/Grammar.antt =====
-- The grammar of request targets, apart from the tests of rust/src/request_target.rs.
use mathlib.Core.Path.{subst}
use mathlib.Core.Option.{some_inj}
use pkgre.Prelude.{
  ℕ, ◌≤◌, ◌≡◌, ◌≢◌, ◌⊎◌, inl, inr, refl, ap, ◌∙◌, [], ◌∷◌, ◌++◌, List, Bytes, codes, length, all,
  any, All, ◌==◌, if◌then◌else◌, Bool, true, false, not, ◌&&◌, arith, Option, none, some, join,
}
use pkgre.AcceptedRef.{starts_with}
use pkgre.RequestTarget.{
  valid_generic_path_byte, valid_component_byte, valid_js_component, split_encoded, valid_pair,
  valid_scoped_js_metadata_target, is_bad_segment, valid_path, drop, before,
}

-- A segment that names something in its directory.
abbrev pub IsSegment : Bytes → Type 0
IsSegment segment = (segment ≢ []) × (segment ≢ codes ".") × (segment ≢ codes "..")

-- `/` and the segments behind it.
abbrev pub IsRooted : Bytes → Type 0
IsRooted raw =
    (first : Bytes) × (others : List Bytes) × (raw ≡ b'/' ∷ join b'/' first others)
    × IsSegment first
    × All IsSegment others

-- A letter, a digit, or one of `+ - . / @ _ ~`.
abbrev pub IsPathByte : ℕ → Type 0
IsPathByte c =
    (c ≡ b'+')
    ⊎ (b'-' ≤ c) × (c ≤ b'9')
    ⊎ (b'@' ≤ c) × (c ≤ b'Z')
    ⊎ (c ≡ b'_')
    ⊎ (b'a' ≤ c) × (c ≤ b'z')
    ⊎ (c ≡ b'~')

-- A lower case letter, a digit, or one of `- . _ ~`.
abbrev pub IsNameByte : ℕ → Type 0
IsNameByte c =
    (c ≡ b'-')
    ⊎ (c ≡ b'.')
    ⊎ (b'0' ≤ c) × (c ≤ b'9')
    ⊎ (c ≡ b'_')
    ⊎ (b'a' ≤ c) × (c ≤ b'z')
    ⊎ (c ≡ b'~')

abbrev pub IsName : Bytes → Type 0
IsName [] = ⊥
IsName (first ∷ rest) = ((b'a' ≤ first) × (first ≤ b'z')) × All IsNameByte rest

-- `/@scope%2fname`, of 214 bytes at most when it is decoded and the `/` in front is counted.
abbrev pub IsScoped : Bytes → Type 0
IsScoped raw =
    (scope : Bytes) × (name : Bytes) × (raw ≡ codes "/@" ++ scope ++ codes "%2f" ++ name)
    × IsName scope
    × IsName name
    × (length raw ≤ 217)

all_generic : (value : Bytes) → all valid_generic_path_byte value ≡ true → All IsPathByte value
unfolding valid_generic_path_byte
all_generic [] h = tt
all_generic (c ∷ value) h = (ground arith, all_generic value (ground arith))

all_component : (value : Bytes) → all valid_component_byte value ≡ true → All IsNameByte value
unfolding valid_component_byte
all_component [] h = tt
all_component (c ∷ value) h = (ground arith, all_component value (ground arith))

valid_js_component-IsName : (value : Bytes) → valid_js_component value ≡ true → IsName value
unfolding valid_js_component
valid_js_component-IsName [] h = cc
valid_js_component-IsName (c ∷ value) h = (ground arith, all_component value (ground arith))

IsSegment-good : (s : Bytes) → is_bad_segment s ≡ false → IsSegment s
unfolding is_bad_segment
IsSegment-good s h = (
  λ e. ground (arith, ap is_bad_segment e),
  λ e. ground (arith, ap is_bad_segment e),
  λ e. ground (arith, ap is_bad_segment e),
)

pub segments_good : (ss : List Bytes) → any is_bad_segment ss ≡ false → All IsSegment ss
segments_good [] h = tt
segments_good (s ∷ ss) h = (IsSegment-good s (ground arith), segments_good ss (ground arith))

encoded_prefix :
    (value : Bytes) → starts_with (codes "%2f") value ≡ true → value ≡ codes "%2f" ++ drop 3 value
unfolding starts_with
encoded_prefix [] h = cc
encoded_prefix (a ∷ []) h = ground arith
encoded_prefix (a ∷ b ∷ []) h = ground arith
encoded_prefix (a ∷ b ∷ c ∷ value) h = ground arith

-- What both results of the test for `%2f` at the front give.
found :
    (here : Bool) (later : Option (Bytes × Bytes)) (c : ℕ) (value scope name : Bytes)
    → starts_with (codes "%2f") (c ∷ value) ≡ here
    → ((s n : Bytes) → later ≡ some (s, n) → value ≡ s ++ codes "%2f" ++ n)
    → (if here then some ([], drop 3 (c ∷ value)) else before c later) ≡ some (scope, name)
    → c ∷ value ≡ scope ++ codes "%2f" ++ name
found true later c value scope name h sound e =
    subst (λ (p : Bytes × Bytes). c ∷ value ≡ p.0 ++ codes "%2f" ++ p.1) (some_inj.0 e)
      (encoded_prefix (c ∷ value) h)
found false none c value scope name h sound e = absurd (cc)
found false (some (s, n)) c value scope name h sound e =
    subst (λ (p : Bytes × Bytes). c ∷ value ≡ p.0 ++ codes "%2f" ++ p.1) (some_inj.0 e)
      (ap (λ v. c ∷ v) (sound s n refl))

split_encoded_sound :
    (value scope name : Bytes)
    → split_encoded value ≡ some (scope, name)
    → value ≡ scope ++ codes "%2f" ++ name
unfolding split_encoded
split_encoded_sound [] scope name h = cc
split_encoded_sound (c ∷ value) scope name h =
    found _ (split_encoded value) c value scope name refl (split_encoded_sound value) h

scoped_prefix : (raw : Bytes) → starts_with (codes "/@") raw ≡ true → raw ≡ codes "/@" ++ drop 2 raw
unfolding starts_with
scoped_prefix [] h = cc
scoped_prefix (a ∷ []) h = ground arith
scoped_prefix (a ∷ b ∷ raw) h = ground arith

pair-IsScoped :
    (raw : Bytes) (pair : Option (Bytes × Bytes))
    → starts_with (codes "/@") raw ≡ true
    → split_encoded (drop 2 raw) ≡ pair
    → valid_pair raw pair ≡ true
    → IsScoped raw
unfolding valid_pair
pair-IsScoped raw none s e h = cc
pair-IsScoped raw (some (scope, name)) s e h = (
  scope,
  name,
  scoped_prefix raw s ∙ ap (λ v. codes "/@" ++ v) (split_encoded_sound (drop 2 raw) scope name e),
  valid_js_component-IsName scope (ground arith),
  valid_js_component-IsName name (ground arith),
  ground arith,
)

-- The two grammars, by the result of the test for `/@`.
grammar_good :
    (raw : Bytes) (scoped : Bool)
    → starts_with (codes "/@") raw ≡ scoped
    → (if scoped
        then valid_scoped_js_metadata_target raw
        else not (any (λ byte. byte == b'%') raw) && all valid_generic_path_byte (drop 1 raw))
      ≡ true
    → IsScoped raw ⊎ All IsPathByte (drop 1 raw)
unfolding valid_scoped_js_metadata_target
grammar_good raw true s h = inl (pair-IsScoped raw (split_encoded (drop 2 raw)) s refl h)
grammar_good raw false s h = inr (all_generic (drop 1 raw) (ground arith))

pub path_good : (raw : Bytes) → valid_path raw ≡ true → IsScoped raw ⊎ All IsPathByte (drop 1 raw)
unfolding valid_path
path_good raw h = grammar_good raw _ refl h
