-- ===== src/Category/Text.antt =====
-- Which texts `from_str` of rust/src/category.rs reads as which category.
use mathlib.Core.Path.{subst}
use pkgre.Prelude.{
  ℕ, ◌≤◌, ◌≡◌, ◌≢◌, ◌↔◌, ◌⊎◌, refl, sym, ap, ◌∙◌, [], ◌∷◌, ◌++◌, List, Bytes, length, All, all,
  last, true, false, Option, some, ok, >>=-eq-ok, ◌>>=◌, ok_inj, arith, split, join, split-join,
  join-split, Lacks,
}
use pkgre.Category.{
  CategoryId, Part, in_registry, in_local, is_kebab, is_ascii_alphanumeric, first, is_some_and,
  is_empty, validate, new, to_string, from_components, from_str,
}

-- A lower case letter, a digit or a dash.
abbrev pub IsKebabByte : ℕ → Type 0
IsKebabByte c = (c ≡ b'-') ⊎ (b'0' ≤ c) × (c ≤ b'9') ⊎ (b'a' ≤ c) × (c ≤ b'z')

-- A kebab case name of 1 to 64 bytes without a dash at either end.
pub record IsName (value : Bytes) : Type 0 where
  pub nonempty : value ≢ []
  pub bounded : length value ≤ 64
  pub bytes : All IsKebabByte value
  pub first_plain : first value ≢ some b'-'
  pub last_plain : last value ≢ some b'-'

all_kebab : (value : Bytes) → (all is_kebab value ≡ true) ↔ All IsKebabByte value
all_kebab [] = (λ _. tt, λ _. refl)
all_kebab (c ∷ value) = (
  λ h. (ground arith, (all_kebab value).0 (ground arith)),
  λ h. ground (arith, (all_kebab value).1 h.1),
)

plain : (edge : Option ℕ) → is_some_and is_ascii_alphanumeric edge ≡ true → edge ≢ some b'-'
plain edge h e = ground (arith, ap (is_some_and is_ascii_alphanumeric) e)

alphanumeric : (c : ℕ) → IsKebabByte c → some c ≢ some b'-' → is_ascii_alphanumeric c ≡ true
alphanumeric c k n = let other : c ≢ b'-' = λ e. n (ap some e) in ground arith

last_alphanumeric :
    (c : ℕ) (value : Bytes)
    → All IsKebabByte (c ∷ value)
    → last (c ∷ value) ≢ some b'-'
    → is_some_and is_ascii_alphanumeric (last (c ∷ value)) ≡ true
last_alphanumeric c [] k n = alphanumeric c k.0 n
last_alphanumeric c (d ∷ value) k n = last_alphanumeric d value k.1 n

validate_complete : (part : Part) (value : Bytes) → IsName value → validate part value ≡ ok tt
unfolding validate
validate_complete part [] h = absurd (h.nonempty refl)
validate_complete part (c ∷ value) h = ground (
  arith,
  h.bounded,
  (all_kebab (c ∷ value)).1 h.bytes,
  alphanumeric c h.bytes.0 h.first_plain,
  last_alphanumeric c value h.bytes h.last_plain,
)

validate_sound : (part : Part) (value : Bytes) → validate part value ≡ ok tt → IsName value
unfolding validate
validate_sound part value h = record {
  nonempty = λ e. ground (arith, ap is_empty e);
  bounded = ground arith;
  bytes = (all_kebab value).0 (ground arith);
  first_plain = plain (first value) (ground arith);
  last_plain = plain (last value) (ground arith);
}

new_complete :
    (registry local : Bytes)
    → IsName registry
    → IsName local
    → new registry local ≡ ok (record { registry = registry; local = local })
unfolding new
new_complete registry local r l =
    rw (validate_complete in_registry registry r, validate_complete in_local local l) refl

new_sound :
    (registry local : Bytes) (id : CategoryId)
    → new registry local ≡ ok id
    → IsName registry × IsName local × (id ≡ record { registry = registry; local = local })
unfolding new
new_sound registry local id h =
    let made = λ (_ : Unit {0}). ok (record { registry = registry; local = local }) in
    let (_, r, h') =
      >>=-eq-ok (validate in_registry registry) (λ _. validate in_local local >>= made) h in
    let (_, l, e) = >>=-eq-ok (validate in_local local) made h' in
    (validate_sound in_registry registry r, validate_sound in_local local l, sym (ok_inj e))

kebab-Lacks : (value : Bytes) → All IsKebabByte value → Lacks b'/' value
kebab-Lacks [] h = tt
kebab-Lacks (c ∷ value) h = ((λ e. omega (arith, h.0, e)), kebab-Lacks value h.1)

full : (value : Bytes) → IsName value → is_empty value ≡ false
full [] h = absurd (h.nonempty refl)
full (c ∷ value) h = refl

components_complete :
    (id : CategoryId)
    → IsName id.registry
    → IsName id.local
    → from_components id.registry (id.local ∷ []) ≡ ok id
unfolding from_components
components_complete id r l =
    rw (full id.registry r, full id.local l) (new_complete id.registry id.local r l)

from_str_complete :
    (id : CategoryId) → IsName id.registry → IsName id.local → from_str (to_string id) ≡ ok id
unfolding from_str to_string join
from_str_complete id r l =
    let cut : split b'/' (id.registry ++ (b'/' ∷ id.local)) ≡ (id.registry, id.local ∷ []) =
      split-join b'/' id.registry (id.local ∷ []) (kebab-Lacks id.registry r.bytes)
        (kebab-Lacks id.local l.bytes, tt) in
    ap (λ (c : Bytes × List Bytes). from_components c.0 c.1) cut ∙ components_complete id r l

components_sound :
    (registry : Bytes) (others : List Bytes) (id : CategoryId)
    → from_components registry others ≡ ok id
    → IsName id.registry
      × IsName id.local
      × (join b'/' registry others ≡ id.registry ++ (b'/' ∷ id.local))
unfolding from_components join
components_sound registry [] id h = absurd (ground arith)
components_sound registry (local ∷ []) id h =
    let (_, _, made) = >>=-eq-ok _ (λ _. new registry local) h in
    let (r, l, e) = new_sound registry local id made in
    subst
      (λ (c : CategoryId).
        IsName c.registry
        × IsName c.local
        × (registry ++ (b'/' ∷ local) ≡ c.registry ++ (b'/' ∷ c.local)))
      (sym e) (r, l, refl)
components_sound registry (local ∷ other ∷ others) id h = absurd (cc)

-- A text is read as a category exactly when it is what the category is written as, and the two
-- components are kebab case names: of 1 to 64 lower case letters, digits and dashes, without a dash
-- at either end. So reading what was written gives the category back, and no other text gives it.
pub from_str_iff :
    (value : Bytes) (id : CategoryId)
    → (from_str value ≡ ok id) ↔ (IsName id.registry × IsName id.local × (value ≡ to_string id))
unfolding from_str to_string
from_str_iff value id = (
  λ h.
      let cut = split b'/' value in
      let (r, l, e) = components_sound cut.0 cut.1 id h in (r, l, sym (join-split b'/' value) ∙ e),
  λ h. ap from_str h.2 ∙ from_str_complete id h.0 h.1,
)
