-- ===== src/Category.antt =====
-- Category identities: rust/src/category.rs.
pub mod Homes
pub mod Text
use pkgre.Prelude.{
  ℕ, [], ◌∷◌, ◌++◌, List, Bytes, codes, length, all, any, last, beq, leb, ◌==◌, Bool, true, false,
  not, ◌&&◌, ◌||◌, if◌then◌else◌, Option, none, some, Result, ok, err, ◌>>=◌, ◌>>◌, ensure, split,
}

pub record CategoryId : Type 0 where
  pub registry : Bytes
  pub local : Bytes

-- Which component a refusal is about.
pub data Part : Type 0 where
  in_registry in_local : Part

pub data Error : Type 0 where
  empty too_long not_kebab_case bad_edge : Part → Error
  not_two_components unexpected_package unexpected_registry : Error

abbrev pub is_lowercase_or_digit : ℕ → Bool
is_lowercase_or_digit byte = leb b'a' byte && leb byte b'z' || leb b'0' byte && leb byte b'9'

abbrev pub is_ascii_alphanumeric : ℕ → Bool
is_ascii_alphanumeric byte = is_lowercase_or_digit byte || leb b'A' byte && leb byte b'Z'

abbrev pub is_kebab : ℕ → Bool
is_kebab byte = is_lowercase_or_digit byte || byte == b'-'

abbrev pub first : Bytes → Option ℕ
first [] = none
first (c ∷ value) = some c

abbrev pub is_some_and : (ℕ → Bool) → Option ℕ → Bool
is_some_and p none = false
is_some_and p (some c) = p c

abbrev pub is_empty : Bytes → Bool
is_empty [] = true
is_empty (c ∷ value) = false

-- `validate_registry` and `validate_local`, which differ in their messages only.
unfoldable pub validate : Part → Bytes → Result Error (Unit {0})
validate part value = do
  ensure (not (is_empty value)) (empty part)
  ensure (leb (length value) 64) (too_long part)
  ensure (all is_kebab value) (not_kebab_case part)
  ensure
      (is_some_and is_ascii_alphanumeric (first value)
        && is_some_and is_ascii_alphanumeric (last value))
      (bad_edge part)

-- `CategoryId::new`.
unfoldable pub new : Bytes → Bytes → Result Error CategoryId
new registry local = do
  validate in_registry registry
  validate in_local local
  ok (record { registry = registry; local = local })

-- `Display`.
unfoldable pub to_string : CategoryId → Bytes
to_string id = id.registry ++ (b'/' ∷ id.local)

-- `components.next().unwrap_or_default()` behind the first component.
abbrev pub next : List Bytes → Bytes
next [] = []
next (component ∷ others) = component

abbrev pub at_most_one : List Bytes → Bool
at_most_one [] = true
at_most_one (component ∷ []) = true
at_most_one (component ∷ other ∷ others) = false

-- `FromStr`, on the components.
unfoldable pub from_components : Bytes → List Bytes → Result Error CategoryId
from_components registry others = do
  ensure (at_most_one others && not (is_empty registry) && not (is_empty (next others)))
      not_two_components
  new registry (next others)

unfoldable pub from_str : Bytes → Result Error CategoryId
unfolding from_components
from_str value = from_components (split b'/' value).0 (split b'/' value).1

abbrev one_of : List Bytes → Bytes → Bool
one_of names value = any (λ other. beq value other) names

-- The category of a package of the registry `core`.
unfoldable pub core_local : Bytes → Bytes
core_local name =
    if one_of
      (codes "agent-client-protocol"
        ∷ codes "agent-client-protocol-derive"
        ∷ codes "agent-client-protocol-schema"
        ∷ [])
      name
    then codes "acp"
    else if one_of (codes "notify" ∷ codes "notify-types" ∷ []) name
    then codes "filesystem"
    else if one_of (codes "rmcp" ∷ codes "rmcp-macros" ∷ []) name
    then codes "mcp"
    else if one_of (codes "eventsource-stream" ∷ codes "sse-stream" ∷ []) name
    then codes "sse"
    else if one_of (codes "atty" ∷ codes "portable-pty" ∷ []) name
    then codes "terminal"
    else if one_of (codes "serde_yaml" ∷ codes "serde_yaml_ng" ∷ []) name
    then codes "yaml"
    else codes "general"

-- The match on the registry.
unfoldable pub v2_local : Bytes → Bytes → Result Error Bytes
unfolding core_local
v2_local registry name =
    if beq registry (codes "matrix")
    then ok (codes "matrix")
    else if beq registry (codes "pkgre")
    then (if beq name (codes "pkgre-indexer") then ok (codes "tooling") else err unexpected_package)
    else if beq registry (codes "core")
    then ok (core_local name)
    else err unexpected_registry

unfoldable pub category_for_v2_home : Bytes → Bytes → Result Error CategoryId
unfolding v2_local new
category_for_v2_home registry name = do
  local ← v2_local registry name
  new (if beq registry (codes "pkgre") then codes "pkgre" else codes "universe") local
