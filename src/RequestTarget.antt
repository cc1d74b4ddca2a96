-- ===== src/RequestTarget.antt =====
-- Raw request targets: rust/src/request_target.rs.
pub mod Grammar
pub mod Safe
use pkgre.Prelude.{
  ℕ, zero, suc, ◌-◌, [], ◌∷◌, List, Bytes, codes, length, all, any, last, beq, Bool, true, false,
  not, ◌&&◌, ◌||◌, leb, ltb, ◌==◌, if◌then◌else◌, Option, none, some, split,
}
use pkgre.AcceptedRef.{starts_with, is_ascii}

abbrev pub max_request_target_bytes : ℕ
max_request_target_bytes = 1024

abbrev pub max_js_package_bytes : ℕ
max_js_package_bytes = 214

pub record CanonicalRequestTarget : Type 0 where
  pub path : Bytes

abbrev is_ascii_lowercase : ℕ → Bool
is_ascii_lowercase byte = leb b'a' byte && leb byte b'z'

abbrev is_ascii_digit : ℕ → Bool
is_ascii_digit byte = leb b'0' byte && leb byte b'9'

abbrev is_ascii_uppercase : ℕ → Bool
is_ascii_uppercase byte = leb b'A' byte && leb byte b'Z'

unfoldable pub valid_generic_path_byte : ℕ → Bool
valid_generic_path_byte byte =
    is_ascii_lowercase byte
    || is_ascii_uppercase byte
    || is_ascii_digit byte
    || any (λ c. byte == c) (codes "/._~+@-")

unfoldable pub valid_component_byte : ℕ → Bool
valid_component_byte byte =
    is_ascii_lowercase byte || is_ascii_digit byte || any (λ c. byte == c) (codes "._~-")

unfoldable pub valid_js_component : Bytes → Bool
unfolding valid_component_byte
valid_js_component [] = false
valid_js_component (first ∷ rest) = is_ascii_lowercase first && all valid_component_byte rest

-- `windows(n).any(|bytes| bytes == pattern)`, for a pattern of length `n`.
unfoldable pub has_window : Bytes → Bytes → Bool
unfolding starts_with
has_window pattern [] = false
has_window pattern (c ∷ value) = starts_with pattern (c ∷ value) || has_window pattern value

abbrev pub is_empty : Bytes → Bool
is_empty [] = true
is_empty (c ∷ value) = false

-- `&value[n..]`
abbrev pub drop : ℕ → Bytes → Bytes
drop zero value = value
drop (suc n) [] = []
drop (suc n) (c ∷ value) = drop n value

abbrev pub before : ℕ → Option (Bytes × Bytes) → Option (Bytes × Bytes)
before c none = none
before c (some (scope, name)) = some (c ∷ scope, name)

-- What stands before and after the first `%2f`.
unfoldable pub split_encoded : Bytes → Option (Bytes × Bytes)
unfolding starts_with
split_encoded [] = none
split_encoded (c ∷ value) =
    let later = split_encoded value in
    if starts_with (codes "%2f") (c ∷ value) then some ([], drop 3 (c ∷ value)) else before c later

-- `raw.len().checked_sub(3).is_some_and(|decoded_len| …)` and the two components.
unfoldable pub valid_pair : Bytes → Option (Bytes × Bytes) → Bool
unfolding has_window valid_js_component
valid_pair raw none = false
valid_pair raw (some (scope, name)) =
    leb 3 (length raw)
    && leb (length raw - 3) max_js_package_bytes
    && not (has_window (codes "%2f") name)
    && valid_js_component scope
    && valid_js_component name

unfoldable pub valid_scoped_js_metadata_target : Bytes → Bool
unfolding valid_pair split_encoded
valid_scoped_js_metadata_target raw = valid_pair raw (split_encoded (drop 2 raw))

-- A segment that may not stand in a path.
unfoldable pub is_bad_segment : Bytes → Bool
is_bad_segment segment = is_empty segment || beq segment (codes ".") || beq segment (codes "..")

-- The choice of the grammar by the first two bytes.
unfoldable pub valid_path : Bytes → Bool
unfolding starts_with valid_scoped_js_metadata_target valid_generic_path_byte
valid_path raw =
    if starts_with (codes "/@") raw
    then valid_scoped_js_metadata_target raw
    else not (any (λ byte. byte == b'%') raw) && all valid_generic_path_byte (drop 1 raw)

abbrev ends_with_slash : Option ℕ → Bool
ends_with_slash none = false
ends_with_slash (some byte) = byte == b'/'

-- `CanonicalRequestTarget::parse`. The bytes are ASCII, so they are their own UTF-8 text.
unfoldable pub parse : Bytes → Option CanonicalRequestTarget
unfolding is_ascii starts_with has_window split is_bad_segment valid_path
parse raw =
    if is_empty raw
      || ltb max_request_target_bytes (length raw)
      || not (is_ascii raw)
      || not (starts_with (codes "/") raw)
    then none
    else if beq raw (codes "/")
    then some (record { path = codes "/" })
    else if ends_with_slash (last raw) || has_window (codes "//") raw
    then none
    else if any is_bad_segment (split b'/' raw).1
    then none
    else if not (valid_path raw)
    then none
    else some (record { path = raw })
