-- ===== src/Policy.antt =====
-- The validators of rust/src/policy.rs: names, hashes, repositories, tags and paths. The text of a
-- version is the Display of the semver crate, which is a parameter.
pub mod Tags
pub mod Topology
pub mod Distinct
pub mod Checks
pub mod Sound
use pkgre.Prelude.{
  ℕ, ◌+◌, [], ◌∷◌, ◌++◌, List, Bytes, codes, length, all, any, last, beq, leb, ◌==◌, Bool, true,
  false, not, ◌&&◌, ◌||◌, if◌then◌else◌, Option, none, some, Result, ok, err, ◌>>=◌, ◌>>◌, ensure,
  split,
}
use pkgre.Category.{is_ascii_alphanumeric, is_lowercase_or_digit, first, is_some_and, is_empty}
use pkgre.AcceptedRef.{is_lower_hex, starts_with, is_ascii, is_ascii_whitespace}

-- The messages of the file's errors.
pub data PolicyError : Type 0 where
  name_empty name_too_long name_not_ascii name_start name_character : PolicyError
  hash_length hash_not_hex object_length object_not_hex : PolicyError
  path_empty path_absolute path_traversal path_component invalid_alias : PolicyError
  not_https no_authority unsafe_repository repository_slash : PolicyError
  tag_empty tag_too_long tag_not_ascii tag_character tag_start unsafe_tag tag_version : PolicyError
  bad_cname topology_schema homes_schema bad_cargo_version no_registries : PolicyError
  bad_index mixed_sources bad_download registry_cargo duplicate_registry no_main : PolicyError
  no_categories unknown_category_registry repeated_dependency unknown_dependency : PolicyError
  wrong_registry_key unknown_home_registry foreign_category unknown_home_category : PolicyError
  name_collision uninhabited_category source_without_home home_without_source : PolicyError
  unknown_registry no_home wrong_home undeclared_source : PolicyError
  wrong_package wrong_cargo duplicate_approval : PolicyError

unfoldable pub validate_package_name : Bytes → Result PolicyError (Unit {0})
validate_package_name name = do
  ensure (not (is_empty name)) name_empty
  ensure (leb (length name) 64) name_too_long
  ensure (is_ascii name) name_not_ascii
  ensure (is_some_and is_ascii_alphanumeric (first name)) name_start
  ensure (all (λ byte. is_ascii_alphanumeric byte || byte == b'-' || byte == b'_') name)
      name_character

unfoldable pub validate_sha256 : Bytes → Result PolicyError (Unit {0})
validate_sha256 value = do
  ensure (length value == 64) hash_length
  ensure (all is_lower_hex value) hash_not_hex

unfoldable pub validate_git_object_id : Bytes → Result PolicyError (Unit {0})
validate_git_object_id value = do
  ensure (length value == 40 || length value == 64) object_length
  ensure (all is_lower_hex value) object_not_hex

unfoldable pub validate_registry_alias : Bytes → Result PolicyError (Unit {0})
validate_registry_alias name =
    ensure
      (not (is_empty name)
        && all (λ byte. is_lowercase_or_digit byte || byte == b'-' || byte == b'_') name)
      invalid_alias

-- `contains` and `ends_with` of a string.
abbrev pub contains : Bytes → Bytes → Bool
contains needle [] = starts_with needle []
contains needle (c ∷ value) = starts_with needle (c ∷ value) || contains needle value

abbrev pub ends_with : Bytes → Bytes → Bool
ends_with suffix [] = beq suffix []
ends_with suffix (c ∷ value) = beq suffix (c ∷ value) || ends_with suffix value

-- What follows a prefix.
abbrev pub skip : Bytes → Bytes → Bytes
skip [] value = value
skip (c ∷ prefix) [] = []
skip (c ∷ prefix) (d ∷ value) = skip prefix value

unfoldable pub validate_https_repository : Bytes → Result PolicyError (Unit {0})
validate_https_repository repository = do
  ensure (starts_with (codes "https://") repository) not_https
  let rest = skip (codes "https://") repository
  ensure (not (is_empty rest)) no_authority
  ensure
      (is_ascii repository
        && not (any is_ascii_whitespace repository)
        && not (any (λ byte. byte == b'?' || byte == b'#' || byte == b'@') rest))
      unsafe_repository
  ensure (not (is_some_and (λ byte. byte == b'/') (last repository))) repository_slash

-- `tag.split('/')`.
abbrev pub pieces : Bytes → List Bytes
pieces tag = let (piece, others) = split b'/' tag in piece ∷ others

abbrev pub is_tag_byte : ℕ → Bool
is_tag_byte byte =
    is_ascii_alphanumeric byte || byte == b'.' || byte == b'_' || byte == b'/' || byte == b'-'

unfoldable pub validate_git_tag : Bytes → Result PolicyError (Unit {0})
validate_git_tag tag = do
  ensure (not (is_empty tag)) tag_empty
  ensure (leb (length tag) 255) tag_too_long
  ensure (is_ascii tag) tag_not_ascii
  ensure (all is_tag_byte tag) tag_character
  ensure (is_some_and is_ascii_alphanumeric (first tag)) tag_start
  ensure
      (not (contains (codes "..") tag)
        && not (contains (codes "//") tag)
        && not (contains (codes "/.") tag)
        && not (is_some_and (λ byte. byte == b'.' || byte == b'/') (last tag))
        && all (λ (component : Bytes). not (ends_with (codes ".lock") component)) (pieces tag))
      unsafe_tag

-- `validate_tag_version`, with the text of the version.
unfoldable pub validate_tag_version : Bytes → Bytes → Result PolicyError (Unit {0})
validate_tag_version tag plain =
    ensure
      (elim (last (pieces tag)) [
        | none ↦ false
        | some component ↦ beq component plain || beq component (b'v' ∷ plain)
      ])
      tag_version

-- The components of a Unix path, by the documentation of `Path::components`: empty pieces are
-- skipped, and `.` counts at the beginning only.
pub data Component : Type 0 where
  root_dir cur_dir parent_dir : Component
  normal : Bytes → Component

abbrev pub later_components : List Bytes → List Component
later_components [] = []
later_components (piece ∷ others) =
    let rest = later_components others in
    if is_empty piece || beq piece (codes ".")
    then rest
    else if beq piece (codes "..")
    then parent_dir ∷ rest
    else normal piece ∷ rest

abbrev pub components : Bytes → List Component
components path =
    let (piece, others) = split b'/' path in
    if starts_with (codes "/") path
    then root_dir ∷ later_components others
    else if beq piece (codes ".")
    then cur_dir ∷ later_components others
    else later_components (piece ∷ others)

abbrev pub is_dot : List Component → Bool
is_dot (cur_dir ∷ []) = true
is_dot _ = false

abbrev pub is_normal : Component → Bool
is_normal (normal piece) = true
is_normal _ = false

abbrev pub is_safe_component : Component → Bool
is_safe_component (normal part) =
    not (is_empty part)
    && is_ascii part
    && not (any (λ byte. byte == b'\\' || byte == 0) part)
    && not (beq part (codes ".git"))
is_safe_component _ = false

unfoldable pub validate_relative_path : Bytes → Bool → Result PolicyError (Unit {0})
validate_relative_path path allow_dot = if allow_dot && is_dot (components path) then ok tt else (do
  ensure (not (is_empty path)) path_empty
  ensure (not (starts_with (codes "/") path)) path_absolute
  ensure (all is_normal (components path)) path_traversal
  ensure (all is_safe_component (components path)) path_component)

-- `to_ascii_lowercase` and `replace('-', "_")`.
abbrev pub lower : ℕ → ℕ
lower byte = if leb b'A' byte && leb byte b'Z' then byte + 32 else byte

unfoldable pub package_collision_key : Bytes → Bytes
package_collision_key [] = []
package_collision_key (c ∷ name) =
    (if lower c == b'-' then b'_' else lower c) ∷ package_collision_key name
