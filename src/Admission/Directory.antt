-- ===== src/Admission/Directory.antt =====
-- The directory of the admission batches: `validate_admission_tree_structure` of
-- rust/src/update/admission.rs.
use pkgre.Prelude.{
  [], ◌∷◌, List, Bytes, codes, all, beq, Bool, true, false, not, ◌&&◌, Option, none, some, Result,
  ok, err, ◌>>=◌, ◌>>◌, ensure, ok_or, map_err, if◌then◌else◌,
}
use pkgre.Category.{is_empty}
use pkgre.Release.{leb_bytes, sort_by}
use pkgre.Plan.Reasons.{no_element}
use pkgre.Plan.Codec.{File, special, unread, regular}
use pkgre.Manifest.{at_last_dot, validate_admission_filename}
use pkgre.Admission.{
  AdmissionError, bad_manifest, not_directory, empty_directory, not_regular, bad_extension,
  repeated_file, incomplete_pair,
}

-- One entry of the directory: its name and what it is.
pub record DirEntry : Type 0 where
  pub file_name : Bytes
  pub file : File

-- The path of the directory as it is found.
pub data Tree : Type 0 where
  absent other_kind : Tree
  directory : (entries : List DirEntry) → Tree

abbrev pub sorted_entries : List DirEntry → List DirEntry
sorted_entries = sort_by (λ (a : DirEntry) (b : DirEntry). leb_bytes a.file_name b.file_name)

abbrev pub is_regular : File → Bool
is_regular (regular bytes) = true
is_regular unread = true
is_regular special = false

-- Which of the two files of a stem are there: the bits 1 and 2.
pub record Present : Type 0 where
  pub stem : Bytes
  pub toml : Bool
  pub lock : Bool

abbrev pub named_toml : Bytes → Option (Bytes × Bytes) → Option Bool
named_toml stem none = none
named_toml stem (some (before, extension)) =
    if is_empty before
    then none
    else if beq extension (codes "toml")
    then some true
    else if beq extension (codes "lock")
    then some false
    else none

abbrev pub stem_of : Option (Bytes × Bytes) → Bytes
stem_of none = []
stem_of (some (before, extension)) = before

-- The entry of a stem with one more file, if the file is not there yet.
abbrev pub add_file : Bool → Present → Option Present
add_file true present =
    if present.toml
    then none
    else some (record { stem = present.stem; toml = true; lock = present.lock })
add_file false present =
    if present.lock
    then none
    else some (record { stem = present.stem; toml = present.toml; lock = true })

abbrev pub insert_file : Bytes → Bool → List Present → Result AdmissionError (List Present)
insert_file stem toml [] = ok (record { stem = stem; toml = toml; lock = not toml } ∷ [])
insert_file stem toml (present ∷ pairs) =
    let rest = insert_file stem toml pairs in
    if beq present.stem stem
    then (do added ← ok_or (add_file toml present) repeated_file; ok (added ∷ pairs))
    else (do others ← rest; ok (present ∷ others))

abbrev pub extension_text : Bool → Bytes
extension_text toml = if toml then codes "toml" else codes "lock"

unfoldable pub collect_pairs : List Present → List DirEntry → Result AdmissionError (List Present)
unfolding validate_admission_filename
collect_pairs pairs [] = ok pairs
collect_pairs pairs (entry ∷ entries) = do
  ensure (is_regular entry.file) not_regular
  toml ← ok_or (named_toml entry.file_name (at_last_dot entry.file_name)) bad_extension
  map_err bad_manifest (validate_admission_filename entry.file_name (extension_text toml))
  added ← insert_file (stem_of (at_last_dot entry.file_name)) toml pairs
  collect_pairs added entries

unfoldable pub validate_admission_tree_structure : Tree → Result AdmissionError (Unit {0})
unfolding collect_pairs
validate_admission_tree_structure absent = ok tt
validate_admission_tree_structure other_kind = err not_directory
validate_admission_tree_structure (directory entries) = do
  ensure (not (no_element entries)) empty_directory
  pairs ← collect_pairs [] (sorted_entries entries)
  ensure (all (λ (present : Present). present.toml && present.lock) pairs) incomplete_pair
