-- ===== src/Watcher.antt =====
-- The accepted-ref watcher of rust/serve/src/watcher.rs: its state, what it reads from Git and the
-- file system, and the functions that interpret those answers. The two operations are in Startup
-- and Poll. Git, tar, the clock and the disk are observations: one record holds the answers that
-- one operation gets, in the order in which it asks for them.
pub mod Poll
pub mod Applied
pub mod Persisting
pub mod Serving
pub mod Reloading
pub mod Polling
pub mod LastGood
pub mod Runs
pub mod Rejection
pub mod Startup
pub mod Started
use pkgre.Prelude.{
  ℕ, ◌+◌, ◌%◌, ◌^◌, ◌==◌, Bytes, codes, Bool, true, false, ◌&&◌, not, List, [], ◌∷◌, ◌++◌, any,
  Option, none, some, Result, ok, err, ok_or, ensure, is_ok, beq, if◌then◌else◌, ◌>>=◌, ◌>>◌,
}
use pkgre.AcceptedRef
use pkgre.AcceptedRef.{AcceptedRef, RepositoryConfig, Json, valid_hex, canonical_accepted_ref_bytes}
use pkgre.AcceptedRef.Startup.{ObjectState}
use pkgre.AcceptedRef.Reload.{Ancestry, Persistence, SemanticValidity, ReloadCandidate}

-- A serving snapshot: the commit that it was built from, and its content.
pub record Snapshot (Content : Type 0) : Type 0 where
  pub source_commit : Bytes
  pub content : Content

-- `Watcher` with what it owns outside memory: the file `accepted-ref.json` (`record_file`), and the
-- snapshot in the state that it shares with the web server. `accepted` is `none` before startup.
pub record Watcher (Content : Type 0) : Type 0 where
  pub accepted : Option AcceptedRef
  pub suppressed : List Bytes
  pub temp_counter : ℕ
  pub snapshot : Option (Snapshot Content)
  pub record_file : Option Bytes

-- `ExitStatus::code`: `none` for a process that a signal ended.
abbrev pub ExitStatus : Type 0
ExitStatus = Option ℕ

unfoldable pub success : ExitStatus → Bool
success none = false
success (some code) = code == 0

unfoldable pub is_code_one : ExitStatus → Bool
is_code_one none = false
is_code_one (some code) = code == 1

-- `valid_commit_name`.
unfoldable pub valid_commit_name : Bytes → Bool
valid_commit_name value = valid_hex value 40

-- `remote_tip`. The observation is `none` if `git ls-remote` failed; else it holds the first line
-- of the output, if there is one, as the first word of that line, if there is one.
unfoldable pub remote_tip : Option (Option (Option Bytes)) → Option (Option Bytes)
remote_tip none = none
remote_tip (some none) = some none
remote_tip (some (some none)) = none
remote_tip (some (some (some token))) = if valid_commit_name token then some (some token) else none

-- `object_state`: whether `git cat-file -e` succeeded, and the type that `git cat-file -t` printed.
-- An outer `none` of the first is a command that could not be run.
unfoldable pub object_type : Option Bytes → ObjectState
object_type none = ObjectState.corrupt
object_type (some kind) =
    if beq kind (codes "commit") then ObjectState.valid else ObjectState.malformed

unfoldable pub object_state : Option Bool → Option Bytes → Option ObjectState
unfolding object_type
object_state none kind = none
object_state (some false) kind = some ObjectState.missing
object_state (some true) kind = some (object_type kind)

-- `ancestry`: the two `git merge-base --is-ancestor` calls.
unfoldable pub compare_ancestry : ExitStatus → ExitStatus → Ancestry
unfolding success is_code_one
compare_ancestry forward backward =
    if success forward
    then Ancestry.descendant
    else if success backward
    then Ancestry.predecessor
    else if is_code_one forward && is_code_one backward
    then Ancestry.divergent
    else Ancestry.unknown

unfoldable pub ancestry : Option ExitStatus → Option ExitStatus → Option Ancestry
unfolding compare_ancestry
ancestry none backward = none
ancestry (some forward) none = none
ancestry (some forward) (some backward) = some (compare_ancestry forward backward)

-- Which of the steps of `publish_record` succeed.
pub record Publishing : Type 0 where
  pub create : Bool
  pub write : Bool
  pub sync_file : Bool
  pub rename : Bool
  pub sync_directory : Bool

-- `publish_record`: whether it returns `Ok`, and the record file behind it. The temporary file that
-- is written first has another name, so only the rename touches the record file.
unfoldable pub publish_record : Bytes → Publishing → Option Bytes → Bool × Option Bytes
publish_record bytes p file =
    if not (p.create && p.write && p.sync_file && p.rename)
    then (false, file)
    else (p.sync_directory, some bytes)

-- `fetch_add` on the `AtomicU64`.
unfoldable pub next_counter : ℕ → ℕ
next_counter n = (n + 1) % 2 ^ 64

-- `HashSet::contains` and `HashSet::insert`.
unfoldable pub contains : List Bytes → Bytes → Bool
contains hashes hash = any (beq hash) hashes

unfoldable pub insert : Bytes → List Bytes → List Bytes
unfolding contains
insert hash hashes = if contains hashes hash then hashes else hash ∷ hashes

-- `build_record`.
unfoldable pub build_record : RepositoryConfig → Bytes → Result AcceptedRef.Error AcceptedRef
build_record config commit = AcceptedRef.new commit config.full_ref config.repository_identity

module _ {Content : Type 0} where
  -- `persist_record`, behind the serialization of the record.
  unfoldable pub persist_bytes :
      Result AcceptedRef.Error Bytes → Publishing → Watcher Content → Bool × Watcher Content
  unfolding publish_record next_counter
  persist_bytes (err e) p w = (false, w)
  persist_bytes (ok bytes) p w =
      let (done, file) = publish_record bytes p w.record_file in
      (done, record w { temp_counter = next_counter w.temp_counter; record_file = file })

  -- `persist_record`: whether it succeeds, and the watcher behind it.
  unfoldable pub persist_record :
      Json → RepositoryConfig → AcceptedRef → Publishing → Watcher Content → Bool × Watcher Content
  unfolding persist_bytes
  persist_record json config record' p w =
      persist_bytes (canonical_accepted_ref_bytes json record' config) p w

-- `parse_startup_record`.
unfoldable pub parse_startup_record : Json → Bytes → Result AcceptedRef.Error AcceptedRef
parse_startup_record json bytes = do
  parsed ← ok_or (json.from_slice bytes) AcceptedRef.malformed_json
  revalidated ← AcceptedRef.new parsed.accepted_commit parsed.full_ref parsed.repository_identity
  canonical ← ok_or (json.to_vec_pretty revalidated) AcceptedRef.serialization_failure
  ensure (beq (canonical ++ b'\n' ∷ []) bytes) AcceptedRef.not_canonical
  ok revalidated
