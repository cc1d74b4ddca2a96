-- ===== src/Lib.antt =====
-- A model of the Rust side of pkgre, a registry of packages whose declarations live in one Git ref.
--
-- How the program works. A serving host follows the ref. It keeps one durable record, the accepted
-- ref, which names the commit the host serves. At startup the host decides from that record and
-- from the state of the Git objects whether it may serve, and which commit; afterwards it polls the
-- remote, and every poll either moves to a new commit or leaves everything as it was.
--
-- AcceptedRef (rust/src/accepted_ref.rs) is the pure part: the record, its validation, its
--   canonical bytes and the identity that binds it to a repository, and the two decision tables
--   `evaluate_startup` (AcceptedRef/Startup) and `evaluate_reload` (AcceptedRef/Reload). A result
--   `Result<_, AcceptedRefError>` is a `Result` here; a byte string or string is the list of its
--   bytes. Records, Authority, Forward, Canonical and Identity hold what is proved of them.
-- Watcher (rust/serve/src/watcher.rs) is the stateful part. `Watcher` carries the struct's mutable
--   fields and the record file on disk, passed explicitly. What Git, the file system and the
--   projection answer during one poll (`Observation`) or one startup (`Boot`) is an argument, so
--   that a poll (Watcher/Poll) and a startup (Watcher/Startup) are functions of the state and the
--   answers. A poll that panics, as the source's `expect` does, is `none`. The answers are
--   arbitrary unless a theorem assumes something of them.
-- RequestTarget (rust/src/request_target.rs) is the validation of a raw request target, and Http
--   (rust/src/http_response.rs) the answer to a request from the prepared routes, which come from
--   the response descriptors of Projection (rust/src/projection.rs). Http/Decimal prints a length.
-- Category (rust/src/category.rs) is the identity of a category and its text.
-- Transition (rust/src/transition.rs) is the check that a candidate catalog may follow the accepted
--   one, on the catalogs of Schema (rust/src/schema.rs, rust/src/download.rs). docs/catalog.md,
--   docs/security.md and docs/workflows.md describe a package that goes from active to removed, and
--   catalog.md a new registry, as valid changes of a catalog. The check refuses both, and is
--   modelled as it is written.
-- Time (rust/src/update/time.rs) is the civil calendar in both directions, and Time/Stamp the
--   canonical timestamp: its text, its seconds, and the conversion from seconds, where a panic is
--   `none`. Calendar, Inverse, Unique, Stamp/Text and Stamp/Seconds hold what is proved of them.
-- Release (rust/src/update/policy.rs) is the selection of update candidates: Release/Selection the
--   three selections, Release/Gap the search for a dormant gap. A `BTreeMap` is the list of its
--   entries. Order, Lists, Evidence, Quiet, Dormant, Exact, Maxima, Implicit and Revalidation hold what is
--   proved of them.
-- Policy (rust/src/policy.rs) holds the validators of names, hashes, tags and paths, and
--   Policy/Topology the validation of a whole catalog, whose maps and sets are lists of their
--   entries. Tags, Distinct, Checks and Sound hold what is proved of them.
-- Download (rust/src/download.rs) is the table of download routes that is derived from a catalog,
--   and Download/Codec its bytes. Order and Derived hold what is proved of it.
-- UpdatePlan and its validation (rust/src/update/plan.rs) stand in Plan: Plan/Candidate,
--   Plan/Evidence and Plan/Reasons hold the checks of one candidate, Plan/Check the ones of the
--   whole, Plan/Order the derived equalities and orders, Plan/Codec the file, and Plan/Delta the
--   comparison of two archives. An `expect` that fails is the error `panicked`. Steps, Listed,
--   Routine, Calm, Total, Expects, Canonical and the modules below Delta hold what is proved.
-- Manifest (rust/src/update/manifest.rs) is the human manifest of one batch of admissions, and
--   Manifest/Codec its bytes; Manifest/Template and Manifest/Valid hold what is proved of the
--   template that is made from the candidates of an update.
-- Admission (rust/src/update/admission.rs) is the generated lock of a batch (Admission/Lock), the
--   directory of the batches (Admission/Directory) and the inventory of a catalog
--   (Admission/Inventory). A hash map is the list of its entries, and `Tools` is the record of the
--   parameters. Matching, Requested, Bound, Covered and Prepared hold what is proved of them.
-- Prelude holds the shared notation, tests on numbers, lists of bytes, results and splitting, and
--   Examples the theorems at concrete inputs.
--
-- Parameters. SHA-256 is a function on bytes, the JSON encoder and decoder of serde are the record
-- `Json`, the TOML printer and reader the record `Toml`, and the projection of a commit is a value
-- of an arbitrary type; a theorem that relies on their behaviour says so in a hypothesis. A version of the semver crate is a record of its numbers
-- and texts; its text, its equality and its order are functions, with the laws of a total order as
-- hypotheses. A set or a map of the standard library is the list of its entries.
--
-- Bounds. Every loop follows a list, but for the printing of a number, which runs on fuel: one
-- more than the number, since each round divides it by ten. Counters wrap as the source's u64, and
-- the seconds of a timestamp are checked against its bound. A string's length is its number of
-- bytes, as in Rust.
--
-- Not modelled: the processes and files behind the answers, threads and locks, logging and error
-- texts; the reading of TOML files, the lock file, the rendering of the tree, the projection and
-- package documents, the importers and migrations, of the update workflow the access to crates.io and
-- to Git, the inspection of archives and the application of a plan (the rest of rust/src/update), the
-- command line, and the JavaScript implementation.
pub mod AcceptedRef
pub mod Admission
pub mod Category
pub mod Download
pub mod Examples
pub mod Http
pub mod Manifest
pub mod Plan
pub mod Policy
pub mod Prelude
pub mod Projection
pub mod Release
pub mod RequestTarget
pub mod Schema
pub mod Time
pub mod Transition
pub mod Watcher
