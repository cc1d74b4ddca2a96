-- ===== src/Examples/Catalogs.antt =====
-- The transition check at a concrete pair of catalogs, with numbers for versions.
use pkgre.Prelude.{
  ℕ, ◌≡◌, ◌↔◌, refl, [], ◌∷◌, Bytes, codes, ◌==◌, ==_iff, Option, none, some, ok, err, head,
}
use pkgre.Schema.{
  Registry, Approval, Catalog, Audience, PackageState, Source, mirror_download, same_source,
}
use pkgre.Transition.{
  check_transition, candidate_index, category_move, mutated_identity, registry_topology,
}
use pkgre.Transition.History.{Follows, start, step, Holds, Follows-Holds}
use pkgre.Transition.Successor.{IsSuccessor, check_transition_iff}

abbrev digest : Bytes → Bytes
digest body = body

abbrev read_body : Bytes → Option Bytes
read_body sha256 = some sha256

abbrev mirror : Registry ℕ
mirror = record {
  name = codes "universe";
  index = codes "sparse+https://rust.pkg.re/universe/";
  download = mirror_download;
  audience = Audience.public;
  cargo_version = 195;
  delivery = none;
}

abbrev package_of : Bytes → Approval ℕ
package_of name = record {
  registry = codes "universe";
  category = record { registry = codes "universe"; local = codes "sse" };
  name = name;
  version = 1;
  archive_sha256 = codes "aa";
  index_record_sha256 = codes "bb";
  index_row_sha256 = codes "cc";
  admission_sha256 = none;
  admitted_at = record { seconds = 0; text = codes "1970-01-01T00:00:00Z" };
  state = PackageState.active;
  source = Source.crates_io;
  declared_in = codes "universe.lock";
}

abbrev before : Catalog ℕ
before = record {
  schema = 5;
  cname = codes "rust.pkg.re";
  cargo_version = 0;
  registries = mirror ∷ [];
  categories = [];
  homes_schema = 5;
  homes = [];
  mirror_names = [];
  publish_names = [];
  approvals = package_of (codes "sse-stream") ∷ [];
}

abbrev grown : Catalog ℕ
grown = record before {
  approvals = package_of (codes "notify") ∷ package_of (codes "sse-stream") ∷ [];
}

grows : check_transition ◌==◌ digest read_body (some before) (some grown) ≡ ok tt
unfolding check_transition candidate_index same_source
grows = refl

check_transition_iff_example :
    (check_transition ◌==◌ digest read_body (some before) (some grown) ≡ ok tt) ↔ (
      (a : Catalog ℕ) × (c : Catalog ℕ) × (some before ≡ some a)
      × (some grown ≡ some c)
      × IsSuccessor ◌==◌ ==_iff digest read_body a c)
check_transition_iff_example =
    check_transition_iff ◌==◌ ==_iff digest read_body (some before) (some grown)

grown_follows : Follows ◌==◌ ==_iff digest read_body before grown
grown_follows = step before grown start grows

Follows-Holds_example : Holds ◌==◌ ==_iff digest read_body grown (package_of (codes "sse-stream"))
Follows-Holds_example =
    Follows-Holds ◌==◌ ==_iff digest read_body before grown (package_of (codes "sse-stream"))
      grown_follows head

-- A package that changes its category is refused.
abbrev moved : Catalog ℕ
moved = record before {
  approvals =
      record (package_of (codes "sse-stream")) {
        category = record { registry = codes "universe"; local = codes "general" };
      }
      ∷ [];
}

move_refused :
    check_transition ◌==◌ digest read_body (some before) (some moved)
    ≡ err (category_move (codes "universe") (codes "sse-stream") 1)
unfolding check_transition candidate_index same_source
move_refused = refl

-- A package that goes from active to removed is refused as a changed identity.
abbrev withdrawn : Catalog ℕ
withdrawn = record before {
  approvals = record (package_of (codes "sse-stream")) { state = PackageState.removed } ∷ [];
}

removal_refused :
    check_transition ◌==◌ digest read_body (some before) (some withdrawn)
    ≡ err (mutated_identity (codes "universe") (codes "sse-stream") 1)
unfolding check_transition candidate_index same_source
removal_refused = refl

-- A registry that the accepted catalog does not have is refused.
abbrev widened : Catalog ℕ
widened = record before { registries = mirror ∷ record mirror { name = codes "extra" } ∷ [] }

registry_refused :
    check_transition ◌==◌ digest read_body (some before) (some widened)
    ≡ err (registry_topology (codes "extra"))
unfolding check_transition candidate_index same_source
registry_refused = refl
