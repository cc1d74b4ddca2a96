-- ===== src/Transition/History.antt =====
-- What a sequence of accepted transitions of rust/src/transition.rs keeps.
use mathlib.Core.Path.{subst}
use mathlib.Core.Option.{some_inj}
use pkgre.Prelude.{
  ◌≡◌, ◌↔◌, inl, inr, refl, ◌∙◌, [], ◌∷◌, List, Bytes, Elem, head, tail, All-elem, beq→eq, Bool,
  true, if◌then◌else◌, Option, none, some, ok, arith, Bool-cases,
}
use pkgre.Schema.{Approval, Catalog}
use pkgre.Transition.{same_identity, candidate_index, check_transition}
use pkgre.Transition.Evidence.{IsSameEvidence}
use pkgre.Transition.Successor.{IsRetained, check_catalogs_iff}

module _ {Version : Type 0} (same_version : Version → Version → Bool)
    (exact : (v w : Version) → (same_version v w ≡ true) ↔ (v ≡ w)) where
  -- The approvals are of one identity, and carry the same evidence and category.
  pub record Preserves (a b : Approval Version) : Type 0 where
    pub registry : a.registry ≡ b.registry
    pub name : a.name ≡ b.name
    pub version : a.version ≡ b.version
    pub evidence : IsSameEvidence same_version exact a b

  Preserves-refl : (a : Approval Version) → Preserves a a
  Preserves-refl a = record {
    registry = refl;
    name = refl;
    version = refl;
    evidence = record {
      archive = refl;
      index_record = refl;
      index_row = refl;
      admitted_at = refl;
      state = refl;
      source = refl;
      category = refl;
    };
  }

  Preserves-trans : (a b c : Approval Version) → Preserves a b → Preserves b c → Preserves a c
  Preserves-trans a b c p q = record {
    registry = p.registry ∙ q.registry;
    name = p.name ∙ q.name;
    version = p.version ∙ q.version;
    evidence = record {
      archive = p.evidence.archive ∙ q.evidence.archive;
      index_record = p.evidence.index_record ∙ q.evidence.index_record;
      index_row = p.evidence.index_row ∙ q.evidence.index_row;
      admitted_at = p.evidence.admitted_at ∙ q.evidence.admitted_at;
      state = p.evidence.state ∙ q.evidence.state;
      source = p.evidence.source ∙ q.evidence.source;
      category = p.evidence.category ∙ q.evidence.category;
    };
  }

  -- A lookup finds an approval of the list that has the wanted identity.
  abbrev Finds : List (Approval Version) → Approval Version → Approval Version → Type 0
  Finds approvals wanted found =
      Elem found approvals × (same_identity same_version wanted found ≡ true)

  index_step :
      (later : Option (Approval Version)) (approval : Approval Version)
      (approvals : List (Approval Version)) (wanted found : Approval Version)
      → ((g : Approval Version) → later ≡ some g → Finds approvals wanted g)
      → (elim later [
        | some g ↦ some g
        | none ↦ if same_identity same_version wanted approval then some approval else none
      ])
        ≡ some found
      → Finds (approval ∷ approvals) wanted found
  index_step (some g) approval approvals wanted found sound h =
      let (at, same) = sound g refl in
      subst (Finds (approval ∷ approvals) wanted) (some_inj.0 h) (tail at, same)
  index_step none approval approvals wanted found sound h =
      elim (Bool-cases (same_identity same_version wanted approval)) [
        | inl same ↦
            subst (Finds (approval ∷ approvals) wanted) (some_inj.0 (ground (arith, same, h)))
              (head, same)
        | inr other ↦ absurd (ground (arith, other, h))
      ]

  index-Finds :
      (approvals : List (Approval Version)) (wanted found : Approval Version)
      → candidate_index same_version approvals wanted ≡ some found
      → Finds approvals wanted found
  unfolding candidate_index
  index-Finds [] wanted found h = absurd (cc)
  index-Finds (approval ∷ approvals) wanted found h =
      index_step (candidate_index same_version approvals wanted) approval approvals wanted found
        (index-Finds approvals wanted) h

  identity_eq :
      (a b : Approval Version)
      → same_identity same_version a b ≡ true
      → (a.registry ≡ b.registry) × (a.name ≡ b.name) × (a.version ≡ b.version)
  identity_eq a b h = (
    beq→eq a.registry b.registry (ground arith),
    beq→eq a.name b.name (ground arith),
    (exact a.version b.version).0 (ground arith),
  )

  module _ (digest : Bytes → Bytes) (read_body : Bytes → Option Bytes) where
    -- The catalogs that follow one another by accepted transitions.
    pub data Follows (first : Catalog Version) : Catalog Version → Type 0 where
      start : Follows first first
      step :
          (middle next : Catalog Version)
          → Follows first middle
          → check_transition same_version digest read_body (some middle) (some next) ≡ ok tt
          → Follows first next

    -- The catalog has an approval that preserves the given one.
    abbrev pub Holds : Catalog Version → Approval Version → Type 0
    Holds catalog a = (b : Approval Version) × Elem b catalog.approvals × Preserves a b

    step-Holds :
        (middle next : Catalog Version) (a : Approval Version)
        → check_transition same_version digest read_body (some middle) (some next) ≡ ok tt
        → Holds middle a
        → Holds next a
    unfolding check_transition
    step-Holds middle next a h (b, at, p) =
        let s = (check_catalogs_iff same_version exact digest read_body middle next).0 h in
        let (c, found, evidence) =
          All-elem (IsRetained same_version exact next.approvals) b middle.approvals s.retained
            at in
        let (at', same) = index-Finds next.approvals b c found in
        let (registry, name, version) = identity_eq b c same in
        (
          c,
          at',
          Preserves-trans a b c p
              (record { registry = registry; name = name; version = version; evidence = evidence }),
        )

    -- If the equality of versions is exact, then over any sequence of accepted transitions no identity
    -- of the first catalog is lost or changed: the last catalog has an approval of the same registry,
    -- name and version, with the same archive, index rows, admission time, state, source and category.
    -- So an active identity of the first catalog has an active approval in the last one.
    pub Follows-Holds :
        (first last : Catalog Version) (a : Approval Version)
        → Follows first last
        → Elem a first.approvals
        → Holds last a
    Follows-Holds first last a start at = (a, at, Preserves-refl a)
    Follows-Holds first last a (step middle next before h) at =
        step-Holds middle next a h (Follows-Holds first middle a before at)
