-- ===== src/Plan/Canonical.antt =====
-- The candidates of a validated plan: `validate_update_plan_with` of rust/src/update/plan.rs.
use pkgre.Prelude.{
  ◌==◌, beq, ◌≡◌, inl, inr, arith, ℕ, leb, [], ◌∷◌, List, Bytes, Elem, head, tail, any, not, Bool,
  true, false, Option, none, some, Bool-cases, ok, ensure, ok_or, >>=-eq-ok,
}
use pkgre.Release.{Version}
use pkgre.Release.Order.{IsPreorder}
use pkgre.Release.Lists.{each-Elem, any-Elem}
use pkgre.Transition.Evidence.{and_then, ensure_passes}
use pkgre.Policy.Distinct.{Pairs}
use pkgre.Download.{lowercase}
use pkgre.Download.Order.{bytes-IsPreorder, then_by-IsPreorder}
use pkgre.Plan.Check.{
  leb_key, same_identity, follows, validate_candidate, validate_candidates, check_constants,
  validate_update_plan_with,
}
use pkgre.Plan.Routine.{IsRoutine, automatic-IsRoutine}
use pkgre.Plan.{
  update_plan_schema, validate_hash, UpdateCandidate, UpdatePlan, automatic, bad_schema,
  bad_indexer, not_ordered, repeated_identity,
}

number-IsPreorder : {A : Type 0} (f : A → ℕ) → IsPreorder (λ (a : A) (b : A). leb (f a) (f b))
number-IsPreorder f = record { total = λ a b h. ground arith; trans = λ a b c h k. ground arith }

pub leb_key-IsPreorder : IsPreorder leb_key
unfolding leb_key
leb_key-IsPreorder =
    then_by-IsPreorder _ _ (bytes-IsPreorder (λ (c : UpdateCandidate). c.registry)) (
      then_by-IsPreorder _ _ (bytes-IsPreorder (λ (c : UpdateCandidate). lowercase c.name)) (
        then_by-IsPreorder _ _ (bytes-IsPreorder (λ (c : UpdateCandidate). c.name)) (
          then_by-IsPreorder _ _
            (number-IsPreorder (λ (c : UpdateCandidate). c.candidate.version.major))
            (then_by-IsPreorder _ _
              (number-IsPreorder (λ (c : UpdateCandidate). c.candidate.version.minor))
              (then_by-IsPreorder _ _
                (number-IsPreorder (λ (c : UpdateCandidate). c.candidate.version.patch))
                (bytes-IsPreorder (λ (c : UpdateCandidate). c.candidate.version.pre)))))))

-- The first candidate's key is smaller than the second's.
abbrev pub Before : UpdateCandidate → UpdateCandidate → Type 0
Before a b = leb_key b a ≡ false

Before-trans : (a b c : UpdateCandidate) → Before a b → Before b c → Before a c
Before-trans a b c h k =
    let below : leb_key a b ≡ true = leb_key-IsPreorder.total b a h in
    elim (Bool-cases (leb_key c a)) [
      | inl found ↦ absurd (ground (arith, leb_key-IsPreorder.trans c a b found below))
      | inr free ↦ free
    ]

abbrev After : Option UpdateCandidate → UpdateCandidate → Type 0
After none c = Unit
After (some previous) c = Before previous c

follows-After :
    (previous : Option UpdateCandidate) (c : UpdateCandidate)
    → follows previous c ≡ true
    → After previous c
unfolding follows
follows-After none c h = tt
follows-After (some p) c h = ground arith

After-trans :
    (previous : Option UpdateCandidate) (a b : UpdateCandidate)
    → After previous a
    → Before a b
    → After previous b
After-trans none a b h k = tt
After-trans (some p) a b h k = Before-trans p a b h k

pub free-any :
    {A : Type 0} (p : A → Bool) (xs : List A)
    → not (any p xs) ≡ true
    → (x : A) → Elem x xs
    → p x ≡ false
free-any p xs h x e = elim (Bool-cases (p x)) [
  | inl found ↦ absurd (ground (arith, any-Elem p xs x e found))
  | inr free ↦ free
]

module _ (leb_version : Version → Version → Bool) (plan : UpdatePlan) where
  -- The candidates are in strict order of their keys, no two have one Cargo identity, and each passes the
  -- checks of a candidate.
  pub record IsCanonical (candidates : List UpdateCandidate) : Type 0 where
    pub ordered : Pairs (λ later earlier. Before earlier later) candidates
    pub distinct : Pairs (λ later earlier. same_identity later earlier ≡ false) candidates
    pub checked :
        (c : UpdateCandidate) → Elem c candidates → validate_candidate leb_version plan c ≡ ok tt

  record Suffix (previous : Option UpdateCandidate) (identities candidates : List UpdateCandidate)
      : Type 0 where
    pub after : (c : UpdateCandidate) → Elem c candidates → After previous c
    pub apart :
        (c d : UpdateCandidate) → Elem c candidates → Elem d identities → same_identity c d ≡ false
    pub canonical : IsCanonical candidates

  validate_candidates-Suffix :
      (previous : Option UpdateCandidate) (identities candidates : List UpdateCandidate)
      → validate_candidates leb_version plan previous identities candidates ≡ ok tt
      → Suffix previous identities candidates
  unfolding validate_candidates
  validate_candidates-Suffix previous identities [] h = record {
    after = λ c e. elim e [ ];
    apart = λ c d e f. elim e [ ];
    canonical = record { ordered = tt; distinct = tt; checked = λ c e. elim e [ ] };
  }
  validate_candidates-Suffix previous identities (x ∷ xs) h =
      let s0 = (and_then (ensure (follows previous x) not_ordered) _).0 h in
      let s1 =
        (and_then (ensure (not (any (same_identity x) identities)) repeated_identity) _).0 s0.1 in
      let s2 = (and_then (validate_candidate leb_version plan x) _).0 s1.1 in
      let rest = validate_candidates-Suffix (some x) (x ∷ identities) xs s2.1 in
      let first = follows-After previous x ((ensure_passes _ _).0 s0.0) in
      let free =
        (ensure_passes (not (any (same_identity x) identities)) repeated_identity).0 s1.0 in
      record {
        after = λ c e.
            each-Elem (λ v. After previous v) x xs first
              (λ v f. After-trans previous x v first (rest.after v f)) c e;
        apart = λ c d e f.
            each-Elem (λ v. same_identity v d ≡ false) x xs
              (free-any (same_identity x) identities free d f) (λ v g. rest.apart v d g (tail f)) c
              e;
        canonical = record {
          ordered = (rest.after, rest.canonical.ordered);
          distinct = (λ v f. rest.apart v x f head, rest.canonical.distinct);
          checked = λ c e.
              each-Elem (λ v. validate_candidate leb_version plan v ≡ ok tt) x xs s2.0
                rest.canonical.checked c e;
        };
      }

  module _ (parse_version : Bytes → Option Version) (to_string : Version → Bytes)
      (pkg_version : Bytes) where
    -- In a plan that validates, as a current or a historical plan, the candidates are in strict order
    -- of their keys, no two of them have one Cargo identity, and each passes the checks of a candidate.
    pub validate_update_plan_with-IsCanonical :
        (require_current_indexer : Bool)
        → validate_update_plan_with leb_version parse_version to_string pkg_version plan
            require_current_indexer
          ≡ ok tt
        → IsCanonical plan.candidates
    unfolding validate_update_plan_with
    validate_update_plan_with-IsCanonical require_current_indexer h =
        let s0 = (and_then (ensure (plan.schema == update_plan_schema) bad_schema) _).0 h in
        let (version, found, s1) =
          >>=-eq-ok (ok_or (parse_version plan.indexer_version) bad_indexer) _ s0.1 in
        let s2 =
          (and_then (ensure (beq plan.indexer_version (to_string version)) bad_indexer) _).0 s1 in
        let s3 =
          (and_then
              (check_constants leb_version parse_version to_string pkg_version plan
                require_current_indexer)
              _).0
            s2.1 in
        let s4 = (and_then (validate_hash plan.catalog_sha256) _).0 s3.1 in
        (validate_candidates-Suffix none [] plan.candidates s4.1).canonical

    -- In a plan that validates, as a current or a historical plan, every candidate whose decision is
    -- automatic belongs to an active package; its history has no dormant gap, it brings no new package
    -- as a dependency, its build surface is the one of the base archive, its publisher and repository
    -- are known and the ones of the base, and its source is not known to disagree with the archive.
    pub validate_update_plan_with-IsRoutine :
        (require_current_indexer : Bool)
        → validate_update_plan_with leb_version parse_version to_string pkg_version plan
            require_current_indexer
          ≡ ok tt
        → (c : UpdateCandidate) → Elem c plan.candidates
        → c.decision ≡ automatic
        → IsRoutine c
    validate_update_plan_with-IsRoutine require_current_indexer h c e decided =
        automatic-IsRoutine leb_version plan c
          ((validate_update_plan_with-IsCanonical require_current_indexer h).checked c e) decided
