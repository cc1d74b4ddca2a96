-- ===== src/Transition/Successor.antt =====
-- Which candidates `check_transition` of rust/src/transition.rs accepts.
use mathlib.Core.Path.{subst}
use mathlib.Core.Option.{some_inj}
use pkgre.Prelude.{
  ◌≡◌, ◌↔◌, inl, inr, refl, sym, ap, ◌∙◌, [], ◌∷◌, List, Bytes, All, Elem, head, tail, beq, beq→eq,
  beq_iff, ◌>>=◌, ◌>>◌, any, find, Bool, true, false, not, if◌then◌else◌, Option, none, some, ok,
  ensure, ok_or, arith, Bool-cases,
}
use pkgre.Schema.{Registry, Approval, Catalog, PackageState, same_state, same_category}
use pkgre.Transition.{
  RejectReason, ensure_topology, check_registry, check_appeared, candidate_index, mutated,
  check_approval, identity_is_retained, body_matches, verify_body, check_catalogs, check_transition,
  registry_topology, missing_identity, mutated_identity, category_move, missing_retained_body,
}
use pkgre.Transition.Evidence.{
  and_then, ensure_passes, each_iff, IsSameTopology, topology_sound, topology_complete,
  IsSameEvidence, evidence_sound, unmutated, same_category_refl, same_state_iff,
}

module _ {Version : Type 0} (same_version : Version → Version → Bool)
    (exact : (v w : Version) → (same_version v w ≡ true) ↔ (v ≡ w)) where
  -- A registry of the name is found, and its topology is the same.
  abbrev pub IsKept : List (Registry Version) → Registry Version → Type 0
  IsKept candidates accepted =
      (candidate : Registry Version) × (find (λ r. beq r.name accepted.name) candidates
        ≡ some candidate)
      × IsSameTopology same_version exact accepted candidate

  ensure_topology_iff :
      (a b : Registry Version)
      → (ensure_topology same_version a b ≡ ok tt) ↔ IsSameTopology same_version exact a b
  unfolding ensure_topology
  ensure_topology_iff a b = (
    λ h. topology_sound same_version exact a b (ground (arith, (ensure_passes _ _).0 h)),
    λ h. rw (topology_complete same_version exact a b h) refl,
  )

  found_registry :
      (accepted : Registry Version) (candidates : List (Registry Version))
      (found : Option (Registry Version))
      → find (λ r. beq r.name accepted.name) candidates ≡ found
      → ((ok_or found (registry_topology accepted.name) >>= ensure_topology same_version accepted)
          ≡ ok tt)
        ↔ IsKept candidates accepted
  found_registry accepted candidates none f = (λ h. absurd (cc), λ h. absurd (cc (f, h.1)))
  found_registry accepted candidates (some candidate) f = (
    λ h. (candidate, f, (ensure_topology_iff accepted candidate).0 h),
    λ h.
        (ensure_topology_iff accepted candidate).1
          (subst (IsSameTopology same_version exact accepted) (some_inj.0 (sym h.1 ∙ f)) h.2),
  )

  -- The approval of the same identity that counts is found, and carries the same evidence.
  abbrev pub IsRetained : List (Approval Version) → Approval Version → Type 0
  IsRetained candidates accepted =
      (candidate : Approval Version) × (candidate_index same_version candidates accepted
        ≡ some candidate)
      × IsSameEvidence same_version exact accepted candidate

  evidence_iff :
      (a b : Approval Version) (e e' : RejectReason Version)
      → ((ensure (not (mutated same_version a b)) e
            >> ensure (same_category a.category b.category) e')
          ≡ ok tt)
        ↔ IsSameEvidence same_version exact a b
  evidence_iff a b e e' = (
    λ h.
        let both =
          (and_then (ensure (not (mutated same_version a b)) e)
              (ensure (same_category a.category b.category) e')).0
            h in
        evidence_sound same_version exact a b (ground (arith, (ensure_passes _ e).0 both.0))
          ((ensure_passes _ e').0 both.1),
    λ h.
        rw
          (
            unmutated same_version exact a b h,
            ap (same_category a.category) (sym h.category) ∙ same_category_refl a.category,
          )
          refl,
  )

  found_approval :
      (accepted : Approval Version) (candidates : List (Approval Version))
      (found : Option (Approval Version))
      → candidate_index same_version candidates accepted ≡ found
      → ((ok_or found (missing_identity accepted.registry accepted.name accepted.version)
            >>= λ candidate.
                ensure
                  (not (mutated same_version accepted candidate))
                  (mutated_identity accepted.registry accepted.name accepted.version)
                >> ensure
                    (same_category accepted.category candidate.category)
                    (category_move accepted.registry accepted.name accepted.version))
          ≡ ok tt)
        ↔ IsRetained candidates accepted
  found_approval accepted candidates none f = (λ h. absurd (cc), λ h. absurd (cc (f, h.1)))
  found_approval accepted candidates (some candidate) f = (
    λ h. (candidate, f, (evidence_iff accepted candidate _ _).0 h),
    λ h.
        (evidence_iff accepted candidate _ _).1
          (subst (IsSameEvidence same_version exact accepted) (some_inj.0 (sym h.1 ∙ f)) h.2),
  )

  check_approval_iff :
      (candidates : List (Approval Version)) (accepted : Approval Version)
      → (check_approval same_version candidates accepted ≡ ok tt) ↔ IsRetained candidates accepted
  unfolding check_approval
  check_approval_iff candidates accepted = found_approval accepted candidates _ refl

  check_registry_iff :
      (candidates : List (Registry Version)) (accepted : Registry Version)
      → (check_registry same_version candidates accepted ≡ ok tt) ↔ IsKept candidates accepted
  unfolding check_registry
  check_registry_iff candidates accepted = found_registry accepted candidates _ refl

  -- The name of a registry is one of the names before.
  abbrev pub IsKnown : List (Registry Version) → Registry Version → Type 0
  IsKnown accepted candidate =
      (before : Registry Version) × Elem before accepted × (before.name ≡ candidate.name)

  IsKnown-complete :
      (accepted : List (Registry Version)) (candidate before : Registry Version)
      → Elem before accepted
      → before.name ≡ candidate.name
      → any (λ r. beq r.name candidate.name) accepted ≡ true
  IsKnown-complete [] candidate before at e = elim at [ ]
  IsKnown-complete (r ∷ accepted) candidate before head e =
      ground (arith, (beq_iff before.name candidate.name).1 e)
  IsKnown-complete (r ∷ accepted) candidate before (tail at) e =
      ground (arith, IsKnown-complete accepted candidate before at e)

  IsKnown-sound :
      (accepted : List (Registry Version)) (candidate : Registry Version)
      → any (λ r. beq r.name candidate.name) accepted ≡ true
      → IsKnown accepted candidate
  IsKnown-sound [] candidate h = absurd (cc)
  IsKnown-sound (r ∷ accepted) candidate h = elim (Bool-cases (beq r.name candidate.name)) [
    | inl same ↦ (r, head, beq→eq r.name candidate.name same)
    | inr other ↦
        let (before, at, e) = IsKnown-sound accepted candidate (ground arith) in
        (before, tail at, e)
  ]

  check_appeared_iff :
      (accepted : List (Registry Version)) (candidate : Registry Version)
      → (check_appeared same_version accepted candidate ≡ ok tt) ↔ IsKnown accepted candidate
  unfolding check_appeared
  check_appeared_iff accepted candidate = (
    λ h. IsKnown-sound accepted candidate ((ensure_passes _ _).0 h),
    λ h. (ensure_passes _ _).1 (IsKnown-complete accepted candidate h.0 h.1 h.2),
  )

  module _ (digest : Bytes → Bytes) (read_body : Bytes → Option Bytes) where
    -- An active package of a retained route has its body, with the promised hash.
    abbrev pub HasBody : Catalog Version → Approval Version → Type 0
    HasBody catalog approval =
        approval.state ≡ PackageState.active
        → identity_is_retained same_version catalog approval ≡ true
        → (bytes : Bytes) × (read_body approval.archive_sha256 ≡ some bytes)
          × (digest bytes ≡ approval.archive_sha256)

    pub record IsSuccessor (accepted candidate : Catalog Version) : Type 0 where
      pub kept : All (IsKept candidate.registries) accepted.registries
      pub known : All (IsKnown accepted.registries) candidate.registries
      pub retained : All (IsRetained candidate.approvals) accepted.approvals
      pub bodies : All (HasBody candidate) candidate.approvals

    guarded_body :
        (active retained : Bool) (found : Option Bytes) (sha256 : Bytes) (e : RejectReason Version)
        → ((if not active
              then ok tt
              else if not retained
              then ok tt
              else ensure (body_matches same_version digest read_body sha256 found) e)
            ≡ ok tt)
          ↔ (active ≡ true
              → retained ≡ true
              → (bytes : Bytes) × (found ≡ some bytes) × (digest bytes ≡ sha256))
    guarded_body false retained found sha256 e = (λ h a. absurd (cc), λ h. refl)
    guarded_body true false found sha256 e = (λ h a r. absurd (cc), λ h. refl)
    guarded_body true true none sha256 e = (λ h. absurd (cc), λ h. absurd (cc ((h refl refl).1)))
    guarded_body true true (some bytes) sha256 e = (
      λ h a r. (bytes, refl, beq→eq (digest bytes) sha256 ((ensure_passes _ e).0 h)),
      λ h.
          let (body, same, hash) = h refl refl in
          (ensure_passes _ e).1
            ((beq_iff (digest bytes) sha256).1 (ap digest (some_inj.0 same) ∙ hash)),
    )

    verify_body_iff :
        (catalog : Catalog Version) (approval : Approval Version)
        → (verify_body same_version digest read_body catalog approval ≡ ok tt)
          ↔ HasBody catalog approval
    unfolding verify_body
    verify_body_iff catalog approval =
        let guarded =
          guarded_body (same_state approval.state PackageState.active)
            (identity_is_retained same_version catalog approval) (read_body approval.archive_sha256)
            approval.archive_sha256 missing_retained_body in
        let active = same_state_iff approval.state PackageState.active in
        (λ h a. guarded.0 h (active.1 a), λ h. guarded.1 (λ a. h (active.0 a)))

    pub check_catalogs_iff :
        (a c : Catalog Version)
        → (check_catalogs same_version digest read_body a c ≡ ok tt) ↔ IsSuccessor a c
    unfolding check_catalogs
    check_catalogs_iff a c =
        let kept = each_iff _ _ (check_registry_iff c.registries) a.registries in
        let known = each_iff _ _ (check_appeared_iff a.registries) c.registries in
        let retained = each_iff _ _ (check_approval_iff c.approvals) a.approvals in
        let bodies = each_iff _ _ (verify_body_iff c) c.approvals in
        (
          λ h.
              let (one, rest) = (and_then _ _).0 h in
              let (two, rest') = (and_then _ _).0 rest in
              let (three, four) = (and_then _ _).0 rest' in
              record {
                kept = kept.0 one;
                known = known.0 two;
                retained = retained.0 three;
                bodies = bodies.0 four;
              },
          λ s. (and_then _ _).1 (
            kept.1 s.kept,
            (and_then _ _).1
                (known.1 s.known, (and_then _ _).1 (retained.1 s.retained, bodies.1 s.bodies)),
          ),
        )

    -- If the equality of versions is exact, a candidate is accepted exactly when both catalogs load and
    -- the candidate is a successor: each accepted registry is still there with the same topology, but
    -- for an allowed move of its download template; no registry is new; each accepted identity is
    -- still there with the same evidence, the same state and the same category; and each active package
    -- of the candidate whose identity is retained has a body with the promised hash.
    pub check_transition_iff :
        (accepted candidate : Option (Catalog Version))
        → (check_transition same_version digest read_body accepted candidate ≡ ok tt) ↔ (
            (a : Catalog Version) × (c : Catalog Version) × (accepted ≡ some a)
            × (candidate ≡ some c)
            × IsSuccessor a c)
    unfolding check_transition
    check_transition_iff none candidate = (λ h. absurd (cc), λ h. absurd (cc (h.2)))
    check_transition_iff (some a) none = (λ h. absurd (cc), λ h. absurd (cc (h.3)))
    check_transition_iff (some a) (some c) = (
      λ h. (a, c, refl, refl, (check_catalogs_iff a c).0 h),
      λ h. (check_catalogs_iff a c).1 (
          subst (λ x. IsSuccessor x c) (some_inj.0 (sym h.2))
            (subst (IsSuccessor h.0) (some_inj.0 (sym h.3)) h.4)),
    )
