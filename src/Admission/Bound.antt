-- ===== src/Admission/Bound.antt =====
-- The approvals that name a batch, and what the candidates of a batch take of them:
-- rust/src/update/admission.rs.
use mathlib.Core.Path.{subst}
use pkgre.Prelude.{
  ◌≡◌, ◌⊎◌, inl, inr, sym, ap, arith, [], ◌∷◌, List, Bytes, Elem, head, tail, any, beq, beq→eq, not,
  true, Option, none, some, ok, ok_inj, ensure, ok_or, map_err, >>=-eq-ok,
}
use pkgre.Category.{to_string}
use pkgre.Schema.{Approval}
use pkgre.Policy.{validate_sha256}
use pkgre.Release.{Version, same_key}
use pkgre.Release.Lists.{each-Elem}
use pkgre.Release.Evidence.{ok_or-eq-ok}
use pkgre.Transition.Evidence.{ensure_passes}
use pkgre.Plan.{UpdateCandidate}
use pkgre.Plan.Order.{same_option}
use pkgre.Plan.Reasons.{no_element}
use pkgre.Admission.{
  AdmissionIdentity, Entries, remove, has_key, same_admission, candidate_identity,
  approval_identity, bad_hash, foreign_source, repeated_binding, covered_twice, no_locked_identity,
  facts_differ,
}
use pkgre.Admission.Inventory.{
  is_crates_io, bind_approval, admission_bound_approvals, validate_candidate_lock, Progress,
  cover_candidates,
}
use pkgre.Admission.Matching.{remove-Removed}

-- The approval has the route, the identity and the hashes of the candidate, and names the batch.
pub record Binds (c : UpdateCandidate) (a : Approval Version) (batch_hash : Bytes) : Type 0 where
  pub registry : a.registry ≡ c.registry
  pub category : to_string a.category ≡ c.category
  pub name : a.name ≡ c.name
  pub version : same_key a.version c.candidate.version ≡ true
  pub archive : a.archive_sha256 ≡ c.candidate.crate_sha256
  pub row : a.index_record_sha256 ≡ c.candidate.source_row_sha256
  pub batch : a.admission_sha256 ≡ some batch_hash

same_binding :
    (x : Option Bytes) (hash : Bytes) → same_option beq x (some hash) ≡ true → x ≡ some hash
same_binding none hash h = absurd (cc)
same_binding (some b) hash h = ap some (beq→eq b hash h)

validate_candidate_lock-Binds :
    (c : UpdateCandidate) (a : Approval Version) (hash : Bytes)
    → validate_candidate_lock c a hash ≡ ok tt
    → Binds c a hash
unfolding validate_candidate_lock
validate_candidate_lock-Binds c a hash h =
    let holds = (ensure_passes _ facts_differ).0 h in
    record {
      registry = beq→eq a.registry c.registry (ground arith);
      category = beq→eq (to_string a.category) c.category (ground arith);
      name = beq→eq a.name c.name (ground arith);
      version = ground arith;
      archive = beq→eq a.archive_sha256 c.candidate.crate_sha256 (ground arith);
      row = beq→eq a.index_record_sha256 c.candidate.source_row_sha256 (ground arith);
      batch = same_binding a.admission_sha256 hash (ground arith);
    }

-- An expected identity is still expected behind the candidates of a batch, or one of them covers it.
pub cover_candidates-Binds :
    (hash : Bytes) (progress after : Progress) (candidates : List UpdateCandidate)
    → cover_candidates hash progress candidates ≡ ok after
    → (e : AdmissionIdentity × Approval Version) → Elem e progress.expected
    → Elem e after.expected ⊎ ((c : UpdateCandidate) × Elem c candidates × Binds c e.1 hash)
unfolding cover_candidates
cover_candidates-Binds hash progress after [] h e k =
    inl (subst (λ (p : Progress). Elem e p.expected) (ok_inj h) k)
cover_candidates-Binds hash progress after (c ∷ candidates) h e k =
    let test = not (any (same_admission (candidate_identity c)) progress.covered) in
    let (u, free, s0) = >>=-eq-ok (ensure test covered_twice) _ h in
    let (taken, found, s1) =
      >>=-eq-ok (ok_or (remove (candidate_identity c) progress.expected) no_locked_identity) _ s0 in
    let (w, locked, s2) = >>=-eq-ok (validate_candidate_lock c taken.0 hash) _ s1 in
    let r = remove-Removed (candidate_identity c) progress.expected taken.0 taken.1 (
      ok_or-eq-ok (remove (candidate_identity c) progress.expected) no_locked_identity taken
        found) in
    go taken.0 taken.1 (validate_candidate_lock-Binds c taken.0 hash locked) (r.split e k) (
      cover_candidates-Binds hash
        (record {
          covered = candidate_identity c ∷ progress.covered;
          batch_hashes = progress.batch_hashes;
          expected = taken.1;
        })
        after candidates s2 e)
  where
    shift :
        Elem e after.expected ⊎ ((d : UpdateCandidate) × Elem d candidates × Binds d e.1 hash)
        → Elem e after.expected
          ⊎ ((d : UpdateCandidate) × Elem d (c ∷ candidates) × Binds d e.1 hash)
    shift (inl k) = inl k
    shift (inr (d, inside, binds)) = inr (d, tail inside, binds)

    go :
        (a : Approval Version) (left : Entries (Approval Version))
        → Binds c a hash
        → (e.1 ≡ a) ⊎ Elem e left
        → (Elem e left
            → Elem e after.expected
              ⊎ ((d : UpdateCandidate) × Elem d candidates × Binds d e.1 hash))
        → Elem e after.expected
          ⊎ ((d : UpdateCandidate) × Elem d (c ∷ candidates) × Binds d e.1 hash)
    go a left binds (inl same) rest = inr (c, head, subst (λ a. Binds c a hash) (sym same) binds)
    go a left binds (inr stays) rest = shift (rest stays)

-- What `admission_bound_approvals` collects holds every approval that names a batch.
bind_approval-Elem :
    (a : Approval Version) (binding : Option Bytes) (expected more : Entries (Approval Version))
    → bind_approval a binding expected ≡ ok more
    → ((e : AdmissionIdentity × Approval Version) → Elem e expected → Elem e more)
      × ((hash : Bytes) → binding ≡ some hash → Elem (approval_identity a, a) more)
unfolding bind_approval
bind_approval-Elem a none expected more h =
    (λ e k. subst (λ es. Elem e es) (ok_inj h) k, λ hash same. absurd (cc))
bind_approval-Elem a (some binding) expected more h =
    let (u, valid, s0) = >>=-eq-ok (map_err bad_hash (validate_sha256 binding)) _ h in
    let (v, home, s1) = >>=-eq-ok (ensure (is_crates_io a.source) foreign_source) _ s0 in
    let (w, free, s2) =
      >>=-eq-ok (ensure (not (has_key (approval_identity a) expected)) repeated_binding) _ s1 in
    let added : (approval_identity a, a) ∷ expected ≡ more = ok_inj s2 in
    (
      λ e k. subst (λ es. Elem e es) added (tail k),
      λ hash same. subst (λ es. Elem (approval_identity a, a) es) added head,
    )

pub admission_bound_approvals-Elem :
    (expected found : Entries (Approval Version)) (approvals : List (Approval Version))
    → admission_bound_approvals expected approvals ≡ ok found
    → ((e : AdmissionIdentity × Approval Version) → Elem e expected → Elem e found)
      × ((a : Approval Version) (hash : Bytes)
          → Elem a approvals
          → a.admission_sha256 ≡ some hash
          → Elem (approval_identity a, a) found)
unfolding admission_bound_approvals
admission_bound_approvals-Elem expected found [] h =
    (λ e k. subst (λ es. Elem e es) (ok_inj h) k, λ a hash inside same. elim inside [ ])
admission_bound_approvals-Elem expected found (x ∷ approvals) h =
    let (more, bound, s0) = >>=-eq-ok (bind_approval x x.admission_sha256 expected) _ h in
    let (kept, added) = bind_approval-Elem x x.admission_sha256 expected more bound in
    let (later, rest) = admission_bound_approvals-Elem more found approvals s0 in
    (
      λ e k. later e (kept e k),
      λ a hash inside same.
          each-Elem (λ a. a.admission_sha256 ≡ some hash → Elem (approval_identity a, a) found) x
            approvals (λ same. later (approval_identity x, x) (added hash same))
            (λ a inside same. rest a hash inside same) a inside same,
    )

pub nothing {ℓ} : {A : Type ℓ} (xs : List A) (x : A) → no_element xs ≡ true → Elem x xs → ⊥
nothing [] x h e = elim e [ ]
nothing (y ∷ ys) x h e = absurd (cc)
