-- ===== src/Admission/Matching.antt =====
-- The requests and the candidates of a validated lock: `validate_admission_lock` of
-- rust/src/update/admission.rs.
use pkgre.Prelude.{
  ◌≡◌, ◌⊎◌, inl, inr, refl, sym, arith, [], ◌∷◌, List, Elem, head, tail, not, Bool, true, false,
  ◌==◌, Option, none, some, ok, ok_inj, ensure, ok_or, >>=-eq-ok, if◌then◌else◌,
}
use mathlib.Core.Path.{subst}
use mathlib.Core.Option.{some_inj}
use pkgre.Release.Lists.{each-Elem}
use pkgre.Release.Evidence.{ok_or-eq-ok}
use pkgre.Transition.Evidence.{ensure_passes}
use pkgre.Plan.{UpdateCandidate, blocked}
use pkgre.Plan.Order.{decision_rank}
use pkgre.Manifest.{AdmissionRequest}
use pkgre.Admission.{
  AdmissionIdentity, Entries, has_key, remove, put_back, same_admission, request_identity,
  candidate_identity, repeated_request, collect_requests, check_match, match_candidates,
  blocked_candidate, unmatched_candidate,
}

module _ {A : Type 0} (identity : AdmissionIdentity) where
  -- What a removal takes and what it leaves.
  pub record Removed (entries : Entries A) (a : A) (left : Entries A) : Type 0 where
    pub key : AdmissionIdentity
    pub inside : Elem (key, a) entries
    pub same : same_admission identity key ≡ true
    pub kept : (e : AdmissionIdentity × A) → Elem e left → Elem e entries
    pub split : (e : AdmissionIdentity × A) → Elem e entries → (e.1 ≡ a) ⊎ Elem e left

  further :
      {e entry : AdmissionIdentity × A} {b : A} {others : Entries A}
      → (e.1 ≡ b) ⊎ Elem e others
      → (e.1 ≡ b) ⊎ Elem e (entry ∷ others)
  further (inl same) = inl same
  further (inr k) = inr (tail k)

  behind :
      {entry : AdmissionIdentity × A} {entries : Entries A} (b : A) (others : Entries A)
      → Removed entries b others
      → Removed (entry ∷ entries) b (entry ∷ others)
  behind {entry} {entries} b others r = record {
    key = r.key;
    inside = tail r.inside;
    same = r.same;
    kept = each-Elem (λ e. Elem e (entry ∷ entries)) entry others head (λ e k. tail (r.kept e k));
    split =
        each-Elem (λ e. (e.1 ≡ b) ⊎ Elem e (entry ∷ others)) entry entries (inr head)
          (λ e k. further (r.split e k));
  }

  pub remove-Removed :
      (entries : Entries A) (a : A) (left : Entries A)
      → remove identity entries ≡ some (a, left)
      → Removed entries a left
  unfolding remove
  remove-Removed [] a left h = absurd (cc)
  remove-Removed (entry ∷ entries) a left h =
      go (remove-Removed entries) (same_admission identity entry.0) (remove identity entries) refl
        refl h
    where
      go :
          ((b : A) (others : Entries A)
            → remove identity entries ≡ some (b, others)
            → Removed entries b others)
          → (b : Bool) (rest : Option (A × Entries A)) → same_admission identity entry.0 ≡ b
          → remove identity entries ≡ rest
          → (if b then some (entry.1, entries) else put_back entry rest) ≡ some (a, left)
          → Removed (entry ∷ entries) a left
      go below true rest found same_rest eq =
          subst (λ p. Removed (entry ∷ entries) p.0 p.1) (some_inj.0 eq)
            (record {
              key = entry.0;
              inside = head;
              same = found;
              kept = λ e k. tail k;
              split =
                  each-Elem (λ e. (e.1 ≡ entry.1) ⊎ Elem e entries) entry entries (inl refl)
                    (λ e k. inr k);
            })
      go below false none other same_rest eq = absurd (cc)
      go below false (some (b, others)) other same_rest eq =
          subst (λ p. Removed (entry ∷ entries) p.0 p.1) (some_inj.0 eq)
            (behind b others (below b others same_rest))

-- What a candidate of a validated lock has: it is not blocked, and a request for its identity passes.
pub record Matched (entries : Entries AdmissionRequest) (c : UpdateCandidate) : Type 0 where
  pub unblocked : decision_rank c.decision == decision_rank blocked ≡ false
  pub request : AdmissionRequest
  pub key : AdmissionIdentity
  pub inside : Elem (key, request) entries
  pub same : same_admission (candidate_identity c) key ≡ true
  pub passes : check_match c request ≡ ok tt

pub match_candidates-Matched :
    (entries rest : Entries AdmissionRequest) (candidates : List UpdateCandidate)
    → match_candidates entries candidates ≡ ok rest
    → (c : UpdateCandidate) → Elem c candidates
    → Matched entries c
unfolding match_candidates
match_candidates-Matched entries rest [] h c e = elim e [ ]
match_candidates-Matched entries rest (x ∷ candidates) h c e =
    let test = not (decision_rank x.decision == decision_rank blocked) in
    let (u, free, s0) = >>=-eq-ok (ensure test blocked_candidate) _ h in
    let (taken, found, s1) =
      >>=-eq-ok (ok_or (remove (candidate_identity x) entries) unmatched_candidate) _ s0 in
    let (w, passes, s2) = >>=-eq-ok (check_match x taken.0) _ s1 in
    let r =
      remove-Removed (candidate_identity x) entries taken.0 taken.1
        (ok_or-eq-ok (remove (candidate_identity x) entries) unmatched_candidate taken found) in
    let holds : test ≡ true = (ensure_passes test blocked_candidate).0 free in
    each-Elem (λ c. Matched entries c) x candidates
      (record {
        unblocked = ground arith;
        request = taken.0;
        key = r.key;
        inside = r.inside;
        same = r.same;
        passes = passes;
      })
      (λ c e.
        let m = match_candidates-Matched taken.1 rest candidates s2 c e in
        record {
          unblocked = m.unblocked;
          request = m.request;
          key = m.key;
          inside = r.kept (m.key, m.request) m.inside;
          same = m.same;
          passes = m.passes;
        })
      c e

-- The entries that are collected are the requests under their identities.
abbrev pub Collected : List AdmissionRequest → AdmissionIdentity × AdmissionRequest → Type 0
Collected requests entry = Elem entry.1 requests × (request_identity entry.1 ≡ ok entry.0)

pub collect_requests-Collected :
    (entries found : Entries AdmissionRequest) (requests : List AdmissionRequest)
    → collect_requests entries requests ≡ ok found
    → (entry : AdmissionIdentity × AdmissionRequest) → Elem entry found
    → Elem entry entries ⊎ Collected requests entry
unfolding collect_requests
collect_requests-Collected entries found [] h entry e =
    inl (subst (λ es. Elem entry es) (sym (ok_inj h)) e)
collect_requests-Collected entries found (r ∷ requests) h entry e =
    let (identity, read, s0) = >>=-eq-ok (request_identity r) _ h in
    let (u, free, s1) = >>=-eq-ok (ensure (not (has_key identity entries)) repeated_request) _ s0 in
    go identity read
      (collect_requests-Collected ((identity, r) ∷ entries) found requests s1 entry e)
  where
    go :
        (identity : AdmissionIdentity)
        → request_identity r ≡ ok identity
        → Elem entry ((identity, r) ∷ entries) ⊎ Collected requests entry
        → Elem entry entries ⊎ Collected (r ∷ requests) entry
    go identity read (inl k) =
        each-Elem (λ entry. Elem entry entries ⊎ Collected (r ∷ requests) entry) (identity, r)
          entries (inr (head, read)) (λ entry k. inl k) entry k
    go identity read (inr (k, same)) = inr (tail k, same)
