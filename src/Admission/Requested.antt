-- ===== src/Admission/Requested.antt =====
-- A candidate of a loaded lock is not blocked and stands in the human manifest: the checks of
-- `validate_admission_lock` of rust/src/update/admission.rs.
use pkgre.Prelude.{
  ◌≡◌, ◌⊎◌, inl, inr, refl, sym, ap, ◌∙◌, arith, [], ◌∷◌, List, Bytes, Elem, head, tail, length,
  beq, beq→eq, not, Bool, true, false, ◌&&◌, ◌==◌, Option, none, some, ok, ok_inj, ensure, map_err,
  >>=-eq-ok,
}
use pkgre.Category.{to_string}
use pkgre.Time.Stamp.{duration_since}
use pkgre.Policy.{validate_sha256}
use pkgre.Release.{Version, same_key}
use pkgre.Release.Order.{same_key_trans}
use pkgre.Release.Lists.{each-Elem}
use pkgre.Transition.Evidence.{and_then, ensure_passes}
use pkgre.Plan.{UpdateCandidate, blocked}
use pkgre.Plan.Order.{decision_rank, same_option, equal_version}
use pkgre.Plan.Reasons.{no_element}
use pkgre.Plan.Check.{validate_historical_update_plan}
use pkgre.Plan.Steps.{map_err-eq-ok}
use pkgre.Plan.Codec.{File, regular, load_canonical-eq-ok}
use pkgre.Manifest.{AdmissionRequest, AdmissionManifest}
use pkgre.Manifest.Codec.{serialize_admission_manifest}
use pkgre.Admission.{
  Tools, AdmissionLock, AdmissionIdentity, Entries, same_admission, request_identity, identity_of,
  candidate_identity, collect_requests, check_match, match_candidates, other_route, same_list,
  equal_request, equal_manifest, bad_schema, bad_hash, bad_plan, bad_manifest, no_candidates,
  predates_evaluation, other_manifest, count_differs, admission_lock_schema, lock_errors,
}
use pkgre.Admission.Lock.{
  requests_manifest, check_adjacent, check_matches, validate_admission_lock,
  serialize_admission_lock, load_admission_lock,
}
use pkgre.Admission.Matching.{Matched, match_candidates-Matched, collect_requests-Collected}

-- A request of the manifest is for the candidate's category, name and version.
pub record IsRequested (manifest : AdmissionManifest) (c : UpdateCandidate) : Type 0 where
  pub request : AdmissionRequest
  pub inside : Elem request manifest.entries
  pub named : request.name ≡ c.name
  pub routed : to_string request.category ≡ c.category
  pub version : Version
  pub versioned : request.version ≡ some version
  pub same : same_key c.candidate.version version ≡ true

identity_of-version :
    (r : AdmissionRequest) (version : Option Version) (tag : Option Bytes) (key : AdmissionIdentity)
    → identity_of r version tag ≡ ok key
    → version ≡ some key.version
unfolding identity_of
identity_of-version r (some v) none key h =
    ap (λ (k : AdmissionIdentity). some k.version) (ok_inj h)
identity_of-version r none (some t) key h = absurd (cc)
identity_of-version r (some v) (some t) key h = absurd (cc)
identity_of-version r none none key h = absurd (cc)

same_list-Elem :
    {A : Type 0} (same : A → A → Bool) (xs ys : List A)
    → same_list same xs ys ≡ true
    → (x : A) → Elem x xs
    → (y : A) × Elem y ys × (same x y ≡ true)
same_list-Elem same [] ys h x e = elim e [ ]
same_list-Elem same (z ∷ xs) [] h x e = absurd (cc)
same_list-Elem {A} same (z ∷ xs) (y ∷ ys) h x e =
    each-Elem (λ x. (w : A) × Elem w (y ∷ ys) × (same x w ≡ true)) z xs (y, head, ground arith)
      (λ x e.
        let (w, inside, found) = same_list-Elem same xs ys (ground arith) x e in
        (w, tail inside, found))
      x e

equal_option :
    (v : Version) (w : Option Version)
    → same_option equal_version (some v) w ≡ true
    → (u : Version) × (w ≡ some u) × (same_key v u ≡ true)
equal_option v none h = absurd (cc)
equal_option v (some u) h = (u, refl, ground arith)

equal_request-IsRequested :
    (manifest : AdmissionManifest) (c : UpdateCandidate) (r s : AdmissionRequest)
    (key : AdmissionIdentity)
    → request_identity r ≡ ok key
    → same_admission (candidate_identity c) key ≡ true
    → check_match c r ≡ ok tt
    → equal_request r s ≡ true
    → Elem s manifest.entries
    → IsRequested manifest c
unfolding request_identity check_match same_admission candidate_identity
equal_request-IsRequested manifest c r s key read same passes equal inside =
    let test = beq r.name c.name && beq (to_string r.category) c.category in
    let (u, route, s0) = >>=-eq-ok (ensure test other_route) _ passes in
    let holds : test ≡ true = (ensure_passes test other_route).0 route in
    let registry = beq→eq r.category.registry s.category.registry (ground arith) in
    let local = beq→eq r.category.local s.category.local (ground arith) in
    let category : r.category ≡ s.category =
      λ i. record { registry = registry i; local = local i } in
    let versioned = identity_of-version r r.version r.tag key read in
    let option : same_option equal_version (some key.version) s.version ≡ true =
      ap (λ v. same_option equal_version v s.version) (sym versioned) ∙ ground arith in
    let (v, found, same_version) = equal_option key.version s.version option in
    record {
      request = s;
      inside = inside;
      named = sym (beq→eq r.name s.name (ground arith)) ∙ beq→eq r.name c.name (ground arith);
      routed =
          ap to_string (sym category) ∙ beq→eq (to_string r.category) c.category (ground arith);
      version = v;
      versioned = found;
      same = same_key_trans c.candidate.version key.version v (ground arith) same_version;
    }

-- A candidate that a batch admits: its facts validate, it is not blocked, and the manifest requests it.
pub record IsAdmitted (manifest : AdmissionManifest) (c : UpdateCandidate) : Type 0 where
  pub unblocked : decision_rank c.decision == decision_rank blocked ≡ false
  pub requested : IsRequested manifest c

Matched-IsAdmitted :
    (manifest : AdmissionManifest) (requests : List AdmissionRequest)
    (entries : Entries AdmissionRequest) (c : UpdateCandidate)
    → collect_requests [] requests ≡ ok entries
    → same_list equal_request requests manifest.entries ≡ true
    → Matched entries c
    → IsAdmitted manifest c
Matched-IsAdmitted manifest requests entries c collected equal m =
    go (collect_requests-Collected [] entries requests collected (m.key, m.request) m.inside)
  where
    go :
        Elem {A = AdmissionIdentity × AdmissionRequest} (m.key, m.request) []
          ⊎ Elem m.request requests × (request_identity m.request ≡ ok m.key)
        → IsAdmitted manifest c
    go (inl e) = elim e [ ]
    go (inr (inside, read)) =
        let (s, there, same) =
          same_list-Elem equal_request requests manifest.entries equal m.request inside in
        record {
          unblocked = m.unblocked;
          requested =
              equal_request-IsRequested manifest c m.request s m.key read m.same m.passes same
                there;
        }

module _ (tools : Tools) where
  abbrev pub LoadsLock : File → AdmissionManifest → AdmissionLock → Bytes → Type 0
  LoadsLock file manifest lock bytes = load_admission_lock tools file manifest ≡ ok (lock, bytes)

  adjacent-equal :
      (lock : AdmissionLock) (manifest : AdmissionManifest)
      → check_adjacent tools lock (some manifest) ≡ ok tt
      → same_list equal_request lock.requests manifest.entries ≡ true
  unfolding check_adjacent
  adjacent-equal lock manifest h =
      let test = equal_manifest (requests_manifest tools lock) manifest in
      let s0 = (and_then (ensure test other_manifest) _).0 h in
      let holds : test ≡ true = (ensure_passes test other_manifest).0 s0.0 in ground arith

  matches-IsAdmitted :
      (lock : AdmissionLock) (manifest : AdmissionManifest)
      → check_matches tools lock ≡ ok tt
      → same_list equal_request lock.requests manifest.entries ≡ true
      → (c : UpdateCandidate) → Elem c lock.plan.candidates
      → IsAdmitted manifest c
  unfolding check_matches
  matches-IsAdmitted lock manifest h equal c e =
      let (entries, collected, s0) = >>=-eq-ok (collect_requests [] lock.requests) _ h in
      let (u, counted, s1) =
        >>=-eq-ok (ensure (length entries == length lock.plan.candidates) count_differs) _ s0 in
      let (rest, matched, s2) = >>=-eq-ok (match_candidates entries lock.plan.candidates) _ s1 in
      Matched-IsAdmitted manifest lock.requests entries c collected equal
        (match_candidates-Matched entries rest lock.plan.candidates matched c e)

  pub record IsBatch (manifest : AdmissionManifest) (lock : AdmissionLock) : Type 0 where
    pub planned :
        validate_historical_update_plan tools.leb_version tools.parse_version tools.version_text
          tools.pkg_version lock.plan
        ≡ ok tt
    pub admitted : (c : UpdateCandidate) → Elem c lock.plan.candidates → IsAdmitted manifest c

  validate_admission_lock-IsBatch :
      (lock : AdmissionLock) (manifest : AdmissionManifest)
      → validate_admission_lock tools lock (some manifest) ≡ ok tt
      → IsBatch manifest lock
  unfolding validate_admission_lock
  validate_admission_lock-IsBatch lock manifest h =
      let s0 = (and_then (ensure (lock.schema == admission_lock_schema) bad_schema) _).0 h in
      let s1 = (and_then (map_err bad_hash (validate_sha256 lock.manifest_sha256)) _).0 s0.1 in
      let plan =
        validate_historical_update_plan tools.leb_version tools.parse_version tools.version_text
          tools.pkg_version lock.plan in
      let s2 = (and_then (map_err bad_plan plan) _).0 s1.1 in
      let s3 = (and_then (ensure (not (no_element lock.plan.candidates)) no_candidates) _).0 s2.1 in
      let (age, later, s4) =
        >>=-eq-ok
          (map_err (λ e. predates_evaluation)
            (duration_since lock.admitted_at lock.plan.evaluated_at))
          _ s3.1 in
      let (bytes, printed, s5) =
        >>=-eq-ok
          (map_err bad_manifest (
            serialize_admission_manifest tools.leb_version tools.version_text tools.manifest_toml
              (requests_manifest tools lock)))
          _ s4 in
      let s6 = (and_then (check_adjacent tools lock (some manifest)) _).0 s5 in
      record {
        planned = map_err-eq-ok bad_plan plan tt s2.0;
        admitted = matches-IsAdmitted lock manifest s6.1 (adjacent-equal lock manifest s6.0);
      }

  pub load_admission_lock-IsBatch :
      (file : File) (manifest : AdmissionManifest) (lock : AdmissionLock) (bytes : Bytes)
      → LoadsLock file manifest lock bytes
      → (file ≡ regular bytes) × IsBatch manifest lock
  unfolding load_admission_lock serialize_admission_lock
  load_admission_lock-IsBatch file manifest lock bytes h =
      let serialize = serialize_admission_lock tools (some manifest) in
      let (found, printed) =
        load_canonical-eq-ok lock_errors tools.lock_toml.from_slice serialize file lock bytes h in
      let check = validate_admission_lock tools lock (some manifest) in
      let (u, passes, s0) = >>=-eq-ok check _ printed in
      (found, validate_admission_lock-IsBatch lock manifest passes)
