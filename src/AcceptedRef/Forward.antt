-- ===== src/AcceptedRef/Forward.antt =====
-- When a reload moves the accepted commit: the laws of `evaluate_reload` of rust/src/accepted_ref.rs.
use pkgre.Prelude.{
  ◌≡◌, ◌≢◌, ◌↔◌, refl, Bytes, true, false, Option, none, some, ok, arith, ap, beq→eq, beq_iff,
  is_ok, >>=-eq-ok,
}
use pkgre.AcceptedRef.{AcceptedRef, RepositoryConfig, validate_record}
use pkgre.AcceptedRef.Startup.{ObjectState, TransitionDecision, TransitionReason, TransitionOutcome}
use pkgre.AcceptedRef.Reload.{
  Ancestry, Persistence, SemanticValidity, ReloadCandidate, reload_candidate, reload_observed,
  evaluate_reload,
}
use pkgre.AcceptedRef.Records.{IsLowerHex, valid_hex_iff, IsBound, validate_record_iff}

-- All that a candidate has to be before it is taken over from `accepted`.
pub record IsForward (accepted : Bytes) (config : RepositoryConfig) (c : ReloadCandidate)
    : Type 0 where
  pub identity : c.repository_identity ≡ config.repository_identity
  pub full_ref : c.full_ref ≡ config.full_ref
  pub commit : IsLowerHex 40 c.commit
  pub fresh : c.suppressed ≡ false
  pub object : c.object_state ≡ ObjectState.valid
  pub moves : c.commit ≢ accepted
  pub ancestry : c.ancestry ≡ Ancestry.descendant
  pub validity : c.semantic_validity ≡ SemanticValidity.valid
  pub persistence : c.persistence ≡ Persistence.success

abbrev pub forward_outcome : Bytes → TransitionOutcome
forward_outcome commit = record {
  accepted_commit = some commit;
  active_commit = some commit;
  candidate_load = some true;
  decision = TransitionDecision.accept_forward;
  persist_record = true;
  reason = TransitionReason.valid_forward_candidate;
}

-- Every other outcome keeps the accepted commit, active and accepted, and persists nothing.
pub record IsRetained (accepted : Bytes) (o : TransitionOutcome) : Type 0 where
  pub accepted_commit : o.accepted_commit ≡ some accepted
  pub active_commit : o.active_commit ≡ some accepted
  pub persist_record : o.persist_record ≡ false
  pub decision : o.decision ≢ TransitionDecision.accept_forward

candidate_sound :
    (accepted : Bytes) (config : RepositoryConfig) (c : ReloadCandidate) (o : TransitionOutcome)
    → reload_candidate accepted c config ≡ ok o
    → o.decision ≡ TransitionDecision.accept_forward
    → IsForward accepted config c
unfolding reload_candidate
candidate_sound accepted config c o h d = record {
  identity = beq→eq c.repository_identity config.repository_identity (ground arith);
  full_ref = beq→eq c.full_ref config.full_ref (ground arith);
  commit = (valid_hex_iff c.commit 40).0 (ground arith);
  fresh = ground arith;
  object = ground arith;
  moves = λ same. ground (arith, (beq_iff c.commit accepted).1 same);
  ancestry = ground arith;
  validity = ground arith;
  persistence = ground arith;
}

candidate_outcome :
    (accepted : Bytes) (config : RepositoryConfig) (c : ReloadCandidate) (o : TransitionOutcome)
    → reload_candidate accepted c config ≡ ok o
    → o.decision ≡ TransitionDecision.accept_forward
    → o ≡ forward_outcome c.commit
unfolding reload_candidate
candidate_outcome accepted config c o h d = ground arith

candidate_retains :
    (accepted : Bytes) (config : RepositoryConfig) (c : ReloadCandidate) (o : TransitionOutcome)
    → reload_candidate accepted c config ≡ ok o
    → o.decision ≢ TransitionDecision.accept_forward
    → IsRetained accepted o
unfolding reload_candidate
candidate_retains accepted config c o h d = record {
  accepted_commit = ground arith;
  active_commit = ground arith;
  persist_record = ground arith;
  decision = d;
}

candidate_complete :
    (accepted : Bytes) (config : RepositoryConfig) (c : ReloadCandidate)
    → IsForward accepted config c
    → reload_candidate accepted c config ≡ ok (forward_outcome c.commit)
unfolding reload_candidate
candidate_complete accepted config c f = ground (
  arith,
  (beq_iff c.repository_identity config.repository_identity).1 f.identity,
  (beq_iff c.full_ref config.full_ref).1 f.full_ref,
  (valid_hex_iff c.commit 40).1 f.commit,
  f.fresh,
  f.object,
  f.ancestry,
  f.validity,
  f.persistence,
  beq→eq c.commit accepted,
  f.moves,
)

-- `o` is the outcome that takes the candidate over.
abbrev pub Takes : Bytes → RepositoryConfig → Option ReloadCandidate → TransitionOutcome → Type 0
Takes accepted config candidate o =
    (c : ReloadCandidate) × (candidate ≡ some c)
    × IsForward accepted config c
    × (o ≡ forward_outcome c.commit)

observed_sound :
    (accepted : Bytes) (config : RepositoryConfig) (candidate : Option ReloadCandidate)
    (o : TransitionOutcome)
    → reload_observed accepted candidate config ≡ ok o
    → o.decision ≡ TransitionDecision.accept_forward
    → Takes accepted config candidate o
unfolding reload_observed
observed_sound accepted config none o h d = ground arith
observed_sound accepted config (some c) o h d =
    (c, refl, candidate_sound accepted config c o h d, candidate_outcome accepted config c o h d)

observed_complete :
    (accepted : Bytes) (config : RepositoryConfig) (candidate : Option ReloadCandidate)
    (o : TransitionOutcome)
    → Takes accepted config candidate o
    → reload_observed accepted candidate config ≡ ok o
unfolding reload_observed
observed_complete accepted config candidate o (c, given, forward, same) =
    rw (given, same) (candidate_complete accepted config c forward)

observed_retains :
    (accepted : Bytes) (config : RepositoryConfig) (candidate : Option ReloadCandidate)
    (o : TransitionOutcome)
    → reload_observed accepted candidate config ≡ ok o
    → o.decision ≢ TransitionDecision.accept_forward
    → IsRetained accepted o
unfolding reload_observed
observed_retains accepted config none o h d = record {
  accepted_commit = ground arith;
  active_commit = ground arith;
  persist_record = ground arith;
  decision = d;
}
observed_retains accepted config (some c) o h d = candidate_retains accepted config c o h d

-- A reload accepts a commit exactly when the accepted record is bound to the configuration and the
-- candidate is for the same repository and ref, is not suppressed, is a valid commit other than the
-- accepted one, descends from it, passed semantic validation and was persisted; the outcome
-- then makes its commit accepted and active and asks for the record to be written.
pub accept_forward_iff :
    (r : AcceptedRef) (candidate : Option ReloadCandidate) (config : RepositoryConfig)
    (o : TransitionOutcome)
    → ((evaluate_reload r candidate config ≡ ok o)
        × (o.decision ≡ TransitionDecision.accept_forward))
      ↔ (IsBound config r × Takes r.accepted_commit config candidate o)
unfolding evaluate_reload
accept_forward_iff r candidate config o = (
  λ h.
      let (u, v, e) =
        >>=-eq-ok (validate_record config r)
          (λ _. reload_observed r.accepted_commit candidate config) h.0 in
      (
        (validate_record_iff config r).0 v,
        observed_sound r.accepted_commit config candidate o e h.1,
      ),
  λ h. (
    rw ((validate_record_iff config r).1 h.0)
        (observed_complete r.accepted_commit config candidate o h.1),
    ap (λ (x : TransitionOutcome). x.decision) h.1.3,
  ),
)

-- A reload that does not accept a candidate keeps the accepted commit accepted and active, and
-- writes no record.
pub reload-IsRetained :
    (r : AcceptedRef) (candidate : Option ReloadCandidate) (config : RepositoryConfig)
    (o : TransitionOutcome)
    → evaluate_reload r candidate config ≡ ok o
    → o.decision ≢ TransitionDecision.accept_forward
    → IsRetained r.accepted_commit o
unfolding evaluate_reload
reload-IsRetained r candidate config o h d =
    let (u, v, e) =
      >>=-eq-ok (validate_record config r) (λ _. reload_observed r.accepted_commit candidate config)
        h in
    observed_retains r.accepted_commit config candidate o e d

-- The facts that a caller has established of a candidate, in the order in which they are checked.
pub record IsPhased (c : ReloadCandidate) : Type 0 where
  pub compared :
      c.object_state ≡ ObjectState.valid
      → (c.ancestry ≢ Ancestry.equal) × (c.ancestry ≢ Ancestry.not_evaluated)
  pub validated :
      c.object_state ≡ ObjectState.valid
      → c.ancestry ≡ Ancestry.descendant
      → c.semantic_validity ≢ SemanticValidity.not_evaluated
  pub attempted :
      c.object_state ≡ ObjectState.valid
      → c.ancestry ≡ Ancestry.descendant
      → c.semantic_validity ≡ SemanticValidity.valid
      → c.persistence ≢ Persistence.not_attempted

candidate_total :
    (accepted : Bytes) (config : RepositoryConfig) (c : ReloadCandidate)
    → IsPhased c
    → is_ok (reload_candidate accepted c config) ≡ true
unfolding reload_candidate
candidate_total accepted config c p = ground (arith, p.compared, p.validated, p.attempted)

observed_total :
    (accepted : Bytes) (config : RepositoryConfig) (candidate : Option ReloadCandidate)
    → ((c : ReloadCandidate) → candidate ≡ some c → IsPhased c)
    → is_ok (reload_observed accepted candidate config) ≡ true
unfolding reload_observed
observed_total accepted config none p = refl
observed_total accepted config (some c) p = candidate_total accepted config c (p c refl)

-- With a bound record a reload returns an outcome, whatever the candidate, if each fact of the
-- candidate was established before the next one was asked for.
pub evaluate_reload_total :
    (r : AcceptedRef) (candidate : Option ReloadCandidate) (config : RepositoryConfig)
    → IsBound config r
    → ((c : ReloadCandidate) → candidate ≡ some c → IsPhased c)
    → is_ok (evaluate_reload r candidate config) ≡ true
unfolding evaluate_reload
evaluate_reload_total r candidate config b p =
    rw ((validate_record_iff config r).1 b) (observed_total r.accepted_commit config candidate p)
