-- ===== src/Watcher/Applied.antt =====
-- What `apply` of rust/serve/src/watcher.rs does with each kind of candidate.
use mathlib.Core.Path.{subst}
use pkgre.Prelude.{
  ◌≡◌, ◌≢◌, refl, sym, ◌∙◌, Bytes, true, List, Option, none, some, ok, is_ok-value, arith,
}
use pkgre.AcceptedRef.{AcceptedRef, RepositoryConfig}
use pkgre.AcceptedRef.Startup.{TransitionDecision, TransitionReason, TransitionOutcome}
use pkgre.AcceptedRef.Reload.{ReloadCandidate, Persistence, evaluate_reload}
use pkgre.AcceptedRef.Records.{IsFullRef, IsBound, IsLowerHex, draft, new-draft}
use pkgre.AcceptedRef.Forward.{
  IsForward, IsPhased, forward_outcome, accept_forward_iff, evaluate_reload_total,
}
use pkgre.Watcher.{Snapshot, Watcher, contains, insert, build_record}
use pkgre.Watcher.Poll.{PollReport, Polled, suppress, apply_decision, apply}

-- The record that `build_record` builds.
abbrev pub record_for : RepositoryConfig → Bytes → AcceptedRef
record_for config commit = draft commit config.full_ref config.repository_identity

pub record_for-IsBound :
    (config : RepositoryConfig) (r : AcceptedRef) (commit : Bytes)
    → IsBound config r
    → IsLowerHex 40 commit
    → IsBound config (record_for config commit)
record_for-IsBound config r commit b h = record {
  canonical = record {
    schema = refl;
    commit = h;
    full_ref = subst IsFullRef b.full_ref b.canonical.full_ref;
    identity = subst (IsLowerHex 64) b.identity b.canonical.identity;
  };
  identity = refl;
  full_ref = refl;
}

pub build_record_lem :
    (config : RepositoryConfig) (r : AcceptedRef) (commit : Bytes)
    → IsBound config r
    → IsLowerHex 40 commit
    → build_record config commit ≡ ok (record_for config commit)
unfolding build_record
build_record_lem config r commit b h =
    new-draft commit config.full_ref config.repository_identity
      (record_for-IsBound config r commit b h).canonical

-- The outcome of such a candidate exists, and it takes nothing over.
evaluate_keeps :
    (config : RepositoryConfig) (r : AcceptedRef) (candidate : Option ReloadCandidate)
    → IsBound config r
    → ((c : ReloadCandidate)
        → candidate ≡ some c
        → IsPhased c × (c.persistence ≢ Persistence.success))
    → (o : TransitionOutcome) × (evaluate_reload r candidate config ≡ ok o)
      × (o.decision ≢ TransitionDecision.accept_forward)
evaluate_keeps config r candidate b h =
    let (o, e) =
      is_ok-value (evaluate_reload r candidate config)
        (evaluate_reload_total r candidate config b (λ c given. (h c given).0)) in
    (
      o,
      e,
      λ d.
          let (_, (c, given, f, _)) = (accept_forward_iff r candidate config o).0 (e, d) in
          (h c given).1 f.persistence,
    )

-- What is suppressed stays suppressed.
abbrev pub Remembers : {Content : Type 0} → Watcher Content → Watcher Content → Type 0
Remembers w w' =
    (hash : Bytes) → contains w.suppressed hash ≡ true → contains w'.suppressed hash ≡ true

contains-insert :
    (hashes : List Bytes) (hash other : Bytes)
    → contains hashes other ≡ true
    → contains (insert hash hashes) other ≡ true
unfolding contains insert
contains-insert hashes hash other h = ground arith

-- The parts of the watcher that clients and the next start see are as before.
pub record IsKept {Content : Type 0} (w w' : Watcher Content) : Type 0 where
  pub accepted : w'.accepted ≡ w.accepted
  pub snapshot : w'.snapshot ≡ w.snapshot
  pub record_file : w'.record_file ≡ w.record_file
  pub suppressed : Remembers w w'

module _ {Content : Type 0} where
  -- A poll that ends in a report, with nothing taken over.
  abbrev pub Keeps : Watcher Content → Polled Content → Type 0
  Keeps w p =
      (report : PollReport) × (w' : Watcher Content) × (p ≡ some (report, w'))
      × (report.decision ≢ TransitionDecision.accept_forward)
      × IsKept w w'

  IsKept-self : (w : Watcher Content) → IsKept w w
  IsKept-self w = record {
    accepted = refl;
    snapshot = refl;
    record_file = refl;
    suppressed = λ _ h. h;
  }

  suppress-IsKept :
      (candidate : Option ReloadCandidate) (w : Watcher Content) → IsKept w (suppress candidate w)
  unfolding suppress
  suppress-IsKept none w = IsKept-self w
  suppress-IsKept (some c) w = record {
    accepted = ground arith;
    snapshot = ground arith;
    record_file = ground arith;
    suppressed = λ hash h. ground (arith, contains-insert w.suppressed c.commit hash h);
  }

  reported :
      (outcome : TransitionOutcome) (d : TransitionDecision) (w w' : Watcher Content)
      → outcome.decision ≡ d
      → d ≢ TransitionDecision.accept_forward
      → IsKept w w'
      → Keeps w (some (record { decision = outcome.decision; reason = outcome.reason }, w'))
  reported outcome d w w' e n k = (
    record { decision = outcome.decision; reason = outcome.reason },
    w',
    refl,
    λ p. n (sym e ∙ p),
    k,
  )

  decision-Keeps :
      (config : RepositoryConfig) (candidate : Option ReloadCandidate)
      (pending : Option (Snapshot Content)) (outcome : TransitionOutcome) (d : TransitionDecision)
      (w : Watcher Content)
      → outcome.decision ≡ d
      → d ≢ TransitionDecision.accept_forward
      → Keeps w (apply_decision config candidate pending outcome d w)
  unfolding apply_decision
  decision-Keeps config candidate pending outcome TransitionDecision.accept_forward w e n =
      absurd (n refl)
  decision-Keeps config candidate pending outcome TransitionDecision.retain_accepted w e n =
      reported outcome _ w (suppress candidate w) e n (suppress-IsKept candidate w)
  decision-Keeps config candidate pending outcome _ w e n =
      reported outcome _ w w e n (IsKept-self w)

  -- A candidate that is not forward is kept out, and so is an unavailable remote.
  pub apply-Keeps :
      (config : RepositoryConfig) (r : AcceptedRef) (candidate : Option ReloadCandidate)
      (pending : Option (Snapshot Content)) (w : Watcher Content)
      → IsBound config r
      → ((c : ReloadCandidate)
          → candidate ≡ some c
          → IsPhased c × (c.persistence ≢ Persistence.success))
      → Keeps w (apply config r candidate pending w)
  unfolding apply
  apply-Keeps config r candidate pending w b h =
      let (o, e, n) = evaluate_keeps config r candidate b h in
      rw e (decision-Keeps config candidate pending o o.decision w refl n)

  -- A forward candidate with its snapshot is taken over.
  pub apply_forward :
      (config : RepositoryConfig) (r : AcceptedRef) (c : ReloadCandidate) (s : Snapshot Content)
      (w : Watcher Content)
      → IsBound config r
      → IsForward r.accepted_commit config c
      → apply config r (some c) (some s) w
        ≡ some (
          record {
            decision = TransitionDecision.accept_forward;
            reason = TransitionReason.valid_forward_candidate;
          },
          record w { accepted = some (record_for config c.commit); snapshot = some s },
        )
  unfolding apply apply_decision
  apply_forward config r c s w b f =
      let taken =
        (accept_forward_iff r (some c) config (forward_outcome c.commit)).1
          (b, (c, refl, f, refl)) in
      rw (taken.0, build_record_lem config r c.commit b f.commit)

  pub apply-none-Keeps :
      (config : RepositoryConfig) (r : AcceptedRef) (pending : Option (Snapshot Content))
      (w : Watcher Content)
      → IsBound config r
      → Keeps w (apply config r none pending w)
  apply-none-Keeps config r pending w b = apply-Keeps config r none pending w b (λ c e. absurd (cc))

  pub apply-some-Keeps :
      (config : RepositoryConfig) (r : AcceptedRef) (c : ReloadCandidate)
      (pending : Option (Snapshot Content)) (w : Watcher Content)
      → IsBound config r
      → IsPhased c
      → c.persistence ≢ Persistence.success
      → Keeps w (apply config r (some c) pending w)
  apply-some-Keeps config r c pending w b p n = apply-Keeps config r (some c) pending w b λ d e.
      let same : c ≡ d = cc in
      subst (λ x. IsPhased x × (x.persistence ≢ Persistence.success)) same (p, n)
