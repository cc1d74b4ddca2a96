-- ===== src/Watcher/Started.antt =====
-- What a successful `startup` of rust/serve/src/watcher.rs has established.
use mathlib.Core.Path.{subst}
use pkgre.Prelude.{
  ◌≡◌, inl, inr, refl, sym, ◌∙◌, Bytes, true, ◌&&◌, Option, none, some, Result, ok, err, arith,
  Bool-cases,
}
use pkgre.AcceptedRef
use pkgre.AcceptedRef.{AcceptedRef, RepositoryConfig, Json}
use pkgre.AcceptedRef.Startup.{
  AcceptedRecordState, ObjectState, StartupInput, TransitionDecision, TransitionOutcome,
  evaluate_startup,
}
use pkgre.AcceptedRef.Records.{IsBound, new_iff}
use pkgre.AcceptedRef.Authority.{start_accepted_sound}
use pkgre.Watcher.{Snapshot, Watcher, build_record, persist_record}
use pkgre.Watcher.Serving.{IsServing}
use pkgre.Watcher.Startup.{
  Boot, load_startup_record, Booted, initial_snapshot, start, persist_bootstrap, persist_snapshot,
  start_bootstrap, start_snapshot, start_accepted, boot_decision, boot_outcome, boot_probed,
  boot_loaded, startup,
}

build_record-IsBound :
    (config : RepositoryConfig) (commit : Bytes) (r : AcceptedRef)
    → build_record config commit ≡ ok r
    → IsBound config r × (r.accepted_commit ≡ commit)
unfolding build_record
build_record-IsBound config commit r h =
    let (canonical, same, full_ref, identity) =
      (new_iff commit config.full_ref config.repository_identity r).0 h in
    (record { canonical = canonical; identity = identity; full_ref = full_ref }, same)

module _ {Content : Type 0} (json : Json) (config : RepositoryConfig) (b : Boot Content) where
  -- A startup that returns `Ok` leaves a watcher that serves.
  abbrev Boots : Booted Content → Type 0
  Boots x = x.0 ≡ true → IsServing config x.1

  start-Boots :
      (r : AcceptedRef) (s : Snapshot Content) (w : Watcher Content)
      → IsBound config r
      → s.source_commit ≡ r.accepted_commit
      → Boots (start r s w)
  unfolding start
  start-Boots r s w bound same h = record {
    record' = r;
    given = refl;
    bound = bound;
    shown = s;
    installed = refl;
    same = same;
  }

  initial-same :
      (commit : Bytes) (s : Snapshot Content)
      → initial_snapshot commit b ≡ some s
      → s.source_commit ≡ commit
  unfolding initial_snapshot
  initial-same commit s h = ground arith

  persist-Boots :
      (s : Snapshot Content) (commit : Bytes) (built : Result AcceptedRef.Error AcceptedRef)
      (w : Watcher Content)
      → build_record config commit ≡ built
      → s.source_commit ≡ commit
      → Boots (persist_bootstrap json config b s built w)
  unfolding persist_bootstrap
  persist-Boots s commit (err e) w h same = λ t. absurd (cc)
  persist-Boots s commit (ok r) w h same =
      let (bound, named) = build_record-IsBound config commit r h in
      elim (Bool-cases (persist_record json config r b.publishing w).0) [
        | inl done ↦ rw done (
            start-Boots r s (persist_record json config r b.publishing w).1 bound
              (same ∙ sym named))
        | inr failed ↦ rw failed (λ t. absurd (cc))
      ]

  snapshot-Boots :
      (commit : Bytes) (s : Option (Snapshot Content)) (w : Watcher Content)
      → initial_snapshot commit b ≡ s
      → Boots (persist_snapshot json config b commit s w)
  unfolding persist_snapshot
  snapshot-Boots commit none w e = λ t. absurd (cc)
  snapshot-Boots commit (some s) w e =
      persist-Boots s commit (build_record config commit) w refl (initial-same commit s e)

  bootstrap-Boots :
      (commit : Option Bytes) (w : Watcher Content) → Boots (start_bootstrap json config b commit w)
  unfolding start_bootstrap
  bootstrap-Boots none w = λ t. absurd (cc)
  bootstrap-Boots (some commit) w = snapshot-Boots commit (initial_snapshot commit b) _ refl

  resume-Boots :
      (r : AcceptedRef) (s : Option (Snapshot Content)) (w : Watcher Content)
      → IsBound config r
      → initial_snapshot r.accepted_commit b ≡ s
      → Boots (start_snapshot r s w)
  unfolding start_snapshot
  resume-Boots r none w bound e = λ t. absurd (cc)
  resume-Boots r (some s) w bound e = start-Boots r s w bound (initial-same r.accepted_commit s e)

  accepted-Boots :
      (record' : Option AcceptedRef) (w : Watcher Content)
      → ((r : AcceptedRef) → record' ≡ some r → IsBound config r)
      → Boots (start_accepted b record' w)
  unfolding start_accepted
  accepted-Boots none w bound = λ t. absurd (cc)
  accepted-Boots (some r) w bound =
      resume-Boots r (initial_snapshot r.accepted_commit b) _ (bound r refl) refl

  decision-Boots :
      (record' : Option AcceptedRef) (outcome : TransitionOutcome) (d : TransitionDecision)
      (w : Watcher Content)
      → (d ≡ TransitionDecision.start_accepted
          → (r : AcceptedRef) → record' ≡ some r
          → IsBound config r)
      → Boots (boot_decision json config b record' outcome d w)
  unfolding boot_decision
  decision-Boots record' outcome TransitionDecision.bootstrap w bound =
      bootstrap-Boots outcome.active_commit w
  decision-Boots record' outcome TransitionDecision.start_accepted w bound =
      accepted-Boots record' w (bound refl)
  decision-Boots record' outcome _ w bound = λ t. absurd (cc)

  input-IsBound :
      (input : StartupInput) (o : TransitionOutcome)
      → evaluate_startup input config ≡ ok o
      → o.decision ≡ TransitionDecision.start_accepted
      → (r : AcceptedRef) → input.accepted_record ≡ some r
      → IsBound config r
  input-IsBound input o e d r given =
      let (r', _, given', bound) = start_accepted_sound input config o e d in
      let same : r' ≡ r = cc (given, given') in subst (IsBound config) same bound

  outcome-Boots :
      (input : StartupInput) (evaluated : Result AcceptedRef.Error TransitionOutcome)
      (w : Watcher Content)
      → evaluate_startup input config ≡ evaluated
      → Boots (boot_outcome json config b input.accepted_record evaluated w)
  unfolding boot_outcome
  outcome-Boots input (err e) w h = λ t. absurd (cc)
  outcome-Boots input (ok o) w h =
      decision-Boots input.accepted_record o o.decision w (input-IsBound input o h)

  module _ (commit : Bytes) where
    probed-Boots :
        (state : AcceptedRecordState) (record' : Option AcceptedRef)
        (probed local : Option ObjectState) (w : Watcher Content)
        → Boots (boot_probed json config commit b state record' probed local w)
    unfolding boot_probed
    probed-Boots state record' none local w = λ t. absurd (cc)
    probed-Boots state record' (some probed) none w = λ t. absurd (cc)
    probed-Boots state record' (some probed) (some local) w = outcome-Boots _ _ w refl

    loaded-Boots :
        (loaded : Option (AcceptedRecordState × Option AcceptedRef)) (w : Watcher Content)
        → Boots (boot_loaded json config commit b loaded w)
    unfolding boot_loaded
    loaded-Boots none w = λ t. absurd (cc)
    loaded-Boots (some (state, record')) w = probed-Boots state record' _ _ w

    whole-Boots : (w : Watcher Content) → Boots (startup json config commit b w)
    unfolding startup
    whole-Boots w = elim (Bool-cases (b.state_ready && b.repository_ready)) [
      | inl ready ↦ rw ready (loaded-Boots (load_startup_record json b.read) w)
      | inr failed ↦ rw failed (λ t. absurd (cc))
    ]

    -- If `startup` returns `Ok`, then the watcher serves: its record is canonical and bound to the
    -- configuration, and the shared snapshot was built from the commit of that record.
    pub startup-IsServing :
        (w w' : Watcher Content) → startup json config commit b w ≡ (true, w') → IsServing config w'
    startup-IsServing w w' h = subst Boots h (whole-Boots w) refl
