-- ===== src/Watcher/Polling.antt =====
-- One poll of rust/serve/src/watcher.rs, from the observed tip on: it stays or it moves.
use mathlib.Core.Path.{subst}
use pkgre.Prelude.{
  ◌≡◌, ◌≢◌, inl, inr, refl, ◌∙◌, ap, Bytes, Bool, true, false, not, Option, none, some, arith,
  Bool-cases, beq, beq→eq, beq_iff, if◌then◌else◌,
}
use pkgre.AcceptedRef.{AcceptedRef, RepositoryConfig, Json}
use pkgre.AcceptedRef.Startup.{ObjectState}
use pkgre.AcceptedRef.Reload.{Ancestry}
use pkgre.AcceptedRef.Records.{IsLowerHex, IsBound, valid_hex_iff}
use pkgre.AcceptedRef.Forward.{IsPhased}
use pkgre.Watcher.{
  Watcher, remote_tip, valid_commit_name, ExitStatus, object_state, ancestry, contains,
}
use pkgre.Watcher.Poll.{
  Observation, Polled, is_descendant, rejected_candidate, fresh_candidate, count_trees,
  semantic_validation, apply, known_relation, relation, reload_object, reload_fetched, reload_tip,
  reload,
}
use pkgre.Watcher.Applied.{apply-none-Keeps, apply-some-Keeps}
use pkgre.Watcher.Serving.{Keeps-Stays}
use pkgre.Watcher.Reloading.{IsReached, Ends, validate-Ends}

-- A tip that `remote_tip` returns has the form of a commit name.
pub remote_tip-named :
    (o : Option (Option (Option Bytes))) (tip : Bytes)
    → remote_tip o ≡ some (some tip)
    → IsLowerHex 40 tip
unfolding remote_tip valid_commit_name
remote_tip-named none tip h = absurd (cc)
remote_tip-named (some none) tip h = absurd (cc)
remote_tip-named (some (some none)) tip h = absurd (cc)
remote_tip-named (some (some (some t))) tip h =
    let same : t ≡ tip = ground arith in
    subst (IsLowerHex 40) same ((valid_hex_iff t 40).0 (ground arith))

relation_ne :
    (forward backward : Option ExitStatus)
    → (known_relation (ancestry forward backward) ≢ Ancestry.equal)
      × (known_relation (ancestry forward backward) ≢ Ancestry.not_evaluated)
unfolding known_relation ancestry
relation_ne none backward = ((λ e. absurd (cc)), (λ e. absurd (cc)))
relation_ne (some forward) none = ((λ e. absurd (cc)), (λ e. absurd (cc)))
relation_ne (some forward) (some backward) = ((λ e. ground arith), (λ e. ground arith))

known_descendant :
    (a : Option Ancestry) → is_descendant (known_relation a) ≡ true → a ≡ some Ancestry.descendant
unfolding known_relation is_descendant
known_descendant none h = absurd (cc)
known_descendant (some Ancestry.descendant) h = refl
known_descendant (some _) h = absurd (cc)

module _ {Content : Type 0} (json : Json) (config : RepositoryConfig) (obs : Observation Content)
    (r : AcceptedRef) (w : Watcher Content) (bound : IsBound config r) where
  none-Ends : Ends json config obs w (apply config r none none w)
  none-Ends = inl (Keeps-Stays json config obs w _ (apply-none-Keeps config r none w bound))

  Ends-if :
      (test : Bool) (p q : Polled Content)
      → (test ≡ true → Ends json config obs w p)
      → (test ≡ false → Ends json config obs w q)
      → Ends json config obs w (if test then p else q)
  Ends-if true p q f g = f refl
  Ends-if false p q f g = g refl

  -- The state of the watcher when it starts to compare trees.
  module _ (tip : Bytes) (moves : tip ≢ r.accepted_commit)
      (observed : remote_tip obs.ls_remote ≡ some (some tip))
      (fresh : contains w.suppressed tip ≡ false) (fetched : obs.fetch ≡ true)
      (resolved : obs.watch_ref ≡ some tip) where
    other-IsPhased :
        (object : ObjectState)
        → object ≢ ObjectState.valid
        → IsPhased (fresh_candidate config tip object (relation json config obs object))
    unfolding fresh_candidate
    other-IsPhased object n = record {
      compared = λ e. absurd (n e);
      validated = λ e. absurd (n e);
      attempted = λ e. absurd (n e);
    }

    other-Ends :
        (object : ObjectState)
        → object ≢ ObjectState.valid
        → Ends json config obs w (
            apply config r
              (some (fresh_candidate config tip object (relation json config obs object)))
              none
              w)
    unfolding fresh_candidate
    other-Ends object n = inl (
        Keeps-Stays json config obs w _
          (apply-some-Keeps config r _ none w bound (other-IsPhased object n) (λ e. absurd (cc))))

    unrelated-IsPhased :
        is_descendant (known_relation (ancestry obs.forward obs.backward)) ≡ false
        → IsPhased (
            fresh_candidate config tip ObjectState.valid
              (known_relation (ancestry obs.forward obs.backward)))
    unfolding fresh_candidate is_descendant
    unrelated-IsPhased h = record {
      compared = λ _. relation_ne obs.forward obs.backward;
      validated = λ _ e. ground arith;
      attempted = λ _ e. ground arith;
    }

    -- From the object probe on.
    object-Ends :
        (object : Option ObjectState)
        → object_state obs.object_exists obs.object_kind ≡ object
        → Ends json config obs w (reload_object json config obs r tip object w)
    unfolding reload_object
    object-Ends none e = none-Ends
    object-Ends (some ObjectState.valid) e =
        elim (Bool-cases (is_descendant (known_relation (ancestry obs.forward obs.backward)))) [
          | inl below ↦
              let related = known_descendant (ancestry obs.forward obs.backward) below in
              let reached : IsReached json config obs r w tip = record {
                observed = observed;
                named = remote_tip-named obs.ls_remote tip observed;
                moves = moves;
                fresh = fresh;
                fetched = fetched;
                resolved = resolved;
                object = e;
                descends = related;
              } in
              rw (below, related)
                (validate-Ends json config obs r w tip bound reached (semantic_validation tip obs)
                  (record w { temp_counter = count_trees obs w.temp_counter }) refl refl refl refl
                  refl)
          | inr apart ↦ rw apart (
              inl (
                Keeps-Stays json config obs w _ (
                  apply-some-Keeps config r _ none w bound (unrelated-IsPhased apart)
                    (λ p. absurd (cc)))))
        ]
    object-Ends (some ObjectState.corrupt) e = other-Ends ObjectState.corrupt (λ p. absurd (cc))
    object-Ends (some ObjectState.malformed) e = other-Ends ObjectState.malformed (λ p. absurd (cc))
    object-Ends (some ObjectState.missing) e = other-Ends ObjectState.missing (λ p. absurd (cc))
    object-Ends (some ObjectState.not_applicable) e =
        other-Ends ObjectState.not_applicable (λ p. absurd (cc))

    -- From the fetch on.
    fetched-Ends : Ends json config obs w (reload_fetched json config obs r tip (some tip) w)
    unfolding reload_fetched
    fetched-Ends =
        rw ((beq_iff tip tip).1 refl)
          (object-Ends (object_state obs.object_exists obs.object_kind) refl)

  moved-Ends :
      (tip observed : Bytes)
      → beq observed tip ≡ false
      → Ends json config obs w (reload_fetched json config obs r tip (some observed) w)
  unfolding reload_fetched
  moved-Ends tip observed h = rw h none-Ends

  rejected-Ends :
      (tip : Bytes)
      → Ends json config obs w (apply config r (some (rejected_candidate config tip)) none w)
  unfolding rejected_candidate
  rejected-Ends tip = inl (
      Keeps-Stays json config obs w _ (
        apply-some-Keeps config r _ none w bound
          (record {
            compared = λ e. absurd (cc);
            validated = λ e. absurd (cc);
            attempted = λ e. absurd (cc);
          })
          (λ e. absurd (cc))))

  -- From the answer of `git rev-parse` on.
  resolved-Ends :
      (tip : Bytes) (watch : Option Bytes)
      → tip ≢ r.accepted_commit
      → remote_tip obs.ls_remote ≡ some (some tip)
      → contains w.suppressed tip ≡ false
      → obs.fetch ≡ true
      → obs.watch_ref ≡ watch
      → Ends json config obs w (reload_fetched json config obs r tip watch w)
  resolved-Ends tip none moves o fresh fetched e = unfold reload_fetched in none-Ends
  resolved-Ends tip (some observed) moves o fresh fetched e = elim (Bool-cases (beq observed tip)) [
    | inl same ↦
        let eq : observed ≡ tip = beq→eq observed tip same in
        rw eq (fetched-Ends tip moves o fresh fetched (e ∙ ap some eq))
    | inr differs ↦ moved-Ends tip observed differs
  ]

  -- From the observed tip on.
  tip-Ends :
      (tip : Bytes)
      → remote_tip obs.ls_remote ≡ some (some tip)
      → Ends json config obs w (reload_tip json config obs r tip w)
  unfolding reload_tip
  tip-Ends tip o =
      Ends-if (beq tip r.accepted_commit) _ _
        (λ _. inl (_, w, refl, (λ e. absurd (cc)), refl, refl, inl refl, λ _ h. h))
        λ other.
          Ends-if (contains w.suppressed tip) _ _ (λ _. rejected-Ends tip)
            λ fresh.
              Ends-if (not obs.fetch) _ _ (λ _. none-Ends)
                λ fetched.
                  resolved-Ends tip obs.watch_ref
                    (λ e. ground (arith, (beq_iff tip r.accepted_commit).1 e)) o fresh
                    (ground arith) refl

  pub reload-Ends :
      (seen : Option (Option Bytes))
      → remote_tip obs.ls_remote ≡ seen
      → Ends json config obs w (reload json config obs r seen w)
  unfolding reload
  reload-Ends none o = none-Ends
  reload-Ends (some none) o = none-Ends
  reload-Ends (some (some tip)) o = tip-Ends tip o
