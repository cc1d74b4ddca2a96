-- ===== src/Watcher/Runs.antt =====
-- Sequences of polls of rust/serve/src/watcher.rs, and the commits that they serve.
use mathlib.Core.Path.{subst}
use pkgre.Prelude.{
  ◌≡◌, ◌≢◌, sym, ◌∙◌, ap, inl, inr, Bytes, true, Option, none, some, arith, [], ==_iff,
}
use pkgre.AcceptedRef.{AcceptedRef, RepositoryConfig, Json}
use pkgre.AcceptedRef.Reload.{Ancestry}
use pkgre.Watcher.{Watcher, ExitStatus, remote_tip, ancestry, contains}
use pkgre.Watcher.Poll.{Observation, PollReport, Polled, poll_once}
use pkgre.Watcher.Serving.{IsServing, IsTaken}
use pkgre.Watcher.Reloading.{Ends}
use pkgre.Watcher.LastGood.{poll-Stays-Moves, stays-IsServing, taken-IsServing}

descendant-forward :
    (forward backward : Option ExitStatus)
    → ancestry forward backward ≡ some Ancestry.descendant
    → forward ≡ some (some 0)
unfolding ancestry
descendant-forward none backward h = absurd (cc)
descendant-forward (some forward) none h = absurd (cc)
descendant-forward (some none) (some backward) h = ground arith
descendant-forward (some (some code)) (some backward) h =
    let zero_code : code ≡ 0 = ground (arith, ==_iff code 0) in ap (λ c. some (some c)) zero_code

commit_or : Option AcceptedRef → Bytes
commit_or none = []
commit_or (some r) = r.accepted_commit

module _ {Content : Type 0} (json : Json) (config : RepositoryConfig)
    (below : Bytes → Bytes → Type 0) where
  -- `git merge-base --is-ancestor` ends with code 0 only for an ancestor.
  abbrev pub IsHonest : Watcher Content → Observation Content → Type 0
  IsHonest w obs =
      (r : AcceptedRef) (tip : Bytes)
      → w.accepted ≡ some r
      → remote_tip obs.ls_remote ≡ some (some tip)
      → obs.forward ≡ some (some 0)
      → below r.accepted_commit tip

  -- Polls, one after another.
  pub data Run (w : Watcher Content) : Watcher Content → Type 0 where
    here : Run w w
    next :
        {w' w'' : Watcher Content}
        → Run w w'
        → (obs : Observation Content) (report : PollReport) → IsHonest w' obs
        → poll_once json config obs w' ≡ some (report, w'')
        → Run w w''

  -- The watcher serves a commit at or after `from`.
  abbrev pub ServesFrom : Bytes → Watcher Content → Type 0
  ServesFrom from w = (s : IsServing config w) × below from s.record'.accepted_commit

  module _ (below_trans : (a b c : Bytes) → below a b → below b c → below a c) where
    Ends-forward :
        (from : Bytes) (w w' : Watcher Content) (obs : Observation Content) (report : PollReport)
        (p : Polled Content)
        → ServesFrom from w
        → IsHonest w obs
        → Ends json config obs w p
        → p ≡ some (report, w')
        → ServesFrom from w'
    unfolding stays-IsServing taken-IsServing
    Ends-forward from w w' obs report p (s, b) honest (inl (report', v, e', n, a, b', f, q)) e =
        let same : v ≡ w' = cc (e, e') in
        subst (ServesFrom from) same (stays-IsServing json config obs w v s a b', b)
    Ends-forward from w w' obs report p (s, b) honest (inr (v, tip, e', t)) e =
        let same : v ≡ w' = cc (e, e') in
        subst (ServesFrom from) same (
          taken-IsServing json config obs w v tip t,
          below_trans from s.record'.accepted_commit tip b (
              honest s.record' tip s.given t.observed
                (descendant-forward obs.forward obs.backward t.descends)),
        )

    -- From a serving watcher every sequence of polls leads to a serving watcher, and the commit that
    -- it then serves comes after the first one in every transitive order that `git merge-base` is
    -- true to.
    pub Run-forward :
        (from : Bytes) (w w' : Watcher Content) → ServesFrom from w → Run w w' → ServesFrom from w'
    Run-forward from w w' s here = s
    Run-forward from w w' s (next {w' = v} run obs report honest e) =
        let s' = Run-forward from w v s run in
        Ends-forward from v w' obs report _ s' honest (poll-Stays-Moves json config obs v s'.0) e

  -- The watcher serves, remembers that `hash` was rejected, and serves another commit.
  pub record Shuns (hash : Bytes) (w : Watcher Content) : Type 0 where
    pub serving : IsServing config w
    pub suppressed : contains w.suppressed hash ≡ true
    pub other : (r : AcceptedRef) → w.accepted ≡ some r → r.accepted_commit ≢ hash

  tip_differs :
      (hash tip : Bytes) (w : Watcher Content) (r : AcceptedRef) (v : Watcher Content)
      (obs : Observation Content)
      → Shuns hash w
      → IsTaken json config obs w v tip
      → v.accepted ≡ some r
      → r.accepted_commit ≢ hash
  unfolding commit_or
  tip_differs hash tip w r v obs s t g h =
      let same : tip ≡ hash =
        ap (λ (x : Option AcceptedRef). commit_or x) (sym t.accepted ∙ g) ∙ h in
      let remembered : contains w.suppressed tip ≡ true =
        ap (contains w.suppressed) same ∙ s.suppressed in
      cc (remembered, t.fresh)

  Ends-Shuns :
      (hash : Bytes) (w w' : Watcher Content) (obs : Observation Content) (report : PollReport)
      (p : Polled Content)
      → Shuns hash w
      → Ends json config obs w p
      → p ≡ some (report, w')
      → Shuns hash w'
  Ends-Shuns hash w w' obs report p s (inl (report', v, e', n, a, b, f, q)) e =
      let same : v ≡ w' = cc (e, e') in
      let kept : Shuns hash v = record {
        serving = stays-IsServing json config obs w v s.serving a b;
        suppressed = q hash s.suppressed;
        other = λ r g. s.other r (sym a ∙ g);
      } in
      subst (Shuns hash) same kept
  Ends-Shuns hash w w' obs report p s (inr (v, tip, e', t)) e =
      let same : v ≡ w' = cc (e, e') in
      let moved : Shuns hash v = record {
        serving = taken-IsServing json config obs w v tip t;
        suppressed = ap (λ hashes. contains hashes hash) t.suppressed ∙ s.suppressed;
        other = λ r g h. tip_differs hash tip w r v obs s t g h;
      } in
      subst (Shuns hash) same moved

  -- If a serving watcher has a hash among the suppressed ones and serves another commit, then this is
  -- still so after any sequence of polls: what was rejected is not taken over as long as it runs.
  pub Run-Shuns : (hash : Bytes) (w w' : Watcher Content) → Shuns hash w → Run w w' → Shuns hash w'
  Run-Shuns hash w w' s here = s
  Run-Shuns hash w w' s (next {w' = v} run obs report honest e) =
      let s' = Run-Shuns hash w v s run in
      Ends-Shuns hash v w' obs report _ s' (poll-Stays-Moves json config obs v s'.serving) e
