-- ===== src/Watcher/LastGood.antt =====
-- The last good state of rust/serve/src/watcher.rs: what every poll of a serving watcher keeps.
use mathlib.Core.Path.{subst}
use pkgre.Prelude.{◌≡◌, ◌⊎◌, refl, ◌∙◌, Bytes, Option, none, some}
use pkgre.AcceptedRef.{AcceptedRef, RepositoryConfig, Json}
use pkgre.AcceptedRef.Records.{IsBound}
use pkgre.Watcher.{Watcher, remote_tip}
use pkgre.Watcher.Poll.{Observation, poll_accepted, poll_once}
use pkgre.Watcher.Applied.{record_for}
use pkgre.Watcher.Serving.{IsServing, Stays, IsTaken, Moves}
use pkgre.Watcher.Reloading.{Ends}
use pkgre.Watcher.Polling.{reload-Ends}

module _ {Content : Type 0} (json : Json) (config : RepositoryConfig)
    (obs : Observation Content) where
  accepted-Ends :
      (accepted : Option AcceptedRef) (r : AcceptedRef) (w : Watcher Content)
      → accepted ≡ some r
      → IsBound config r
      → Ends json config obs w (poll_accepted json config obs accepted w)
  unfolding poll_accepted
  accepted-Ends none r w e b = absurd (cc)
  accepted-Ends (some r') r w e b =
      let same : r ≡ r' = cc in
      reload-Ends json config obs r' w (subst (IsBound config) same b) (remote_tip obs.ls_remote)
        refl

  -- A poll of a serving watcher ends in a report, whatever Git and the disk answer. Either it
  -- reports a forward step: then the observed tip is taken over, with the record and the snapshot
  -- built from it and all the checks passed. Or it reports something else: then the accepted record
  -- and the snapshot are those from before, and so is the record file, unless the new record was
  -- renamed into place and only the sync of its directory failed; what was suppressed still is.
  pub poll-Stays-Moves :
      (w : Watcher Content)
      → IsServing config w
      → Stays json config obs w (poll_once json config obs w)
        ⊎ Moves json config obs w (poll_once json config obs w)
  unfolding poll_once
  poll-Stays-Moves w s = accepted-Ends w.accepted s.record' w s.given s.bound

  unfoldable pub stays-IsServing :
      (w w' : Watcher Content)
      → IsServing config w
      → w'.accepted ≡ w.accepted
      → w'.snapshot ≡ w.snapshot
      → IsServing config w'
  stays-IsServing w w' s a b = record {
    record' = s.record';
    given = a ∙ s.given;
    bound = s.bound;
    shown = s.shown;
    installed = b ∙ s.installed;
    same = s.same;
  }

  unfoldable pub taken-IsServing :
      (w w' : Watcher Content) (tip : Bytes)
      → IsTaken json config obs w w' tip
      → IsServing config w'
  taken-IsServing w w' tip t = record {
    record' = record_for config tip;
    given = t.accepted;
    bound = t.bound;
    shown = record { source_commit = tip; content = t.content };
    installed = t.snapshot;
    same = refl;
  }
