-- ===== src/Examples/Polls.antt =====
-- The theorems on the watcher, applied: a serving watcher that observes a new tip.
use pkgre.Prelude.{
  ℕ, ◌≡◌, ◌≢◌, ◌⊎◌, refl, sym, ◌∙◌, ap, [], ◌∷◌, ◌++◌, Bytes, codes, length, true, false, none,
  some, ok, err, beq_iff,
}
use pkgre.AcceptedRef.{
  AcceptedRef, valid_hex, is_lower_hex, validate_record, validate, valid_full_ref,
  is_ascii_whitespace, is_ascii_control, canonical_accepted_ref_bytes, new,
}
use pkgre.AcceptedRef.Startup.{TransitionDecision, TransitionReason, evaluate_startup}
use pkgre.AcceptedRef.Reload.{evaluate_reload}
use pkgre.Watcher.{
  Watcher, Publishing, remote_tip, valid_commit_name, object_state, ancestry, contains, success,
  insert, next_counter, build_record, persist_record,
}
use pkgre.Watcher.Poll.{
  Observation, is_descendant, apply, poll_once, semantic_validation, count_trees,
}
use pkgre.Watcher.Applied.{record_for}
use pkgre.Watcher.Serving.{IsServing, Stays, Moves}
use pkgre.Watcher.LastGood.{poll-Stays-Moves}
use pkgre.Watcher.Runs.{Run, here, next, ServesFrom, IsHonest, Run-forward, Shuns, Run-Shuns}
use pkgre.Watcher.Rejection.{poll_suppressed, PassesTo, poll_unsynced}
use pkgre.Watcher.Startup.{
  RecordRead, Boot, bootstrap_object, accepted_object, initial_snapshot, startup,
  load_startup_record,
}
use pkgre.Watcher.Started.{startup-IsServing}
use pkgre.Examples.Fixture.{
  forty, other_forty, config, first_record, first_record-IsBound, plain_json,
}

commits_differ : other_forty ≢ forty
commits_differ e = cc ((beq_iff other_forty forty).1 e)

abbrev serving : Watcher ℕ
serving = record {
  accepted = some first_record;
  suppressed = [];
  temp_counter = 1;
  snapshot = some (record { source_commit = forty; content = 7 });
  record_file = none;
}

serving-IsServing : IsServing config serving
serving-IsServing = record {
  record' = first_record;
  given = refl;
  bound = first_record-IsBound;
  shown = record { source_commit = forty; content = 7 };
  installed = refl;
  same = refl;
}

abbrev durable : Publishing
durable = record {
  create = true;
  write = true;
  sync_file = true;
  rename = true;
  sync_directory = true;
}

abbrev ahead : Observation ℕ
ahead = record {
  ls_remote = some (some (some other_forty));
  fetch = true;
  watch_ref = some other_forty;
  object_exists = some true;
  object_kind = some (codes "commit");
  forward = some (some 0);
  backward = some (some 1);
  accepted_tree = true;
  candidate_tree = true;
  transition = some true;
  built = some 8;
  publishing = durable;
}

poll-Stays-Moves_example :
    Stays plain_json config ahead serving (poll_once plain_json config ahead serving)
    ⊎ Moves plain_json config ahead serving (poll_once plain_json config ahead serving)
poll-Stays-Moves_example = poll-Stays-Moves plain_json config ahead serving serving-IsServing

abbrev moved : Watcher ℕ
moved = record {
  accepted = some (record_for config other_forty);
  suppressed = [];
  temp_counter = 4;
  snapshot = some (record { source_commit = other_forty; content = 8 });
  record_file =
      elim (canonical_accepted_ref_bytes plain_json (record_for config other_forty) config) [
        | ok bytes ↦ some bytes
        | err e ↦ none
      ];
}

-- The poll takes the new tip over.
ahead_moves :
    poll_once plain_json config ahead serving
    ≡ some (
      record {
        decision = TransitionDecision.accept_forward;
        reason = TransitionReason.valid_forward_candidate;
      },
      moved,
    )
unfolding poll_once remote_tip valid_commit_name valid_hex is_lower_hex contains object_state
    is_descendant ancestry semantic_validation build_record new validate valid_full_ref
    is_ascii_whitespace is_ascii_control persist_record canonical_accepted_ref_bytes validate_record
    apply count_trees next_counter evaluate_reload
ahead_moves = refl

-- Any two commit names of one length are related: a transitive order that the answers are true to.
abbrev AsLong : Bytes → Bytes → Type 0
AsLong a b = length a ≡ length b

AsLong-trans : (a b c : Bytes) → AsLong a b → AsLong b c → AsLong a c
AsLong-trans a b c p q = p ∙ q

ahead-IsHonest : IsHonest plain_json config AsLong serving ahead
unfolding remote_tip valid_commit_name valid_hex is_lower_hex
ahead-IsHonest r tip given seen forward =
    let same : first_record ≡ r = cc in
    let observed : other_forty ≡ tip = cc in
    ap (λ (x : AcceptedRef). length x.accepted_commit) (sym same) ∙ ap length observed

one_poll : Run plain_json config AsLong serving moved
one_poll = next here ahead _ ahead-IsHonest ahead_moves

Run-forward_example : ServesFrom plain_json config AsLong forty moved
unfolding serving-IsServing
Run-forward_example =
    Run-forward plain_json config AsLong AsLong-trans forty serving moved (serving-IsServing, refl)
      one_poll

-- The same watcher behind a rejection of the new tip.
abbrev wary : Watcher ℕ
wary = record serving { suppressed = other_forty ∷ [] }

wary-IsServing : IsServing config wary
wary-IsServing = record {
  record' = first_record;
  given = refl;
  bound = first_record-IsBound;
  shown = record { source_commit = forty; content = 7 };
  installed = refl;
  same = refl;
}

wary-Shuns : Shuns plain_json config AsLong other_forty wary
unfolding contains
wary-Shuns = record {
  serving = wary-IsServing;
  suppressed = refl;
  other = λ r given same.
      let first : first_record ≡ r = cc in
      let equal : forty ≡ other_forty = ap (λ (x : AcceptedRef). x.accepted_commit) first ∙ same in
      commits_differ (sym equal);
}

suppressed_run :
    poll_once plain_json config ahead wary
    ≡ some (
      record {
        decision = TransitionDecision.retain_accepted;
        reason = TransitionReason.rejected_hash_suppressed;
      },
      wary,
    )
unfolding remote_tip valid_commit_name valid_hex is_lower_hex contains wary-IsServing
suppressed_run =
    poll_suppressed plain_json config ahead wary wary-IsServing other_forty refl commits_differ refl

wary-IsHonest : IsHonest plain_json config AsLong wary ahead
wary-IsHonest = ahead-IsHonest

Run-Shuns_example : Shuns plain_json config AsLong other_forty wary
Run-Shuns_example =
    Run-Shuns plain_json config AsLong other_forty wary wary wary-Shuns
      (next here ahead _ wary-IsHonest suppressed_run)

abbrev unsynced : Observation ℕ
unsynced = record ahead { publishing = record durable { sync_directory = false } }

abbrev other_bytes : Bytes
other_bytes = elim (plain_json.to_vec_pretty (record_for config other_forty)) [
  | none ↦ []
  | some b ↦ b ++ b'\n' ∷ []
]

passes : PassesTo plain_json config unsynced serving other_forty other_bytes
unfolding remote_tip valid_commit_name valid_hex is_lower_hex contains object_state ancestry success
    semantic_validation canonical_accepted_ref_bytes validate_record validate valid_full_ref
    is_ascii_whitespace is_ascii_control
passes = record {
  observed = refl;
  fresh = refl;
  fetched = refl;
  resolved = refl;
  object = refl;
  descends = refl;
  content = 8;
  validated = refl;
  printed = refl;
  renamed = refl;
}

poll_unsynced_example :
    poll_once plain_json config unsynced serving
    ≡ some (
      record {
        decision = TransitionDecision.retain_accepted;
        reason = TransitionReason.durable_persistence_failed;
      },
      record serving {
        suppressed = insert other_forty [];
        temp_counter = next_counter (count_trees unsynced 1);
        record_file = some other_bytes;
      },
    )
unfolding serving-IsServing
poll_unsynced_example =
    poll_unsynced plain_json config unsynced serving serving-IsServing other_forty other_bytes
      passes commits_differ refl

abbrev empty : Watcher ℕ
empty = record {
  accepted = none;
  suppressed = [];
  temp_counter = 0;
  snapshot = none;
  record_file = none;
}

abbrev first_boot : Boot ℕ
first_boot = record {
  state_ready = true;
  repository_ready = true;
  read = RecordRead.not_found;
  bootstrap_exists = some true;
  bootstrap_kind = some (codes "commit");
  fetched_exists = none;
  fetched_kind = none;
  accepted_exists = none;
  accepted_kind = none;
  tree = true;
  built = some 7;
  publishing = durable;
}

first_boot_runs :
    startup plain_json config forty first_boot empty
    ≡ (true, (startup plain_json config forty first_boot empty).1)
unfolding startup load_startup_record object_state evaluate_startup valid_hex is_lower_hex
    build_record new validate valid_full_ref is_ascii_whitespace is_ascii_control persist_record
    canonical_accepted_ref_bytes validate_record bootstrap_object accepted_object initial_snapshot
first_boot_runs = refl

startup-IsServing_example : IsServing config (startup plain_json config forty first_boot empty).1
startup-IsServing_example =
    startup-IsServing plain_json config first_boot forty empty
      (startup plain_json config forty first_boot empty).1 first_boot_runs
