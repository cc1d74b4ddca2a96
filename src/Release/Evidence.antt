-- ===== src/Release/Evidence.antt =====
-- What the checks at the beginning of both selections say: rust/src/update/policy.rs.
use pkgre.Prelude.{
  ap, ℕ, ◌+◌, ◌≤◌, ◌≡◌, refl, inl, inr, arith, [], ◌∷◌, List, any, Elem, head, tail, true, false,
  not, Option, none, some, leb, Result, ok, err, ok_or, ok_inj, Bool-cases, Option-cases,
}
use mathlib.Core.Path.{subst}
use mathlib.Core.Option.{some_inj}
use pkgre.Schema.{UtcTimestamp}
use pkgre.Time.Stamp.{duration_since}
use pkgre.Transition.Evidence.{and_then, ensure_passes}
use pkgre.Release.{Version, PolicyRelease, LockedRelease, PolicyError, duplicate_upstream, same_key}
use pkgre.Release.Order.{same_key_refl}
use pkgre.Release.Lists.{any-Elem}
use pkgre.Release.Gap.{elapsed}
use pkgre.Release.Selection.{insert_versions, upstream_get, check_inputs, is_old, age_floor}

pub ok_or-eq-ok :
    {A E : Type 0} (x : Option A) (e : E) (a : A)
    → (◌≡◌ {A = Result E A} (ok_or x e) (ok a))
    → x ≡ some a
ok_or-eq-ok none e a h = absurd (cc)
ok_or-eq-ok (some y) e a h = ap some (ok_inj h)

pub upstream_get-Elem :
    (v : Version) (history : List PolicyRelease) (x : PolicyRelease)
    → upstream_get v history ≡ some x
    → Elem x history × (same_key x.version v ≡ true)
unfolding upstream_get
upstream_get-Elem v [] x h = absurd (cc)
upstream_get-Elem v (r ∷ history) x h = elim (Option-cases (upstream_get v history)) [
  | inr (y, found) ↦
      let same : y ≡ x = some_inj.0 (ground arith) in
      let (e, key) = upstream_get-Elem v history y found in
      (
        tail (subst (λ a. Elem a history) same e),
        subst (λ (a : PolicyRelease). same_key a.version v ≡ true) same key,
      )
  | inl none' ↦ elim (Bool-cases (same_key r.version v)) [
    | inl key ↦
        let same : r ≡ x = some_inj.0 (ground arith) in
        (
          subst (λ a. Elem a (r ∷ history)) same head,
          subst (λ (a : PolicyRelease). same_key a.version v ≡ true) same key,
        )
    | inr other ↦ absurd (ground arith)
  ]
]

insert_versions-cons :
    (seen : List Version) (r : PolicyRelease) (history : List PolicyRelease)
    → insert_versions (λ (r : PolicyRelease). r.version) duplicate_upstream seen (r ∷ history)
      ≡ ok tt
    → (not (any (same_key r.version) seen) ≡ true)
      × (insert_versions
            (λ (r : PolicyRelease). r.version)
            duplicate_upstream
            (r.version ∷ seen)
            history
          ≡ ok tt)
unfolding insert_versions
insert_versions-cons seen r history h =
    let (first, rest) = (and_then _ _).0 h in
    ((ensure_passes (not (any (same_key r.version) seen)) duplicate_upstream).0 first, rest)

insert_versions-fresh :
    (seen : List Version) (history : List PolicyRelease) (v : Version) (x : PolicyRelease)
    → insert_versions (λ (r : PolicyRelease). r.version) duplicate_upstream seen history ≡ ok tt
    → Elem v seen
    → Elem x history
    → same_key x.version v ≡ false
insert_versions-fresh seen [] v x h e k = elim k [ ]
insert_versions-fresh seen (r ∷ history) v x h e head =
    let first = (insert_versions-cons seen r history h).0 in
    elim (Bool-cases (same_key r.version v)) [
      | inl key ↦ absurd (ground (arith, any-Elem (same_key r.version) seen v e key))
      | inr fresh ↦ fresh
    ]
insert_versions-fresh seen (r ∷ history) v x h e (tail k) =
    insert_versions-fresh (r.version ∷ seen) history v x (insert_versions-cons seen r history h).1
      (tail e) k

-- A release of a validated history is the one that the map holds for its version.
upstream_get-validated :
    (seen : List Version) (history : List PolicyRelease) (c : PolicyRelease)
    → insert_versions (λ (r : PolicyRelease). r.version) duplicate_upstream seen history ≡ ok tt
    → Elem c history
    → upstream_get c.version history ≡ some c
unfolding upstream_get
upstream_get-validated seen [] c h e = elim e [ ]
upstream_get-validated seen (r ∷ history) c h head =
    elim (Option-cases (upstream_get r.version history)) [
      | inr (y, found) ↦
          let (e, key) = upstream_get-Elem r.version history y found in
          let fresh =
            insert_versions-fresh (r.version ∷ seen) history r.version y
              (insert_versions-cons seen r history h).1 head e in
          absurd (ground (arith, key, fresh))
      | inl none' ↦ rw (none', same_key_refl r.version) refl
    ]
upstream_get-validated seen (r ∷ history) c h (tail e) =
    rw
      (upstream_get-validated (r.version ∷ seen) history c (insert_versions-cons seen r history h).1
        e)
      refl

pub check_inputs-get :
    (evaluation_time : UtcTimestamp) (history : List PolicyRelease) (locked : List LockedRelease)
    (c : PolicyRelease)
    → check_inputs evaluation_time history locked ≡ ok tt
    → Elem c history
    → upstream_get c.version history ≡ some c
unfolding check_inputs
check_inputs-get evaluation_time history locked c h e =
    upstream_get-validated [] history c ((and_then _ _).0 h).0 e

pub elapsed-eq-ok :
    (later earlier : UtcTimestamp) (age : ℕ)
    → elapsed later earlier ≡ ok age
    → earlier.seconds + age ≡ later.seconds
unfolding duration_since
elapsed-eq-ok later earlier age h = ground arith

pub is_old→elapsed :
    (evaluation_time : UtcTimestamp) (r : PolicyRelease)
    → is_old evaluation_time r ≡ true
    → (age : ℕ) × (elapsed evaluation_time r.published_at ≡ ok age) × (age_floor ≤ age)
is_old→elapsed t r h = go (elapsed t r.published_at) refl h
  where
    go :
        (e : Result PolicyError ℕ)
        → elapsed t r.published_at ≡ e
        → elim e [ ok age ↦ leb age_floor age | err e ↦ false ] ≡ true
        → (age : ℕ) × (elapsed t r.published_at ≡ ok age) × (age_floor ≤ age)
    go (ok age) same old = (age, same, ground arith)
    go (err e) same old = absurd (cc)
