-- ===== src/Plan/Calm.antt =====
-- The `expect` calls of the plan's validation never fail: rust/src/update/plan.rs.
use pkgre.Prelude.{
  ◌≡◌, inl, inr, refl, sym, ap, ◌∙◌, arith, ℕ, [], ◌∷◌, List, Bytes, Bool, true, false, Option,
  none, some, Result, ok, err, ◌>>=◌, ◌>>◌, ensure, ok_or, map_err,
}
use pkgre.Transition.{each}
use pkgre.Plan.Candidate.{if_some}
use pkgre.Plan.{PlanError, panicked}

abbrev pub is_panicked : PlanError → Bool
is_panicked panicked = true
is_panicked _ = false

abbrev pub panics {ℓ} : {A : Type ℓ} → Result PlanError A → Bool
panics (ok a) = false
panics (err e) = is_panicked e

pub panics-ensure :
    (test : Bool) (e : PlanError) → is_panicked e ≡ false → panics (ensure test e) ≡ false
panics-ensure true e h = refl
panics-ensure false e h = h

pub panics-ok_or {ℓ} :
    {A : Type ℓ} (x : Option A) (e : PlanError) → is_panicked e ≡ false → panics (ok_or x e) ≡ false
panics-ok_or none e h = h
panics-ok_or (some a) e h = refl

pub panics-map_err {ℓ κ} :
    {E : Type ℓ} {A : Type κ} (f : E → PlanError) (r : Result E A)
    → ((e : E) → is_panicked (f e) ≡ false)
    → panics (map_err f r) ≡ false
panics-map_err f (ok a) h = refl
panics-map_err f (err e) h = h e

pub panics->>= {ℓ κ} :
    {A : Type ℓ} {B : Type κ} (r : Result PlanError A) (next : A → Result PlanError B)
    → panics r ≡ false
    → ((a : A) → r ≡ ok a → panics (next a) ≡ false)
    → panics (r >>= next) ≡ false
panics->>= (ok a) next h k = k a refl
panics->>= (err e) next h k = h

pub panics-then {ℓ} :
    {B : Type ℓ} (r : Result PlanError (Unit {0})) (s : Result PlanError B)
    → panics r ≡ false
    → panics s ≡ false
    → panics (r >> s) ≡ false
panics-then (ok tt) s h k = k
panics-then (err e) s h k = h

pub panics-each {ℓ} :
    {A : Type ℓ} (check : A → Result PlanError (Unit {0})) (xs : List A)
    → ((x : A) → panics (check x) ≡ false)
    → panics (each check xs) ≡ false
panics-each check [] h = refl
panics-each check (x ∷ xs) h = panics-then (check x) (each check xs) (h x) (panics-each check xs h)

pub panics-if_some {ℓ} :
    {A : Type ℓ} (check : A → Result PlanError (Unit {0})) (x : Option A)
    → ((a : A) → x ≡ some a → panics (check a) ≡ false)
    → panics (if_some check x) ≡ false
panics-if_some check none h = refl
panics-if_some check (some a) h = h a refl

pub ruleset calm = (
  panics-ensure, panics-ok_or, panics-map_err, panics->>=, panics-then, panics-each, panics-if_some,
  refl,
)
