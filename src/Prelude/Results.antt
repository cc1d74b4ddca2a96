-- ===== src/Prelude/Results.antt =====
-- `Result<A, E>` and its `?` operator as a monad.
use mathlib.Core.Path.{◌≡◌, refl, ap}
use mathlib.Core.Bool.{Bool, true, false}
use mathlib.Core.Option.{Option, none, some}

pub data Result {ℓ κ} (E : Type ℓ) (A : Type κ) : Type (ℓ ⊔ κ) where
  ok : A → Result E A
  err : E → Result E A

infixl 5 ◌>>=◌ ◌>>◌
abbrev pub ◌>>=◌ {ℓ κ μ} :
    {E : Type ℓ} {T : Type κ} {U : Type μ} → Result E T → (T → Result E U) → Result E U
err failure >>= next = err failure
ok value >>= next = next value

abbrev pub ◌>>◌ {ℓ κ} : {E : Type ℓ} {U : Type κ} → Result E (Unit {0}) → Result E U → Result E U
first >> second = first >>= λ _. second

-- `ensure!(test, error)`.
abbrev pub ensure {ℓ} : {E : Type ℓ} → Bool → E → Result E (Unit {0})
ensure false failure = err failure
ensure true failure = ok tt

-- `option.context(error)?` and `option.ok_or(error)`.
abbrev pub ok_or {ℓ κ} : {E : Type ℓ} {A : Type κ} → Option A → E → Result E A
ok_or (some a) e = ok a
ok_or none e = err e

-- `result.map_err(f)`.
abbrev pub map_err {ℓ κ μ} :
    {E : Type ℓ} {F : Type κ} {A : Type μ} → (E → F) → Result E A → Result F A
map_err f (ok a) = ok a
map_err f (err e) = err (f e)

abbrev pub is_ok {ℓ κ} : {E : Type ℓ} {A : Type κ} → Result E A → Bool
is_ok (ok a) = true
is_ok (err e) = false

-- A chain that succeeds has a first step that succeeds.
pub >>=-eq-ok {ℓ κ μ} :
    {E : Type ℓ} {T : Type κ} {U : Type μ} (r : Result E T) (next : T → Result E U) {u : U}
    → (r >>= next) ≡ ok u
    → (t : T) × (r ≡ ok t) × (next t ≡ ok u)
>>=-eq-ok (err failure) next done = cc
>>=-eq-ok (ok value) next done = (value, refl, done)

pub is_ok-unit {ℓ} : {E : Type ℓ} (m : Result E (Unit {0})) → (is_ok m ≡ true) → m ≡ ok tt
is_ok-unit (ok u) h = refl
is_ok-unit (err e) h = cc

pub is_ok-value {ℓ κ} :
    {E : Type ℓ} {A : Type κ} (m : Result E A) → is_ok m ≡ true → (a : A) × (m ≡ ok a)
is_ok-value (ok a) h = (a, refl)
is_ok-value (err e) h = absurd (cc)

abbrev value_or {ℓ κ} : {E : Type ℓ} {T : Type κ} → T → Result E T → T
value_or default (ok value) = value
value_or default (err failure) = default

pub ok_inj {ℓ κ} :
    {E : Type ℓ} {T : Type κ} {a b : T} → (◌≡◌ {A = Result E T} (ok a) (ok b)) → a ≡ b
ok_inj {E} {T} {a} {b} h = ap (λ (r : Result E T). value_or a r) h
