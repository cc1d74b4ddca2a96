-- ===== src/Plan/Codec.antt =====
-- Canonical TOML files: `serialize_update_plan` and `load_update_plan` of rust/src/update/plan.rs. The
-- TOML printer and reader are parameters.
use pkgre.Prelude.{
  ◌≡◌, refl, ap, sym, ◌∙◌, Bytes, beq, beq_refl, beq→eq, Bool, Option, some, Result, ok, err, ◌>>=◌,
  ◌>>◌, ensure, ok_or, >>=-eq-ok, ok_inj,
}
use pkgre.Release.{Version}
use pkgre.Transition.Evidence.{ensure_passes}
use pkgre.Plan.{UpdatePlan, PlanError, serialization_failure}
use pkgre.Plan.Check.{validate_update_plan}

-- The TOML printer and reader of a type.
pub record Toml (A : Type 0) : Type 0 where
  pub to_string_pretty : A → Option Bytes
  pub from_slice : Bytes → Option A

-- A path as the loader finds it.
pub data File : Type 0 where
  special unread : File
  regular : (bytes : Bytes) → File

pub record LoadErrors (E : Type 0) : Type 0 where
  pub not_regular : E
  pub unreadable : E
  pub malformed : E
  pub not_canonical : E

abbrev pub read_regular : {E : Type 0} → LoadErrors E → File → Result E Bytes
read_regular errors special = err errors.not_regular
read_regular errors unread = err errors.unreadable
read_regular errors (regular bytes) = ok bytes

-- The body that the loaders share: the bytes of a regular file that are the canonical ones of what they
-- parse to.
abbrev pub load_canonical :
    {A E : Type 0}
    → LoadErrors E
    → (Bytes → Option A)
    → (A → Result E Bytes)
    → File
    → Result E (A × Bytes)
load_canonical errors parse serialize file = do
  bytes ← read_regular errors file
  value ← ok_or (parse bytes) errors.malformed
  canonical ← serialize value
  ensure (beq bytes canonical) errors.not_canonical
  ok (value, bytes)

abbrev plan_errors : LoadErrors PlanError
plan_errors = record {
  not_regular = PlanError.not_regular;
  unreadable = PlanError.unreadable;
  malformed = PlanError.malformed;
  not_canonical = PlanError.not_canonical;
}

module _ (leb_version : Version → Version → Bool) (parse_version : Bytes → Option Version)
    (to_string : Version → Bytes) (pkg_version : Bytes) (toml : Toml UpdatePlan) where
  unfoldable pub serialize_update_plan : UpdatePlan → Result PlanError Bytes
  unfolding validate_update_plan
  serialize_update_plan plan = do
    validate_update_plan leb_version parse_version to_string pkg_version plan
    ok_or (toml.to_string_pretty plan) serialization_failure

  unfoldable pub load_update_plan : File → Result PlanError UpdatePlan
  unfolding serialize_update_plan
  load_update_plan file = do
    loaded ← load_canonical plan_errors toml.from_slice serialize_update_plan file
    ok loaded.0

-- What a loaded file holds.
pub load_canonical-eq-ok :
    {A E : Type 0} (errors : LoadErrors E) (parse : Bytes → Option A)
    (serialize : A → Result E Bytes) (file : File) (value : A) (bytes : Bytes)
    → load_canonical errors parse serialize file ≡ ok (value, bytes)
    → (file ≡ regular bytes) × (serialize value ≡ ok bytes)
load_canonical-eq-ok errors parse serialize special value bytes h = absurd (cc)
load_canonical-eq-ok errors parse serialize unread value bytes h = absurd (cc)
load_canonical-eq-ok {A} errors parse serialize (regular found) value bytes h =
    let (a, parsed, s0) = >>=-eq-ok (ok_or (parse found) errors.malformed) _ h in
    let (canonical, printed, s1) = >>=-eq-ok (serialize a) _ s0 in
    let (u, checked, s2) = >>=-eq-ok (ensure (beq found canonical) errors.not_canonical) _ s1 in
    let pair = ok_inj s2 in
    let same_value : a ≡ value = ap (λ (p : A × Bytes). p.0) pair in
    let same_bytes : found ≡ bytes = ap (λ (p : A × Bytes). p.1) pair in
    let whole : found ≡ canonical = beq→eq found canonical ((ensure_passes _ _).0 checked) in
    (
      ap regular same_bytes,
      ap serialize (sym same_value) ∙ printed ∙ ap ok (sym whole ∙ same_bytes),
    )

pub load_canonical_complete :
    {A E : Type 0} (errors : LoadErrors E) (parse : Bytes → Option A)
    (serialize : A → Result E Bytes) (value : A) (bytes : Bytes)
    → parse bytes ≡ some value
    → serialize value ≡ ok bytes
    → load_canonical errors parse serialize (regular bytes) ≡ ok (value, bytes)
load_canonical_complete errors parse serialize value bytes parsed printed =
    rw (parsed, printed, beq_refl bytes) refl
