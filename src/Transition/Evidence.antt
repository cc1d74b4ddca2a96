-- ===== src/Transition/Evidence.antt =====
-- What one registry and one identity must keep in a transition: rust/src/transition.rs.
use pkgre.Prelude.{
  ◌≡◌, ◌↔◌, ◌⊎◌, inl, inr, refl, sym, ap, ◌∙◌, [], ◌∷◌, List, All, beq, beq→eq, beq_iff, Bool, true,
  false, ==_iff, Result, ok, err, ◌>>◌, ensure, arith, Bool-cases,
}
use pkgre.Category.{CategoryId}
use pkgre.Schema.{
  Source, Registry, Approval, PackageState, Audience, UtcTimestamp, same_audience, same_state,
  same_time, same_category, same_source, is_allowed_download_migration,
}
use pkgre.Transition.{each, topology_changed, mutated}

pub and_then :
    {E : Type 0} (a b : Result E (Unit {0})) → (a >> b ≡ ok tt) ↔ ((a ≡ ok tt) × (b ≡ ok tt))
and_then (ok tt) b = (λ h. (refl, h), λ h. h.1)
and_then (err e) b = (λ h. absurd (cc), λ h. absurd (cc (h.0)))

pub ensure_passes : {E : Type 0} (test : Bool) (e : E) → (ensure test e ≡ ok tt) ↔ (test ≡ true)
ensure_passes true e = (λ h. refl, λ h. refl)
ensure_passes false e = (λ h. absurd (cc), λ h. absurd (cc))

pub each_iff :
    {A E : Type 0} (check : A → Result E (Unit {0})) (P : A → Type 0)
    → ((x : A) → (check x ≡ ok tt) ↔ P x)
    → (xs : List A) → (each check xs ≡ ok tt) ↔ All P xs
each_iff check P one [] = (λ h. tt, λ h. refl)
each_iff check P one (x ∷ xs) = (
  λ h.
      let both = (and_then (check x) (each check xs)).0 h in
      ((one x).0 both.0, (each_iff check P one xs).0 both.1),
  λ h. (and_then (check x) (each check xs)).1 ((one x).1 h.0, (each_iff check P one xs).1 h.1),
)

pub same_state_iff : (a b : PackageState) → (same_state a b ≡ true) ↔ (a ≡ b)
same_state_iff PackageState.active PackageState.active = (λ h. refl, λ h. refl)
same_state_iff PackageState.removed PackageState.removed = (λ h. refl, λ h. refl)
same_state_iff PackageState.active PackageState.removed = (λ h. absurd (cc), λ h. absurd (cc))
same_state_iff PackageState.removed PackageState.active = (λ h. absurd (cc), λ h. absurd (cc))

same_audience_iff : (a b : Audience) → (same_audience a b ≡ true) ↔ (a ≡ b)
same_audience_iff Audience.public Audience.public = (λ h. refl, λ h. refl)
same_audience_iff Audience.lan_public Audience.lan_public = (λ h. refl, λ h. refl)
same_audience_iff Audience.public Audience.lan_public = (λ h. absurd (cc), λ h. absurd (cc))
same_audience_iff Audience.lan_public Audience.public = (λ h. absurd (cc), λ h. absurd (cc))

same_time→eq : (a b : UtcTimestamp) → same_time a b ≡ true → a ≡ b
same_time→eq a b h =
    let seconds : a.seconds ≡ b.seconds = ground (arith, ==_iff a.seconds b.seconds) in
    let text : a.text ≡ b.text = beq→eq a.text b.text (ground arith) in
    λ i. record { seconds = seconds i; text = text i }

same_time_refl : (a : UtcTimestamp) → same_time a a ≡ true
same_time_refl a = rw ((==_iff a.seconds a.seconds).1 refl, (beq_iff a.text a.text).1 refl) refl

pub same_category→eq : (a b : CategoryId) → same_category a b ≡ true → a ≡ b
same_category→eq a b h =
    let registry : a.registry ≡ b.registry = beq→eq a.registry b.registry (ground arith) in
    let local : a.local ≡ b.local = beq→eq a.local b.local (ground arith) in
    λ i. record { registry = registry i; local = local i }

pub same_category_refl : (a : CategoryId) → same_category a a ≡ true
same_category_refl a =
    rw ((beq_iff a.registry a.registry).1 refl, (beq_iff a.local a.local).1 refl) refl

same_state_refl : (a : PackageState) → same_state a a ≡ true
same_state_refl a = (same_state_iff a a).1 refl

module _ {Version : Type 0} (same_version : Version → Version → Bool)
    (exact : (v w : Version) → (same_version v w ≡ true) ↔ (v ≡ w)) where
  same_source→eq : (a b : Source Version) → same_source same_version a b ≡ true → a ≡ b
  unfolding same_source
  same_source→eq Source.crates_io Source.crates_io h = refl
  same_source→eq Source.crates_io (Source.git_tag _ _ _ _ _ _ _) h = absurd (cc)
  same_source→eq (Source.git_tag _ _ _ _ _ _ _) Source.crates_io h = absurd (cc)
  same_source→eq (Source.git_tag r t o c n s v) (Source.git_tag r' t' o' c' n' s' v') h =
      let er : r ≡ r' = beq→eq r r' (ground arith) in
      let et : t ≡ t' = beq→eq t t' (ground arith) in
      let eo : o ≡ o' = beq→eq o o' (ground arith) in
      let ec : c ≡ c' = beq→eq c c' (ground arith) in
      let en : n ≡ n' = beq→eq n n' (ground arith) in
      let es : s ≡ s' = beq→eq s s' (ground arith) in
      let ev : v ≡ v' = (exact v v').0 (ground arith) in
      λ i. Source.git_tag (er i) (et i) (eo i) (ec i) (en i) (es i) (ev i)

  same_source_refl : (a : Source Version) → same_source same_version a a ≡ true
  unfolding same_source
  same_source_refl Source.crates_io = refl
  same_source_refl (Source.git_tag r t o c n s v) = rw (
    (beq_iff r r).1 refl,
    (beq_iff t t).1 refl,
    (beq_iff o o).1 refl,
    (beq_iff c c).1 refl,
    (beq_iff n n).1 refl,
    (beq_iff s s).1 refl,
    (exact v v).1 refl,
  )

  -- A registry is served as before, but for an allowed move of its download template.
  pub record IsSameTopology (a b : Registry Version) : Type 0 where
    pub name : a.name ≡ b.name
    pub index : a.index ≡ b.index
    pub download :
        (a.download ≡ b.download)
        ⊎ (is_allowed_download_migration a.name a.download b.download ≡ true)
    pub audience : a.audience ≡ b.audience
    pub cargo_version : a.cargo_version ≡ b.cargo_version

  pub topology_sound :
      (a b : Registry Version) → topology_changed same_version a b ≡ false → IsSameTopology a b
  unfolding topology_changed
  topology_sound a b h = record {
    name = beq→eq a.name b.name (ground arith);
    index = beq→eq a.index b.index (ground arith);
    download = elim (Bool-cases (beq a.download b.download)) [
      | inl same ↦ inl (beq→eq a.download b.download same)
      | inr other ↦ inr (ground arith)
    ];
    audience = (same_audience_iff a.audience b.audience).0 (ground arith);
    cargo_version = (exact a.cargo_version b.cargo_version).0 (ground arith);
  }

  pub topology_complete :
      (a b : Registry Version) → IsSameTopology a b → topology_changed same_version a b ≡ false
  unfolding topology_changed
  topology_complete a b h = ground (
    arith,
    (beq_iff a.name b.name).1 h.name,
    (beq_iff a.index b.index).1 h.index,
    (beq_iff a.download b.download).1,
    h.download,
    (same_audience_iff a.audience b.audience).1 h.audience,
    (exact a.cargo_version b.cargo_version).1 h.cargo_version,
  )

  -- The evidence of an identity is unchanged, and so is its category.
  pub record IsSameEvidence (a b : Approval Version) : Type 0 where
    pub archive : a.archive_sha256 ≡ b.archive_sha256
    pub index_record : a.index_record_sha256 ≡ b.index_record_sha256
    pub index_row : a.index_row_sha256 ≡ b.index_row_sha256
    pub admitted_at : a.admitted_at ≡ b.admitted_at
    pub state : a.state ≡ b.state
    pub source : a.source ≡ b.source
    pub category : a.category ≡ b.category

  pub evidence_sound :
      (a b : Approval Version)
      → mutated same_version a b ≡ false
      → same_category a.category b.category ≡ true
      → IsSameEvidence a b
  unfolding mutated
  evidence_sound a b h c = record {
    archive = beq→eq a.archive_sha256 b.archive_sha256 (ground arith);
    index_record = beq→eq a.index_record_sha256 b.index_record_sha256 (ground arith);
    index_row = beq→eq a.index_row_sha256 b.index_row_sha256 (ground arith);
    admitted_at = same_time→eq a.admitted_at b.admitted_at (ground arith);
    state = (same_state_iff a.state b.state).0 (ground arith);
    source = same_source→eq a.source b.source (ground arith);
    category = same_category→eq a.category b.category c;
  }

  pub unmutated : (a b : Approval Version) → IsSameEvidence a b → mutated same_version a b ≡ false
  unfolding mutated
  unmutated a b h = rw (
    (beq_iff a.archive_sha256 b.archive_sha256).1 h.archive,
    (beq_iff a.index_record_sha256 b.index_record_sha256).1 h.index_record,
    (beq_iff a.index_row_sha256 b.index_row_sha256).1 h.index_row,
    ap (same_time a.admitted_at) (sym h.admitted_at) ∙ same_time_refl a.admitted_at,
    (same_state_iff a.state b.state).1 h.state,
    ap (same_source same_version a.source) (sym h.source) ∙ same_source_refl a.source,
  )
