-- ===== src/Policy/Checks.antt =====
-- What the checks of a catalog say one by one: `validate_catalog` of rust/src/policy.rs.
use mathlib.Core.Option.{some_inj}
use pkgre.Prelude.{
  ◌≡◌, inl, inr, refl, sym, ap, ◌∙◌, arith, [], ◌∷◌, List, Bytes, codes, beq, beq→eq, all, any,
  length, Elem, head, tail, Bool, true, false, not, ◌&&◌, ◌==◌, some, Result, ok, ◌>>=◌, ensure,
  ok_or, >>=-eq-ok, ok_inj, Bool-cases,
}
use pkgre.Category.{CategoryId}
use pkgre.Schema.{
  Registry, Approval, Catalog, PackageKey, PackageHome, schema_version, same_category,
}
use pkgre.Transition.{each}
use pkgre.Transition.Evidence.{ensure_passes, same_category→eq}
use pkgre.Release.{Version}
use pkgre.Release.Lists.{any→Elem}
use pkgre.Release.Evidence.{ok_or-eq-ok}
use pkgre.Policy.{
  bad_index, registry_cargo, duplicate_registry, unknown_category_registry, repeated_dependency,
  unknown_dependency, name_collision, wrong_registry_key, unknown_home_registry, foreign_category,
  unknown_home_category, duplicate_approval, unknown_registry, no_home, wrong_home,
  uninhabited_category, bad_cname, topology_schema, homes_schema, bad_cargo_version, no_registries,
  no_main, no_categories, validate_registry_alias, validate_package_name, validate_sha256,
}
use pkgre.Policy.Topology.{
  Policy, validate_registry_download, Homes, dependency_sets, canonical_registry_index, each_after,
  is_registry, check_registry, check_category, check_home, check_approval, validate_package_home,
  validate_homes, validate_approval, validate_catalog, has_category, home_of, same_package,
  inhabited, collides, same_identity, to_set, key_of, host_name, cargo_pin, is_empty_list,
}
use pkgre.Policy.Distinct.{each→Elem, Elem-to_set}

pub ensured :
    {E U : Type 0} {u : U} (test : Bool) (e : E) (next : Unit {0} → Result E U)
    → (ensure test e >>= next) ≡ ok u
    → (test ≡ true) × (next tt ≡ ok u)
ensured true e next h = (refl, h)
ensured false e next h = absurd (cc)

module _ (to_string : Version → Bytes) (same_version : Version → Version → Bool)
    (catalog : Catalog Version) where
  abbrev pub Declared : Bytes → Type 0
  Declared name = (r : Registry Version) × Elem r catalog.registries × (r.name ≡ name)

  abbrev pub HasCategory : CategoryId → Type 0
  HasCategory c = (e : CategoryId × List CategoryId) × Elem e catalog.categories × (e.0 ≡ c)

  declared : (name : Bytes) → is_registry to_string same_version catalog name ≡ true → Declared name
  declared name h =
      let (r, inside, same) =
        any→Elem (λ (r : Registry Version). beq r.name name) catalog.registries h in
      (r, inside, beq→eq r.name name same)

  categorised : (c : CategoryId) → has_category catalog.categories c ≡ true → HasCategory c
  categorised c h =
      let (e, inside, same) =
        any→Elem (λ (e : CategoryId × List CategoryId). same_category e.0 c) catalog.categories h in
      (e, inside, same_category→eq e.0 c same)

  pub registry_facts :
      (seen : List (Registry Version)) (r : Registry Version)
      → check_registry to_string same_version catalog seen r ≡ ok tt
      → (r.index ≡ canonical_registry_index r.name)
        × (any (λ (x : Registry Version). beq x.name r.name) seen ≡ false)
  unfolding check_registry
  registry_facts seen r h =
      let (u, named, h1) = >>=-eq-ok (validate_registry_alias r.name) _ h in
      let (index, h2) = ensured (beq r.index (canonical_registry_index r.name)) bad_index _ h1 in
      let (v, download, h3) =
        >>=-eq-ok (validate_registry_download to_string same_version catalog r) _ h2 in
      let (cargo, h4) =
        ensured (same_version r.cargo_version catalog.cargo_version) registry_cargo _ h3 in
      let fresh =
        (ensure_passes (not (any (λ (x : Registry Version). beq x.name r.name) seen))
            duplicate_registry).0
          h4 in
      (beq→eq r.index (canonical_registry_index r.name) index, ground (arith, fresh))

  pub category_facts :
      (e : CategoryId × List CategoryId)
      → check_category to_string same_version catalog e ≡ ok tt
      → Declared e.0.registry × ((d : CategoryId) → Elem d e.1 → HasCategory d)
  unfolding check_category
  category_facts e h =
      let (known, h1) =
        ensured (is_registry to_string same_version catalog e.0.registry) unknown_category_registry
          _ h in
      let (once, deps) = ensured (length (to_set e.1) == length e.1) repeated_dependency _ h1 in
      (
        declared e.0.registry known,
        λ d k. categorised d (
            (ensure_passes (has_category catalog.categories d) unknown_dependency).0 (
              each→Elem
                (λ dependency.
                  ensure (has_category catalog.categories dependency) unknown_dependency)
                (to_set e.1) deps d (Elem-to_set e.1 d k))),
      )

  pub home_facts :
      (seen : Homes) (e : PackageKey × PackageHome)
      → check_home to_string same_version catalog seen e ≡ ok tt
      → ((e.0.registry ≡ e.1.registry)
          × (e.1.category.registry ≡ e.1.registry)
          × Declared e.1.registry
          × HasCategory e.1.category)
        × (collides seen e.0 ≡ false)
  unfolding check_home validate_package_home
  home_facts seen e h =
      let (u, named, h1) = >>=-eq-ok (validate_package_name e.0.name) _ h in
      let (v, home, h2) =
        >>=-eq-ok (validate_package_home to_string same_version catalog e.0 e.1) _ h1 in
      let fresh = (ensure_passes (not (collides seen e.0)) name_collision).0 h2 in
      let (keyed, h3) = ensured (beq e.0.registry e.1.registry) wrong_registry_key _ home in
      let (known, h4) =
        ensured (is_registry to_string same_version catalog e.1.registry) unknown_home_registry _
          h3 in
      let (own, h5) = ensured (beq e.1.category.registry e.1.registry) foreign_category _ h4 in
      let category =
        (ensure_passes (has_category catalog.categories e.1.category) unknown_home_category).0 h5 in
      (
        (
          beq→eq e.0.registry e.1.registry keyed,
          beq→eq e.1.category.registry e.1.registry own,
          declared e.1.registry known,
          categorised e.1.category category,
        ),
        ground (arith, fresh),
      )

  home_of-Elem :
      (key : PackageKey) (homes : Homes) (home : PackageHome)
      → home_of key homes ≡ some home
      → (h : PackageKey × PackageHome) × Elem h homes
        × (h.0.registry ≡ key.registry)
        × (h.0.name ≡ key.name)
        × (h.1 ≡ home)
  home_of-Elem key [] home found = absurd (cc)
  home_of-Elem key (e ∷ homes) home found = elim (Bool-cases (same_package e.0 key)) [
    | inl same ↦ (
      e,
      head,
      beq→eq e.0.registry key.registry (ground arith),
      beq→eq e.0.name key.name (ground arith),
      some_inj.0 (sym (rw same refl) ∙ found),
    )
    | inr other ↦
        let (h, inside, registry, name, same) = home_of-Elem key homes home (ground arith) in
        (h, tail inside, registry, name, same)
  ]

  abbrev pub Approved : Approval Version → Type 0
  Approved a =
      (h : PackageKey × PackageHome) × Elem h catalog.homes
      × (h.0.registry ≡ a.registry)
      × (h.0.name ≡ a.name)
      × (h.1.category ≡ a.category)

  pub approval_facts :
      (seen : List (Approval Version)) (a : Approval Version)
      → check_approval to_string same_version catalog seen a ≡ ok tt
      → Approved a × (any (same_identity to_string same_version catalog a) seen ≡ false)
  unfolding check_approval validate_approval
  approval_facts seen a h =
      let (u, valid, h1) = >>=-eq-ok (validate_approval to_string same_version catalog a) _ h in
      let fresh =
        (ensure_passes (not (any (same_identity to_string same_version catalog a) seen))
            duplicate_approval).0
          h1 in
      let (v, named, h2) = >>=-eq-ok (validate_package_name a.name) _ valid in
      let (known, h3) =
        ensured (is_registry to_string same_version catalog a.registry) unknown_registry _ h2 in
      let (home, found, h4) =
        >>=-eq-ok (ok_or (home_of (key_of to_string same_version catalog a) catalog.homes) no_home)
          _ h3 in
      let (placed, h5) =
        ensured (beq home.registry a.registry && same_category home.category a.category) wrong_home
          _ h4 in
      let (e, inside, registry, name, same) =
        home_of-Elem (key_of to_string same_version catalog a) catalog.homes home
          (ok_or-eq-ok _ no_home home found) in
      (
        (
          e,
          inside,
          registry,
          name,
          ap (λ (x : PackageHome). x.category) same
              ∙ same_category→eq home.category a.category (ground (arith, placed)),
        ),
        ground (arith, fresh),
      )

  pub registry_alias :
      (seen : List (Registry Version)) (r : Registry Version)
      → check_registry to_string same_version catalog seen r ≡ ok tt
      → validate_registry_alias r.name ≡ ok tt
  unfolding check_registry
  registry_alias seen r h =
      let (u, alias, h1) = >>=-eq-ok (validate_registry_alias r.name) _ h in alias

  pub approval_texts :
      (seen : List (Approval Version)) (a : Approval Version)
      → check_approval to_string same_version catalog seen a ≡ ok tt
      → (validate_package_name a.name ≡ ok tt)
        × (validate_sha256 a.archive_sha256 ≡ ok tt)
        × Declared a.registry
  unfolding check_approval validate_approval
  approval_texts seen a h =
      let key = key_of to_string same_version catalog a in
      let (u, valid, h1) = >>=-eq-ok (validate_approval to_string same_version catalog a) _ h in
      let (v, name, h2) = >>=-eq-ok (validate_package_name a.name) _ valid in
      let (known, h3) =
        ensured (is_registry to_string same_version catalog a.registry) unknown_registry _ h2 in
      let (home, found, h4) = >>=-eq-ok (ok_or (home_of key catalog.homes) no_home) _ h3 in
      let (placed, h5) =
        ensured (beq home.registry a.registry && same_category home.category a.category) wrong_home
          _ h4 in
      let (w, digest, h6) = >>=-eq-ok (validate_sha256 a.archive_sha256) _ h5 in
      (name, digest, declared a.registry known)

  -- What the loops of a successful validation have checked.
  pub record Loops (policy : Policy) : Type 0 where
    pub registries :
        each_after (check_registry to_string same_version catalog) [] catalog.registries ≡ ok tt
    pub categories : each (check_category to_string same_version catalog) catalog.categories ≡ ok tt
    pub homes : each_after (check_home to_string same_version catalog) [] catalog.homes ≡ ok tt
    pub peopled :
        all
          (λ (e : CategoryId × List CategoryId).
            any (same_category e.0) (inhabited to_string same_version catalog))
          catalog.categories
        ≡ true
    pub approvals :
        each_after (check_approval to_string same_version catalog) [] catalog.approvals ≡ ok tt
    pub result :
        policy.category_dependencies
        ≡ dependency_sets to_string same_version catalog catalog.categories

  pub validate_catalog-Loops :
      (policy : Policy) → validate_catalog to_string same_version catalog ≡ ok policy → Loops policy
  unfolding validate_catalog validate_homes
  validate_catalog-Loops policy h =
      let (a, h1) = ensured (beq catalog.cname host_name) bad_cname _ h in
      let (b, h2) = ensured (catalog.schema == schema_version) topology_schema _ h1 in
      let (c, h3) = ensured (catalog.homes_schema == schema_version) homes_schema _ h2 in
      let (d, h4) =
        ensured (beq (to_string catalog.cargo_version) cargo_pin) bad_cargo_version _ h3 in
      let (e, h5) =
        ensured (not (is_empty_list to_string same_version catalog catalog.registries))
          no_registries _ h4 in
      let (u, registries, h6) =
        >>=-eq-ok (each_after (check_registry to_string same_version catalog) [] catalog.registries)
          _ h5 in
      let (f, h7) =
        ensured (is_registry to_string same_version catalog (codes "main")) no_main _ h6 in
      let (g, h8) =
        ensured (not (is_empty_list to_string same_version catalog catalog.categories))
          no_categories _ h7 in
      let (v, categories, h9) =
        >>=-eq-ok (each (check_category to_string same_version catalog) catalog.categories) _ h8 in
      let (w, homes, h10) = >>=-eq-ok (validate_homes to_string same_version catalog) _ h9 in
      let (x, approvals, h11) =
        >>=-eq-ok (each_after (check_approval to_string same_version catalog) [] catalog.approvals)
          _ h10 in
      let (y, looped, h12) =
        >>=-eq-ok (each_after (check_home to_string same_version catalog) [] catalog.homes) _
          homes in
      let everywhere =
        all
          (λ (e : CategoryId × List CategoryId).
            any (same_category e.0) (inhabited to_string same_version catalog))
          catalog.categories in
      let (both, h13) =
        ensured
          (length (to_set (inhabited to_string same_version catalog)) == length catalog.categories
            && everywhere)
          uninhabited_category _ h12 in
      record {
        registries = registries;
        categories = categories;
        homes = looped;
        peopled = ground (arith, both);
        approvals = approvals;
        result = ap (λ (p : Policy). p.category_dependencies) (sym (ok_inj h11));
      }
