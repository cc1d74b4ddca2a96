-- ===== src/Policy/Sound.antt =====
-- What a validated catalog satisfies: `validate_catalog` of rust/src/policy.rs.
use pkgre.Prelude.{
  ◌≡◌, ◌↔◌, inl, inr, refl, sym, ◌∙◌, [], ◌∷◌, List, Bytes, beq, any, Elem, head, tail, Bool, true,
  false, ok, Bool-cases, all→All, All-elem,
}
use pkgre.Category.{CategoryId}
use pkgre.Schema.{Registry, Approval, Catalog, PackageKey, PackageHome, same_category}
use pkgre.Transition.Evidence.{same_category→eq}
use pkgre.Release.{Version}
use pkgre.Release.Lists.{each-Elem, any-Elem, any→Elem}
use pkgre.Policy.Topology.{
  Policy, Homes, Categories, permits_dependency, dependencies_of, dependency_sets,
  canonical_registry_index, check_registry, check_category, check_home, check_approval,
  validate_catalog, home_categories, inhabited, same_identity, to_set,
}
use pkgre.Policy.Distinct.{
  each→Elem, each_after→Elem, Pairs, each_after-Pairs, Agrees, each_after-Agrees, any_category_iff,
}
use pkgre.Policy.Checks.{
  Declared, HasCategory, registry_facts, category_facts, home_facts, approval_facts, Loops,
  validate_catalog-Loops,
}

module _ (to_string : Version → Bytes) (same_version : Version → Version → Bool)
    (catalog : Catalog Version) where
  -- The topology, the homes and the locked identities fit together.
  pub record IsSound : Type 0 where
    pub routed :
        (r : Registry Version)
        → Elem r catalog.registries
        → r.index ≡ canonical_registry_index r.name
    pub one_registry :
        Pairs
          (λ (a : Registry Version) (b : Registry Version). beq b.name a.name ≡ false)
          catalog.registries
    pub owned :
        (e : CategoryId × List CategoryId)
        → Elem e catalog.categories
        → Declared to_string same_version catalog e.0.registry
    pub closed :
        (e : CategoryId × List CategoryId) (d : CategoryId)
        → Elem e catalog.categories
        → Elem d e.1
        → HasCategory to_string same_version catalog d
    pub housed :
        (e : PackageKey × PackageHome)
        → Elem e catalog.homes
        → (e.0.registry ≡ e.1.registry)
          × (e.1.category.registry ≡ e.1.registry)
          × Declared to_string same_version catalog e.1.registry
          × HasCategory to_string same_version catalog e.1.category
    pub agree :
        (a b : PackageKey × PackageHome) → Elem a catalog.homes → Elem b catalog.homes → Agrees a b
    pub peopled :
        (e : CategoryId × List CategoryId)
        → Elem e catalog.categories
        → (h : PackageKey × PackageHome) × Elem h catalog.homes × (h.1.category ≡ e.0)
    pub approved :
        (a : Approval Version)
        → Elem a catalog.approvals
        → (h : PackageKey × PackageHome) × Elem h catalog.homes
          × (h.0.registry ≡ a.registry)
          × (h.0.name ≡ a.name)
          × (h.1.category ≡ a.category)
    pub one_identity :
        Pairs
          (λ (a : Approval Version) (b : Approval Version).
            same_identity to_string same_version catalog a b ≡ false)
          catalog.approvals

  home_categories-Elem :
      (homes : Homes) (c : CategoryId)
      → Elem c (home_categories homes)
      → (h : PackageKey × PackageHome) × Elem h homes × (h.1.category ≡ c)
  home_categories-Elem [] c e = elim e [ ]
  home_categories-Elem (x ∷ homes) c e =
      each-Elem (λ d. (h : PackageKey × PackageHome) × Elem h (x ∷ homes) × (h.1.category ≡ d))
        x.1.category (home_categories homes) (x, head, refl)
        (λ d k. let (h, inside, same) = home_categories-Elem homes d k in (h, tail inside, same)) c
        e

  not_any :
      {A : Type 0} (p : A → Bool) (xs : List A) (a : A) → any p xs ≡ false → Elem a xs → p a ≡ false
  not_any p xs a h e = elim (Bool-cases (p a)) [
    | inl found ↦ absurd (cc (h, any-Elem p xs a e found))
    | inr other ↦ other
  ]

  -- A validated catalog fits together. Every registry has its canonical index URL and a name of its
  -- own. Every category belongs to a declared registry, depends on declared categories only, and is
  -- the home of some package. Every package home lies in a declared registry and a declared category
  -- of that registry, and in one registry two names with one normalized form are equal. Every
  -- approval is in the home of its package, and no two approvals have one registry, normalized name
  -- and version without build metadata.
  pub validate_catalog-IsSound :
      (policy : Policy) → validate_catalog to_string same_version catalog ≡ ok policy → IsSound
  validate_catalog-IsSound policy h =
      let loops = validate_catalog-Loops to_string same_version catalog policy h in
      let homes =
        each_after→Elem (check_home to_string same_version catalog) [] catalog.homes loops.homes in
      record {
        routed = λ r e.
            let (seen, one) =
              each_after→Elem (check_registry to_string same_version catalog) [] catalog.registries
                loops.registries r e in
            (registry_facts to_string same_version catalog seen r one).0;
        one_registry =
            (each_after-Pairs (check_registry to_string same_version catalog)
              (λ (a : Registry Version) (b : Registry Version). beq b.name a.name ≡ false)
              (λ seen x one y k.
                not_any (λ (z : Registry Version). beq z.name x.name) seen y
                  (registry_facts to_string same_version catalog seen x one).1 k)
              [] catalog.registries loops.registries).1;
        owned = λ e k.
            (category_facts to_string same_version catalog e (
              each→Elem (check_category to_string same_version catalog) catalog.categories
                loops.categories e k)).0;
        closed = λ e d k m.
            (category_facts to_string same_version catalog e (
                each→Elem (check_category to_string same_version catalog) catalog.categories
                  loops.categories e k)).1
              d m;
        housed = λ e k.
            let (seen, one) = homes e k in (home_facts to_string same_version catalog seen e one).0;
        agree = λ a b d k.
            each_after-Agrees (check_home to_string same_version catalog)
              (λ seen x one. (home_facts to_string same_version catalog seen x one).1) []
              catalog.homes (λ x y p q. elim p [ ]) loops.homes a b (inr d) (inr k);
        peopled = λ e k.
            let found =
              All-elem
                (λ (x : CategoryId × List CategoryId).
                  any (same_category x.0) (inhabited to_string same_version catalog) ≡ true)
                e catalog.categories (all→All _ catalog.categories loops.peopled) k in
            let (c, inside, same) =
              any→Elem (same_category e.0) (inhabited to_string same_version catalog) found in
            let (home, place, category) = home_categories-Elem catalog.homes c inside in
            (home, place, category ∙ sym (same_category→eq e.0 c same));
        approved = λ a k.
            let (seen, one) =
              each_after→Elem (check_approval to_string same_version catalog) [] catalog.approvals
                loops.approvals a k in
            (approval_facts to_string same_version catalog seen a one).0;
        one_identity =
            (each_after-Pairs (check_approval to_string same_version catalog)
              (λ (a : Approval Version) (b : Approval Version).
                same_identity to_string same_version catalog a b ≡ false)
              (λ seen x one y k.
                not_any (same_identity to_string same_version catalog x) seen y
                  (approval_facts to_string same_version catalog seen x one).1 k)
              [] catalog.approvals loops.approvals).1;
      }

  dependency_sets_lem :
      (categories : Categories) (c : CategoryId)
      → dependencies_of (dependency_sets to_string same_version catalog categories) c
        ≡ to_set (dependencies_of categories c)
  dependency_sets_lem [] c = refl
  dependency_sets_lem (e ∷ categories) c = elim (Bool-cases (same_category e.0 c)) [
    | inl same ↦ rw same refl
    | inr other ↦ rw other (dependency_sets_lem categories c)
  ]

  dependencies_of-Elem :
      (categories : Categories) (from to : CategoryId)
      → Elem to (dependencies_of categories from)
      → (e : CategoryId × List CategoryId) × Elem e categories × (e.0 ≡ from) × Elem to e.1
  dependencies_of-Elem [] from to = λ k. elim k [ ]
  dependencies_of-Elem (e ∷ categories) from to = elim (Bool-cases (same_category e.0 from)) [
    | inl same ↦ rw same (λ k. (e, head, same_category→eq e.0 from same, k))
    | inr other ↦ rw other (λ k.
        let (x, inside, same, place) = dependencies_of-Elem categories from to k in
        (x, tail inside, same, place))
  ]

  -- The policy of a validated catalog permits a dependency exactly when the catalog lists the second
  -- category among the dependencies of the first, and then both categories are declared.
  pub permits_dependency_iff :
      (policy : Policy) (from to : CategoryId)
      → validate_catalog to_string same_version catalog ≡ ok policy
      → ((permits_dependency policy from to ≡ true)
          ↔ Elem to (dependencies_of catalog.categories from))
        × (permits_dependency policy from to ≡ true
            → HasCategory to_string same_version catalog from
              × HasCategory to_string same_version catalog to)
  unfolding permits_dependency
  permits_dependency_iff policy from to h = (test, λ p. both (test.0 p))
    where
      loops : Loops to_string same_version catalog policy
      loops = validate_catalog-Loops to_string same_version catalog policy h

      test :
          (permits_dependency policy from to ≡ true)
          ↔ Elem to (dependencies_of catalog.categories from)
      test =
          rw (loops.result, dependency_sets_lem catalog.categories from)
            (any_category_iff (dependencies_of catalog.categories from) to)

      both :
          Elem to (dependencies_of catalog.categories from)
          → HasCategory to_string same_version catalog from
            × HasCategory to_string same_version catalog to
      both k =
          let (e, inside, same, place) = dependencies_of-Elem catalog.categories from to k in
          ((e, inside, same), (validate_catalog-IsSound policy h).closed e to inside place)
