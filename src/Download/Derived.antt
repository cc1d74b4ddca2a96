-- ===== src/Download/Derived.antt =====
-- The table derived from a validated catalog is valid: rust/src/download.rs.
use mathlib.Core.Path.{subst}
use pkgre.Prelude.{
  ◌≡◌, ◌↔◌, inl, inr, refl, sym, ap, arith, [], ◌∷◌, List, Bytes, any, beq→eq, beq_refl, beq_iff,
  Elem, head, tail, Bool, true, false, ok, Bool-cases,
}
use pkgre.Schema.{Source, crates_io, git_tag, Approval, Catalog}
use pkgre.Release.{Version, same_key, sort_by}
use pkgre.Release.Order.{IsPreorder, IsOrder, bytes_antisym, same_key_refl}
use pkgre.Release.Lists.{each-Elem, IsSorted, sorted_cons, sort_by-Elem, sort_by-IsSorted}
use pkgre.Policy.{
  validate_registry_alias, validate_package_name, validate_sha256, package_collision_key,
}
use pkgre.Policy.Topology.{
  Policy, each_after, same_identity, validate_catalog, check_registry, check_approval,
}
use pkgre.Policy.Distinct.{Pairs, each_after→Elem}
use pkgre.Policy.Checks.{registry_alias, approval_texts, validate_catalog-Loops}
use pkgre.Policy.Sound.{validate_catalog-IsSound}
use pkgre.Download.{
  DownloadRoute, download_url, retained_object_path, leb_route, from_routes, is_retained_registry,
  delivery_of, route_of, routes_of, from_catalog, same_route, follows, check_delivery, check_route,
  validate,
}
use pkgre.Download.Order.{sort_by-Pairs, leb_route-IsPreorder}

module _ (to_string : Version → Bytes) (same_version leb_version : Version → Version → Bool)
    (same : (a b : Version) → (same_version a b ≡ true) ↔ (a ≡ b))
    (order : IsOrder leb_version) where
  abbrev le : DownloadRoute → DownloadRoute → Bool
  le = leb_route to_string same_version leb_version

  abbrev alike : DownloadRoute → DownloadRoute → Bool
  alike = same_route to_string same_version leb_version

  route_order : IsPreorder le
  route_order = leb_route-IsPreorder to_string same_version leb_version order.preorder

  abbrev Apart : DownloadRoute → DownloadRoute → Type 0
  Apart a b = (alike a b ≡ false) × (alike b a ≡ false)

  -- Routes that are ordered both ways have one identity.
  ordered-alike : (a b : DownloadRoute) → le a b ≡ true → le b a ≡ true → alike a b ≡ true
  unfolding leb_route
  ordered-alike a b h k =
      let registry : a.registry ≡ b.registry =
        bytes_antisym a.registry b.registry (ground arith) (ground arith) in
      let name : a.name ≡ b.name = bytes_antisym a.name b.name (ground arith) (ground arith) in
      let version : a.version ≡ b.version =
        order.antisym a.version b.version (ground arith) (ground arith) in
      ground (
        arith,
        (beq_iff a.registry b.registry).1 registry,
        (beq_iff a.name b.name).1 name,
        (same a.version b.version).1 version,
      )

  -- An earlier route of the table, and a later one.
  record Before (a b : DownloadRoute) : Type 0 where
    pub strict : le b a ≡ false
    pub distinct : alike b a ≡ false

  record Fine (r : DownloadRoute) : Type 0 where
    pub alias_ok : validate_registry_alias r.registry ≡ ok tt
    pub name_ok : validate_package_name r.name ≡ ok tt
    pub hash_ok : validate_sha256 r.sha256 ≡ ok tt
    pub delivery_ok : check_delivery to_string same_version leb_version r r.delivery ≡ ok tt

  sorted-Before :
      (xs : List DownloadRoute)
      → IsSorted le route_order xs
      → Pairs Apart xs
      → Pairs (λ y x. Before x y) xs
  sorted-Before [] s p = tt
  sorted-Before (x ∷ xs) (sorted_cons below s) p = (
    λ y e. record {
      strict = elim (Bool-cases (le y x)) [
        | inl both ↦ absurd (cc (ordered-alike x y (below y e) both, (p.0 y e).1))
        | inr one ↦ one
      ];
      distinct = (p.0 y e).0;
    },
    sorted-Before xs s p.1,
  )

  none_alike :
      (seen : List DownloadRoute) (x : DownloadRoute)
      → ((y : DownloadRoute) → Elem y seen → Before y x)
      → (any (alike x) seen ≡ false) × (follows to_string same_version leb_version seen x ≡ true)
  none_alike [] x h = (refl, refl)
  none_alike (y ∷ seen) x h =
      let (rest, first) = none_alike seen x (λ z e. h z (tail e)) in
      let this = h y head in (ground (arith, this.distinct, rest), ground (arith, this.strict))

  check_route_lem :
      (seen : List DownloadRoute) (x : DownloadRoute)
      → Fine x
      → ((y : DownloadRoute) → Elem y seen → Before y x)
      → check_route to_string same_version leb_version seen x ≡ ok tt
  unfolding check_route
  check_route_lem seen x f h =
      let (fresh, ordered) = none_alike seen x h in
      rw (f.alias_ok, f.name_ok, f.hash_ok, ordered, fresh) f.delivery_ok

  accepts :
      (seen xs : List DownloadRoute)
      → ((x : DownloadRoute) → Elem x xs → Fine x)
      → ((x y : DownloadRoute) → Elem x xs → Elem y seen → Before y x)
      → Pairs (λ y x. Before x y) xs
      → each_after (check_route to_string same_version leb_version) seen xs ≡ ok tt
  accepts seen [] fine across p = refl
  accepts seen (x ∷ xs) fine across p =
      rw (check_route_lem seen x (fine x head) (λ y e. across x y head e)) (
        accepts (x ∷ seen) xs (λ z e. fine z (tail e))
          (λ z y e k.
            each-Elem (λ v. Before v z) x seen (p.0 z e) (λ v m. across z v (tail e) m) y k)
          p.1)

  module _ (catalog : Catalog Version) where
    abbrev routes : List (Approval Version) → List DownloadRoute
    routes = routes_of to_string same_version leb_version catalog

    abbrev route : Approval Version → DownloadRoute
    route = route_of to_string same_version leb_version catalog

    routes-Elem :
        (approvals : List (Approval Version)) (x : DownloadRoute)
        → Elem x (routes approvals)
        → (a : Approval Version) × Elem a approvals × (x ≡ route a)
    routes-Elem [] x e = elim e [ ]
    routes-Elem (a ∷ approvals) x e =
        each-Elem (λ v. (b : Approval Version) × Elem b (a ∷ approvals) × (v ≡ route b)) (route a)
          (routes approvals) (a, head, refl)
          (λ v k. let (b, inside, is) = routes-Elem approvals v k in (b, tail inside, is)) x e

    -- Approvals of distinct identities have routes of distinct identities.
    identity-alike :
        (a b : Approval Version)
        → alike (route a) (route b) ≡ true
        → same_identity to_string same_version catalog a b ≡ true
    identity-alike a b h =
        let name : a.name ≡ b.name = beq→eq a.name b.name (ground arith) in
        let version : a.version ≡ b.version = (same a.version b.version).0 (ground arith) in
        let normal =
          (beq_iff (package_collision_key a.name) (package_collision_key b.name)).1
            (ap package_collision_key name) in
        let key : same_key a.version b.version ≡ true = rw version (same_key_refl b.version) in
        ground (arith, normal, key)

    alike_sym : (a b : DownloadRoute) → alike a b ≡ true → alike b a ≡ true
    alike_sym a b h =
        let registry =
          (beq_iff b.registry a.registry).1 (sym (beq→eq a.registry b.registry (ground arith))) in
        let name = (beq_iff b.name a.name).1 (sym (beq→eq a.name b.name (ground arith))) in
        let version =
          (same b.version a.version).1 (sym ((same a.version b.version).0 (ground arith))) in
        ground (arith, registry, name, version)

    apart :
        (a b : Approval Version)
        → same_identity to_string same_version catalog a b ≡ false
        → Apart (route a) (route b)
    apart a b h = (
      elim (Bool-cases (alike (route a) (route b))) [
        | inl both ↦ absurd (cc (h, identity-alike a b both))
        | inr one ↦ one
      ],
      elim (Bool-cases (alike (route b) (route a))) [
        | inl both ↦ absurd (cc (h, identity-alike a b (alike_sym (route b) (route a) both)))
        | inr one ↦ one
      ],
    )

    routes-Pairs :
        (approvals : List (Approval Version))
        → Pairs
            (λ (a : Approval Version) (b : Approval Version).
              same_identity to_string same_version catalog a b ≡ false)
            approvals
        → Pairs Apart (routes approvals)
    routes-Pairs [] p = tt
    routes-Pairs (a ∷ approvals) p = (
      λ y e.
          let (b, inside, is) = routes-Elem approvals y e in
          subst (λ v. Apart v (route a)) (sym is) (apart b a (p.0 b inside)),
      routes-Pairs approvals p.1,
    )

    delivery_ok :
        (a : Approval Version) (s : Source Version)
        → check_delivery to_string same_version leb_version
            (route a)
            (delivery_of to_string same_version leb_version catalog a s)
          ≡ ok tt
    delivery_ok a crates_io =
        elim (Bool-cases
          (is_retained_registry to_string same_version leb_version catalog a.registry)) [
            | inl held ↦ rw (held, beq_refl (retained_object_path a.registry a.archive_sha256)) refl
            | inr sent ↦
                rw
                  (
                    sent,
                    beq_refl (
                        download_url to_string same_version leb_version a.registry a.name a.version
                          a.archive_sha256),
                  )
                  refl
          ]
    delivery_ok a (git_tag repository tag tag_oid commit name subdir cargo_version) =
        rw (beq_refl (retained_object_path a.registry a.archive_sha256)) refl

    approval-Fine :
        (policy : Policy) (a : Approval Version)
        → validate_catalog to_string same_version catalog ≡ ok policy
        → Elem a catalog.approvals
        → Fine (route a)
    approval-Fine policy a h e =
        let loops = validate_catalog-Loops to_string same_version catalog policy h in
        let (seen, one) =
          each_after→Elem (check_approval to_string same_version catalog) [] catalog.approvals
            loops.approvals a e in
        let (name, digest, (r, inside, named)) =
          approval_texts to_string same_version catalog seen a one in
        let (before, registered) =
          each_after→Elem (check_registry to_string same_version catalog) [] catalog.registries
            loops.registries r inside in
        record {
          alias_ok =
              subst (λ x. validate_registry_alias x ≡ ok tt) named
                (registry_alias to_string same_version catalog before r registered);
          name_ok = name;
          hash_ok = digest;
          delivery_ok = delivery_ok a a.source;
        }

    -- The download table that is derived from a validated catalog is valid: its routes are in strict
    -- order, no two have one registry, name and version, and every name, hash and delivery is as the
    -- validation of a table wants it.
    pub from_catalog-validate :
        (policy : Policy)
        → validate_catalog to_string same_version catalog ≡ ok policy
        → validate to_string same_version leb_version
            (from_catalog to_string same_version leb_version catalog)
          ≡ ok tt
    unfolding validate from_catalog from_routes
    from_catalog-validate policy h =
        let sound = validate_catalog-IsSound to_string same_version catalog policy h in
        let sorted = sort_by le (routes catalog.approvals) in
        accepts [] sorted
          (λ x e.
            let (a, inside, is) =
              routes-Elem catalog.approvals x
                (sort_by-Elem le route_order (routes catalog.approvals) x e) in
            subst Fine (sym is) (approval-Fine policy a h inside))
          (λ x y e k. elim k [ ])
          (sorted-Before sorted (sort_by-IsSorted le route_order (routes catalog.approvals)) (
            sort_by-Pairs le route_order Apart (λ a b p. (p.1, p.0)) (routes catalog.approvals)
              (routes-Pairs catalog.approvals sound.one_identity)))
