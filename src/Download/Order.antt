-- ===== src/Download/Order.antt =====
-- The order of routes, and sorted lists of distinct elements: rust/src/download.rs.
use pkgre.Prelude.{
  ◌≡◌, inl, inr, refl, arith, [], ◌∷◌, List, Bytes, Elem, head, tail, Bool, true, false, Bool-cases,
}
use pkgre.Release.{Version, leb_bytes, insert_by, sort_by}
use pkgre.Release.Order.{IsPreorder, bytes_total, bytes_trans}
use pkgre.Release.Lists.{each-Elem, insert_by-Elem, sort_by-Elem}
use pkgre.Policy.Distinct.{Pairs}
use pkgre.Download.{
  Delivery, redirect, retained, DownloadRoute, lowercase, leb_delivery, then_by, by_version,
  by_delivery, leb_route,
}

pub bytes-IsPreorder :
    {A : Type 0} (f : A → Bytes) → IsPreorder (λ (a : A) (b : A). leb_bytes (f a) (f b))
bytes-IsPreorder f = record {
  total = λ a b. bytes_total (f a) (f b);
  trans = λ a b c. bytes_trans (f a) (f b) (f c);
}

pub then_by-IsPreorder :
    {A : Type 0} (first second : A → A → Bool)
    → IsPreorder first
    → IsPreorder second
    → IsPreorder (then_by first second)
then_by-IsPreorder first second o p = record {
  total = λ a b h. ground (arith, o.total a b, o.total b a, p.total a b);
  trans = λ a b c h k. ground (
    arith,
    o.trans a b c,
    o.trans c b a,
    o.trans b c a,
    o.trans c a b,
    o.total a c,
    p.trans a b c,
  );
}

delivery_total : (a b : Delivery) → leb_delivery a b ≡ false → leb_delivery b a ≡ true
delivery_total (redirect a) (redirect b) h = bytes_total a b h
delivery_total (redirect a) (retained b) h = absurd (cc)
delivery_total (retained a) (redirect b) h = refl
delivery_total (retained a) (retained b) h = bytes_total a b h

delivery_trans :
    (a b c : Delivery) → leb_delivery a b ≡ true → leb_delivery b c ≡ true → leb_delivery a c ≡ true
delivery_trans (redirect a) (redirect b) (redirect c) h k = bytes_trans a b c h k
delivery_trans (redirect a) b (retained c) h k = refl
delivery_trans (redirect a) (retained b) (redirect c) h k = absurd (cc)
delivery_trans (retained a) (redirect b) c h k = absurd (cc)
delivery_trans (retained a) (retained b) (redirect c) h k = absurd (cc)
delivery_trans (retained a) (retained b) (retained c) h k = bytes_trans a b c h k

-- A relation that goes both ways holds in the sorted list too.
module _ {A : Type 0} (le : A → A → Bool) (o : IsPreorder le) (R : A → A → Type 0)
    (turn : (a b : A) → R a b → R b a) where
  insert_by-Pairs :
      (x : A) (xs : List A)
      → ((y : A) → Elem y xs → R y x)
      → Pairs R xs
      → Pairs R (insert_by le x xs)
  insert_by-Pairs x [] apart p = (λ y e. elim e [ ], tt)
  insert_by-Pairs x (z ∷ xs) apart p = elim (Bool-cases (le x z)) [
    | inl yes' ↦ rw yes' (apart, p)
    | inr no' ↦ rw no' (
      λ y e.
          each-Elem (λ v. R v z) x xs (turn z x (apart z head)) p.0 y
            (insert_by-Elem le o x xs y e),
      insert_by-Pairs x xs (λ y e. apart y (tail e)) p.1,
    )
  ]

  pub sort_by-Pairs : (xs : List A) → Pairs R xs → Pairs R (sort_by le xs)
  sort_by-Pairs [] p = p
  sort_by-Pairs (x ∷ xs) p =
      insert_by-Pairs x (sort_by le xs) (λ y e. p.0 y (sort_by-Elem le o xs y e))
        (sort_by-Pairs xs p.1)

module _ (to_string : Version → Bytes) (same_version leb_version : Version → Version → Bool)
    (o : IsPreorder leb_version) where
  pub leb_route-IsPreorder : IsPreorder (leb_route to_string same_version leb_version)
  unfolding leb_route
  leb_route-IsPreorder =
      let version : IsPreorder (by_version to_string same_version leb_version) = record {
        total = λ a b. o.total a.version b.version;
        trans = λ a b c. o.trans a.version b.version c.version;
      } in
      let delivery : IsPreorder (by_delivery to_string same_version leb_version) = record {
        total = λ a b. delivery_total a.delivery b.delivery;
        trans = λ a b c. delivery_trans a.delivery b.delivery c.delivery;
      } in
      then_by-IsPreorder _ _ (bytes-IsPreorder (λ (r : DownloadRoute). r.registry)) (
        then_by-IsPreorder _ _ (bytes-IsPreorder (λ (r : DownloadRoute). lowercase r.name)) (
          then_by-IsPreorder _ _ (bytes-IsPreorder (λ (r : DownloadRoute). r.name)) (
            then_by-IsPreorder _ _ version (
              then_by-IsPreorder _ _ (bytes-IsPreorder (λ (r : DownloadRoute). r.sha256))
                delivery))))
