-- ===== src/Policy/Distinct.antt =====
-- Checks of every element against the ones before it: the loops of rust/src/policy.rs.
use mathlib.Core.Path.{subst}
use pkgre.Prelude.{
  ◌≡◌, ◌⊎◌, ◌↔◌, inl, inr, refl, sym, ◌∙◌, arith, [], ◌∷◌, List, beq, beq→eq, beq_iff, Elem, head,
  tail, true, false, ◌&&◌, Result, ok, Bool-cases, any,
}
use pkgre.Category.{CategoryId}
use pkgre.Schema.{PackageKey, PackageHome, same_category}
use pkgre.Transition.{each}
use pkgre.Transition.Evidence.{and_then, same_category→eq}
use pkgre.Release.Lists.{each-Elem, any-Elem, any→Elem}
use pkgre.Policy.{package_collision_key}
use pkgre.Policy.Topology.{each_after, Homes, collides, same_normal_name, to_set}

-- A relation holds of every element and each one before it.
abbrev pub Pairs : {A : Type 0} → (A → A → Type 0) → List A → Type 0
Pairs R [] = Unit
Pairs {A} R (x ∷ xs) = ((y : A) → Elem y xs → R y x) × Pairs R xs

module _ {A E : Type 0} where
  pub each→Elem :
      (check : A → Result E (Unit {0})) (xs : List A)
      → each check xs ≡ ok tt
      → (x : A) → Elem x xs
      → check x ≡ ok tt
  each→Elem check [] h x e = elim e [ ]
  each→Elem check (y ∷ xs) h x e =
      let (first, rest) = (and_then (check y) (each check xs)).0 h in
      each-Elem (λ x. check x ≡ ok tt) y xs first (each→Elem check xs rest) x e

  pub each_after→Elem :
      (check : List A → A → Result E (Unit {0})) (seen xs : List A)
      → each_after check seen xs ≡ ok tt
      → (x : A) → Elem x xs
      → (before : List A) × (check before x ≡ ok tt)
  each_after→Elem check seen [] h x e = elim e [ ]
  each_after→Elem check seen (y ∷ xs) h x e =
      let (first, rest) = (and_then (check seen y) (each_after check (y ∷ seen) xs)).0 h in
      each-Elem (λ x. (before : List A) × (check before x ≡ ok tt)) y xs (seen, first)
        (each_after→Elem check (y ∷ seen) xs rest) x e

  pub each_after-Pairs :
      (check : List A → A → Result E (Unit {0})) (R : A → A → Type 0)
      → ((seen : List A) (x : A) → check seen x ≡ ok tt → (y : A) → Elem y seen → R x y)
      → (seen xs : List A) → each_after check seen xs ≡ ok tt
      → ((x y : A) → Elem x xs → Elem y seen → R x y) × Pairs R xs
  each_after-Pairs check R one seen [] h = (λ x y e k. elim e [ ], tt)
  each_after-Pairs check R one seen (z ∷ xs) h =
      let (first, rest) = (and_then (check seen z) (each_after check (z ∷ seen) xs)).0 h in
      let (across, within) = each_after-Pairs check R one (z ∷ seen) xs rest in
      (
        λ x y e k.
            each-Elem (λ v. R v y) z xs (one seen z first y k) (λ v d. across v y d (tail k)) x e,
        (λ y e. across y z e head, within),
      )

-- Two homes of one registry whose names have one normalized form have one name.
abbrev pub Agrees : PackageKey × PackageHome → PackageKey × PackageHome → Type 0
Agrees a b =
    a.0.registry ≡ b.0.registry
    → package_collision_key a.0.name ≡ package_collision_key b.0.name
    → a.0.name ≡ b.0.name

pub collides-Agrees :
    (seen : Homes) (x : PackageKey × PackageHome)
    → ((a b : PackageKey × PackageHome) → Elem a seen → Elem b seen → Agrees a b)
    → collides seen x.0 ≡ false
    → (y : PackageKey × PackageHome) → Elem y seen
    → Agrees y x
collides-Agrees [] x agree h y e registry normal = elim e [ ]
collides-Agrees (z ∷ seen) x agree h y e registry normal =
    elim (Bool-cases (beq z.0.registry x.0.registry && same_normal_name z.0.name x.0.name)) [
      | inl found ↦
          let named : z.0.name ≡ x.0.name = beq→eq z.0.name x.0.name (ground arith) in
          let registry' : y.0.registry ≡ z.0.registry =
            registry ∙ sym (beq→eq z.0.registry x.0.registry (ground arith)) in
          let normal' : package_collision_key y.0.name ≡ package_collision_key z.0.name =
            normal
            ∙ sym (
                beq→eq (package_collision_key z.0.name) (package_collision_key x.0.name)
                  (ground arith)) in
          agree y z e head registry' normal' ∙ named
      | inr other ↦
          each-Elem (λ v. Agrees v x) z seen
            (λ r n. absurd (
              ground (
                arith,
                (beq_iff z.0.registry x.0.registry).1 r,
                (beq_iff (package_collision_key z.0.name) (package_collision_key x.0.name)).1 n,
              )))
            (collides-Agrees seen x (λ a b d k. agree a b (tail d) (tail k)) (ground arith)) y e
            registry normal
    ]

Agrees-sym : (a b : PackageKey × PackageHome) → Agrees a b → Agrees b a
Agrees-sym a b h registry normal = sym (h (sym registry) (sym normal))

-- A loop that refuses collisions leaves homes that agree.
pub each_after-Agrees :
    {E : Type 0} (check : Homes → PackageKey × PackageHome → Result E (Unit {0}))
    → ((seen : Homes) (x : PackageKey × PackageHome)
        → check seen x ≡ ok tt
        → collides seen x.0 ≡ false)
    → (seen xs : Homes)
    → ((a b : PackageKey × PackageHome) → Elem a seen → Elem b seen → Agrees a b)
    → each_after check seen xs ≡ ok tt
    → (a b : PackageKey × PackageHome) → (Elem a seen ⊎ Elem a xs)
    → (Elem b seen ⊎ Elem b xs)
    → Agrees a b
each_after-Agrees check one seen [] agree h a b (inl d) (inl k) = agree a b d k
each_after-Agrees check one seen [] agree h a b (inr d) k = elim d [ ]
each_after-Agrees check one seen [] agree h a b (inl d) (inr k) = elim k [ ]
each_after-Agrees check one seen (x ∷ xs) agree h a b d k =
    let (first, rest) = (and_then (check seen x) (each_after check (x ∷ seen) xs)).0 h in
    let below = collides-Agrees seen x agree (one seen x first) in
    let agree' =
      λ (u : PackageKey × PackageHome) (v : PackageKey × PackageHome) (p : Elem u (x ∷ seen))
          (q : Elem v (x ∷ seen)).
        each-Elem (λ w. Agrees w v) x seen
          (each-Elem (λ w. Agrees x w) x seen (λ r n. refl) (λ w m. Agrees-sym w x (below w m)) v q)
          (λ w m. each-Elem (λ z. Agrees w z) x seen (below w m) (λ z l. agree w z m l) v q) u p in
    each_after-Agrees check one (x ∷ seen) xs agree' rest a b (shift a d) (shift b k)
  where
    shift :
        (c : PackageKey × PackageHome)
        → (Elem c seen ⊎ Elem c (x ∷ xs))
        → Elem c (x ∷ seen) ⊎ Elem c xs
    shift c (inl e) = inl (tail e)
    shift c (inr head) = inl head
    shift c (inr (tail e)) = inr e

same_category_refl : (c : CategoryId) → same_category c c ≡ true
same_category_refl c =
    ground (arith, (beq_iff c.registry c.registry).1 refl, (beq_iff c.local c.local).1 refl)

pub Elem-to_set : (cs : List CategoryId) (c : CategoryId) → Elem c cs → Elem c (to_set cs)
Elem-to_set [] c e = e
Elem-to_set (d ∷ cs) c e = elim (Bool-cases (any (same_category d) cs)) [
  | inl again ↦
      let (x, inside, same) = any→Elem (same_category d) cs again in
      rw again (
        each-Elem (λ v. Elem v (to_set cs)) d cs
          (subst (λ v. Elem v (to_set cs)) (sym (same_category→eq d x same))
            (Elem-to_set cs x inside))
          (Elem-to_set cs) c e)
  | inr new ↦
      rw new
        (each-Elem (λ v. Elem v (d ∷ to_set cs)) d cs head (λ v k. tail (Elem-to_set cs v k)) c e)
]

pub to_set-Elem : (cs : List CategoryId) (c : CategoryId) → Elem c (to_set cs) → Elem c cs
to_set-Elem [] c = λ e. e
to_set-Elem (d ∷ cs) c = elim (Bool-cases (any (same_category d) cs)) [
  | inl again ↦ rw again (λ e. tail (to_set-Elem cs c e))
  | inr new ↦
      rw new
        (each-Elem (λ v. Elem v (d ∷ cs)) d (to_set cs) head (λ v k. tail (to_set-Elem cs v k)) c)
]

pub any_category_iff :
    (cs : List CategoryId) (c : CategoryId)
    → (any (λ d. same_category d c) (to_set cs) ≡ true) ↔ Elem c cs
any_category_iff cs c = (
  λ h.
      let (d, inside, same) = any→Elem (λ d. same_category d c) (to_set cs) h in
      subst (λ v. Elem v cs) (same_category→eq d c same) (to_set-Elem cs d inside),
  λ e. any-Elem (λ d. same_category d c) (to_set cs) c (Elem-to_set cs c e) (same_category_refl c),
)
