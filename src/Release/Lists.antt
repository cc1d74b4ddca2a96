-- ===== src/Release/Lists.antt =====
-- Greatest elements, sorted lists and filtered lists.
use mathlib.Core.Path.{subst}
use mathlib.Core.Option.{some_inj}
use pkgre.Prelude.{
  ◌≡◌, inl, inr, refl, [], ◌∷◌, List, any, Elem, head, tail, keep, Bool, true, some, Bool-cases,
  arith,
}
use pkgre.Release.{max_from, max_by, insert_by, sort_by}
use pkgre.Release.Order.{IsPreorder, total_refl}

module _ {ℓ} {A : Type ℓ} where
  -- A property of every element, from the head and the tail.
  pub each-Elem {κ} :
      (P : A → Type κ) (x : A) (xs : List A)
      → P x
      → ((a : A) → Elem a xs → P a)
      → (a : A) → Elem a (x ∷ xs)
      → P a
  each-Elem P x xs h k a head = h
  each-Elem P x xs h k a (tail e) = k a e

  pub keep-Elem :
      (p : A → Bool) (xs : List A) (a : A) → Elem a (keep p xs) → Elem a xs × (p a ≡ true)
  keep-Elem p [] a = λ e. elim e [ ]
  keep-Elem p (x ∷ xs) a =
      let behind : (b : A) → Elem b (keep p xs) → Elem b (x ∷ xs) × (p b ≡ true) =
        λ b e. let (inside, passes) = keep-Elem p xs b e in (tail inside, passes) in
      elim (Bool-cases (p x)) [
        | inl passed ↦
            rw (keep, passed)
              (each-Elem (λ b. Elem b (x ∷ xs) × (p b ≡ true)) x (keep p xs) (head, passed) behind
                a)
        | inr failed ↦ rw (keep, failed) (behind a)
      ]

  pub Elem-keep : (p : A → Bool) (xs : List A) (a : A) → Elem a xs → p a ≡ true → Elem a (keep p xs)
  Elem-keep p (x ∷ xs) a head h = rw (keep, h) head
  Elem-keep p (x ∷ xs) a (tail e) h = elim (Bool-cases (p x)) [
    | inl passed ↦ rw (keep, passed) (tail (Elem-keep p xs a e h))
    | inr failed ↦ rw (keep, failed) (Elem-keep p xs a e h)
  ]
  Elem-keep p [] a e h = elim e [ ]

  pub any-Elem : (p : A → Bool) (xs : List A) (a : A) → Elem a xs → p a ≡ true → any p xs ≡ true
  any-Elem p (x ∷ xs) a head h = ground arith
  any-Elem p (x ∷ xs) a (tail e) h = ground (arith, any-Elem p xs a e h)
  any-Elem p [] a e h = elim e [ ]

  pub any→Elem : (p : A → Bool) (xs : List A) → any p xs ≡ true → (a : A) × Elem a xs × (p a ≡ true)
  any→Elem p [] h = absurd (cc)
  any→Elem p (x ∷ xs) h = elim (Bool-cases (p x)) [
    | inl passed ↦ (x, head, passed)
    | inr failed ↦ let (a, e, k) = any→Elem p xs (ground arith) in (a, tail e, k)
  ]

module _ {ℓ} {A : Type ℓ} (le : A → A → Bool) (o : IsPreorder le) where
  -- The element is in the list, and none is greater.
  abbrev pub IsGreatest : A → List A → Type ℓ
  IsGreatest m xs = Elem m xs × ((x : A) → Elem x xs → le x m ≡ true)

  skip-Elem : (best x : A) (xs : List A) (a : A) → Elem a (best ∷ xs) → Elem a (best ∷ x ∷ xs)
  skip-Elem best x xs = each-Elem (λ a. Elem a (best ∷ x ∷ xs)) best xs head (λ a e. tail (tail e))

  max_from-IsGreatest : (best : A) (xs : List A) → IsGreatest (max_from le best xs) (best ∷ xs)
  max_from-IsGreatest best [] =
      (head, each-Elem (λ a. le a best ≡ true) best [] (total_refl o best) (λ a e. elim e [ ]))
  max_from-IsGreatest best (x ∷ xs) = elim (Bool-cases (le best x)) [
    | inl passed ↦ rw passed (
        let m = max_from le x xs in
        let (e, g) = max_from-IsGreatest x xs in
        (
          tail e,
          each-Elem (λ a. le a m ≡ true) best (x ∷ xs) (o.trans best x m passed (g x head)) g,
        ))
    | inr failed ↦ rw failed (
        let m = max_from le best xs in
        let (e, g) = max_from-IsGreatest best xs in
        (
          skip-Elem best x xs m e,
          each-Elem (λ a. le a m ≡ true) best (x ∷ xs) (g best head)
              (each-Elem (λ a. le a m ≡ true) x xs
                (o.trans x best m (o.total best x failed) (g best head)) (λ a k. g a (tail k))),
        ))
  ]

  pub max_by-IsGreatest : (xs : List A) (m : A) → max_by le xs ≡ some m → IsGreatest m xs
  max_by-IsGreatest [] m h = absurd (cc)
  max_by-IsGreatest (x ∷ xs) m h =
      subst (λ (a : A). IsGreatest a (x ∷ xs)) (some_inj.0 h) (max_from-IsGreatest x xs)

  pub max_by-some : (xs : List A) (x : A) → Elem x xs → (m : A) × (max_by le xs ≡ some m)
  max_by-some (y ∷ xs) x e = (max_from le y xs, refl)
  max_by-some [] x e = elim e [ ]

  -- Every element is at most the ones behind it.
  pub data IsSorted : List A → Type ℓ where
    sorted_nil : IsSorted []
    sorted_cons :
        {x : A} {xs : List A}
        → ((y : A) → Elem y xs → le x y ≡ true)
        → IsSorted xs
        → IsSorted (x ∷ xs)

  pub insert_by-Elem : (x : A) (xs : List A) (a : A) → Elem a (insert_by le x xs) → Elem a (x ∷ xs)
  insert_by-Elem x [] a = λ e. e
  insert_by-Elem x (y ∷ ys) a =
      let below =
        λ (b : A) (e : Elem b (insert_by le x ys)). skip-Elem x y ys b (insert_by-Elem x ys b e) in
      elim (Bool-cases (le x y)) [
        | inl passed ↦ rw passed (λ e. e)
        | inr failed ↦
            rw failed
              (each-Elem (λ b. Elem b (x ∷ y ∷ ys)) y (insert_by le x ys) (tail head) below a)
      ]

  Elem-insert_by : (x : A) (xs : List A) (a : A) → Elem a (x ∷ xs) → Elem a (insert_by le x xs)
  Elem-insert_by x [] a = λ e. e
  Elem-insert_by x (y ∷ ys) a =
      let P = λ (b : A). Elem b (y ∷ insert_by le x ys) in
      let inside = Elem-insert_by x ys in
      elim (Bool-cases (le x y)) [
        | inl passed ↦ rw passed (λ e. e)
        | inr failed ↦ rw failed (
            each-Elem P x (y ∷ ys) (tail (inside x head))
              (each-Elem P y ys head (λ b e. tail (inside b (tail e)))) a)
      ]

  pub sort_by-Elem : (xs : List A) (a : A) → Elem a (sort_by le xs) → Elem a xs
  sort_by-Elem [] a e = e
  sort_by-Elem (x ∷ xs) a e =
      each-Elem (λ b. Elem b (x ∷ xs)) x (sort_by le xs) head (λ b k. tail (sort_by-Elem xs b k)) a
        (insert_by-Elem x (sort_by le xs) a e)

  pub Elem-sort_by : (xs : List A) (a : A) → Elem a xs → Elem a (sort_by le xs)
  Elem-sort_by [] a e = e
  Elem-sort_by (x ∷ xs) a e = Elem-insert_by x (sort_by le xs) a (
      each-Elem (λ b. Elem b (x ∷ sort_by le xs)) x xs head (λ b k. tail (Elem-sort_by xs b k)) a e)

  insert_by-IsSorted : (x : A) (xs : List A) → IsSorted xs → IsSorted (insert_by le x xs)
  insert_by-IsSorted x [] s = sorted_cons (λ y e. elim e [ ]) sorted_nil
  insert_by-IsSorted x (y ∷ ys) (sorted_cons below rest) = elim (Bool-cases (le x y)) [
    | inl passed ↦ rw passed (
        sorted_cons
          (each-Elem (λ z. le x z ≡ true) y ys passed (λ z e. o.trans x y z passed (below z e)))
          (sorted_cons below rest))
    | inr failed ↦ rw failed (
        sorted_cons
          (λ z e.
            each-Elem (λ z. le y z ≡ true) x ys (o.total x y failed) below z
              (insert_by-Elem x ys z e))
          (insert_by-IsSorted x ys rest))
  ]

  pub sort_by-IsSorted : (xs : List A) → IsSorted (sort_by le xs)
  sort_by-IsSorted [] = sorted_nil
  sort_by-IsSorted (x ∷ xs) = insert_by-IsSorted x (sort_by le xs) (sort_by-IsSorted xs)
