-- ===== src/Release/Maxima.antt =====
-- The table of the greatest active release of every lane: rust/src/update/policy.rs.
use mathlib.Core.Path.{subst}
use mathlib.Core.Option.{some_inj}
use pkgre.Prelude.{
  ◌≡◌, ◌⊎◌, inl, inr, refl, sym, ap, ◌∙◌, arith, [], ◌∷◌, List, keep, Elem, head, tail, Bool, true,
  false, not, ==_iff, Option, none, some, Bool-cases, if◌then◌else◌,
}
use pkgre.Release.{
  Version, LockedRelease, CompatibilityLane, zero_minor, major_lane, implicit_lane, in_lane,
  same_lane,
}
use pkgre.Release.Order.{IsPreorder, total_refl}
use pkgre.Release.Lists.{each-Elem, keep-Elem}
use pkgre.Release.Selection.{Maxima, get, insert, raise, observe, active_maxima}

pub same_lane→eq : (a b : CompatibilityLane) → same_lane a b ≡ true → a ≡ b
same_lane→eq (zero_minor a) (zero_minor b) h = ap zero_minor ((==_iff a b).0 h)
same_lane→eq (major_lane a) (major_lane b) h = ap major_lane ((==_iff a b).0 h)
same_lane→eq (zero_minor a) (major_lane b) h = absurd (cc)
same_lane→eq (major_lane a) (zero_minor b) h = absurd (cc)

pub same_lane_refl : (a : CompatibilityLane) → same_lane a a ≡ true
same_lane_refl (zero_minor a) = (==_iff a a).1 refl
same_lane_refl (major_lane a) = (==_iff a a).1 refl

pub in_lane→eq :
    (l : CompatibilityLane) (o : Option CompatibilityLane) → in_lane l o ≡ true → o ≡ some l
unfolding in_lane
in_lane→eq l none h = absurd (cc)
in_lane→eq l (some k) h = ap some (same_lane→eq k l h)

pub in_lane_some : (l : CompatibilityLane) → in_lane l (some l) ≡ true
unfolding in_lane
in_lane_some l = same_lane_refl l

apart_lane : (l k : CompatibilityLane) → not (same_lane k l) ≡ true → same_lane l k ≡ false
apart_lane l k h = elim (Bool-cases (same_lane l k)) [
  | inl same ↦ absurd (
      ground
        (arith, subst (λ x. same_lane k x ≡ true) (sym (same_lane→eq l k same)) (same_lane_refl k)))
  | inr other ↦ other
]

abbrev Entry : Type 0
Entry = CompatibilityLane × LockedRelease

module _ (leb_version : Version → Version → Bool) (o : IsPreorder leb_version) where
  abbrev Table : Type 0
  Table = Maxima leb_version

  pub get-Elem :
      (l : CompatibilityLane) (m : Table) (p : LockedRelease)
      → get leb_version l m ≡ some p
      → Elem {A = Entry} (l, p) m
  get-Elem l [] p h = absurd (cc)
  get-Elem l (e ∷ m) p h = elim (Bool-cases (same_lane e.0 l)) [
    | inl same ↦
        let lane : e.0 ≡ l = same_lane→eq e.0 l same in
        let found : e.1 ≡ p = some_inj.0 (ground arith) in
        subst (λ (x : Entry). Elem x (e ∷ m)) (λ i. (lane i, found i)) head
    | inr other ↦ tail (get-Elem l m p (ground arith))
  ]

  get-keep :
      (l k : CompatibilityLane) (m : Table)
      → same_lane l k ≡ false
      → get leb_version k (keep (λ (e : Entry). not (same_lane e.0 l)) m) ≡ get leb_version k m
  get-keep l k [] h = refl
  get-keep l k (e ∷ m) h = elim (Bool-cases (same_lane e.0 l)) [
    | inl same ↦
        let other : same_lane e.0 k ≡ false =
          subst (λ x. same_lane x k ≡ false) (sym (same_lane→eq e.0 l same)) h in
        rw (keep, same, other) (get-keep l k m h)
    | inr apart ↦ elim (Bool-cases (same_lane e.0 k)) [
      | inl found ↦ rw (keep, apart, found) refl
      | inr other ↦ rw (keep, apart, other) (get-keep l k m h)
    ]
  ]

  module _ (locked : List LockedRelease) where
    -- The table after some releases: every entry is an active locked release of its lane, every
    -- release seen is covered by the entry of its lane, and a lane has one entry.
    pub record IsMaxima (Seen : LockedRelease → Type 0) (m : Table) : Type 0 where
      pub entries :
          (e : Entry)
          → Elem e m
          → Elem e.1 locked × (e.1.active ≡ true) × (implicit_lane e.1.version ≡ some e.0)
      pub covers :
          (x : LockedRelease) (l : CompatibilityLane)
          → Seen x
          → implicit_lane x.version ≡ some l
          → (p : LockedRelease) × (get leb_version l m ≡ some p)
            × (leb_version x.version p.version ≡ true)
      pub single : (e : Entry) → Elem e m → get leb_version e.0 m ≡ some e.1

    -- The releases seen, and one more.
    abbrev With : (LockedRelease → Type 0) → LockedRelease → LockedRelease → Type 0
    With Seen r x = Seen x ⊎ (x ≡ r)

    abbrev Above : Table → LockedRelease → CompatibilityLane → Type 0
    Above m r l =
        (q : LockedRelease) → get leb_version l m ≡ some q → leb_version q.version r.version ≡ true

    -- The release is covered by the entry of its lane.
    abbrev Covered : Table → CompatibilityLane → LockedRelease → Type 0
    Covered m l x =
        (p : LockedRelease) × (get leb_version l m ≡ some p)
        × (leb_version x.version p.version ≡ true)

    inserted-Covered :
        (m : Table) (r x : LockedRelease) (l l' : CompatibilityLane)
        → Above m r l
        → Covered m l' x
        → Covered (insert leb_version l r m) l' x
    inserted-Covered m r x l l' above (p, got, le) = elim (Bool-cases (same_lane l l')) [
      | inl same ↦ (
        r,
        rw same refl,
        o.trans x.version p.version r.version le (
            above p (subst (λ k. get leb_version k m ≡ some p) (sym (same_lane→eq l l' same)) got)),
      )
      | inr other ↦ (p, rw other (get-keep l l' m other ∙ got), le)
    ]

    new-Covered :
        (m : Table) (r : LockedRelease) (l l' : CompatibilityLane)
        → some l ≡ some l'
        → Covered (insert leb_version l r m) l' r
    new-Covered m r l l' same =
        (r, rw (some_inj.0 same, same_lane_refl l') refl, total_refl o r.version)

    insert-IsMaxima :
        (Seen : LockedRelease → Type 0) (m : Table) (r : LockedRelease) (l : CompatibilityLane)
        → Elem r locked
        → r.active ≡ true
        → implicit_lane r.version ≡ some l
        → Above m r l
        → IsMaxima Seen m
        → IsMaxima (With Seen r) (insert leb_version l r m)
    insert-IsMaxima Seen m r l e active lane above k =
        let rest = keep (λ (x : Entry). not (same_lane x.0 l)) m in
        record {
          entries =
              each-Elem
                (λ (x : Entry).
                  Elem x.1 locked × (x.1.active ≡ true) × (implicit_lane x.1.version ≡ some x.0))
                (l, r) rest (e, active, lane)
                (λ x d. k.entries x (keep-Elem (λ (x : Entry). not (same_lane x.0 l)) m x d).0);
          covers = λ x l' seen lane'. elim seen [
            | inl before ↦ inserted-Covered m r x l l' above (k.covers x l' before lane')
            | inr same ↦
                subst (λ y. Covered (insert leb_version l r m) l' y) (sym same)
                  (new-Covered m r l l' (
                    sym lane
                    ∙ ap (λ (y : LockedRelease). implicit_lane y.version) (sym same)
                    ∙ lane'))
          ];
          single =
              each-Elem (λ (x : Entry). get leb_version x.0 (insert leb_version l r m) ≡ some x.1)
                (l, r) rest (rw (same_lane_refl l) refl)
                (λ x d.
                  let (inside, apart) = keep-Elem (λ (x : Entry). not (same_lane x.0 l)) m x d in
                  let other = apart_lane l x.0 apart in
                  rw other (get-keep l x.0 m other ∙ k.single x inside));
        }

    raise-IsMaxima :
        (Seen : LockedRelease → Type 0) (m : Table) (r : LockedRelease) (l : CompatibilityLane)
        → Elem r locked
        → r.active ≡ true
        → implicit_lane r.version ≡ some l
        → IsMaxima Seen m
        → (previous : Option LockedRelease) → get leb_version l m ≡ previous
        → IsMaxima (With Seen r) (raise leb_version l r m previous)
    raise-IsMaxima Seen m r l e active lane k none got =
        insert-IsMaxima Seen m r l e active lane (λ q h. absurd (cc (h, got))) k
    raise-IsMaxima Seen m r l e active lane k (some p) got =
        elim (Bool-cases (leb_version r.version p.version)) [
          | inl below ↦ rw below (record {
            entries = k.entries;
            covers = λ x l' seen lane'. elim seen [
              | inl before ↦ k.covers x l' before lane'
              | inr same ↦
                  let lanes : l ≡ l' = some_inj.0 (
                    sym lane
                    ∙ ap (λ (y : LockedRelease). implicit_lane y.version) (sym same)
                    ∙ lane') in
                  (
                    p,
                    subst (λ j. get leb_version j m ≡ some p) lanes got,
                    subst (λ (y : LockedRelease). leb_version y.version p.version ≡ true) (sym same)
                        below,
                  )
            ];
            single = k.single;
          })
          | inr above ↦ rw above (
              insert-IsMaxima Seen m r l e active lane
                (λ q h.
                  subst (λ (y : LockedRelease). leb_version y.version r.version ≡ true)
                    (some_inj.0 (sym got ∙ h)) (o.total r.version p.version above))
                k)
        ]

    observe-IsMaxima :
        (Seen : LockedRelease → Type 0) (m : Table) (r : LockedRelease)
        → Elem r locked
        → r.active ≡ true
        → IsMaxima Seen m
        → (lane : Option CompatibilityLane) → implicit_lane r.version ≡ lane
        → IsMaxima (With Seen r) (observe leb_version r lane m)
    observe-IsMaxima Seen m r e active k none none' = record {
      entries = k.entries;
      covers = λ x l' seen lane'. elim seen [
        | inl before ↦ k.covers x l' before lane'
        | inr same ↦
            absurd (cc (lane', none', ap (λ (y : LockedRelease). implicit_lane y.version) same))
      ];
      single = k.single;
    }
    observe-IsMaxima Seen m r e active k (some l) lane =
        raise-IsMaxima Seen m r l e active lane k (get leb_version l m) refl

    -- The active releases of a list.
    abbrev pub Active : List LockedRelease → LockedRelease → Type 0
    Active rs x = Elem x rs × (x.active ≡ true)

    weaken :
        (Seen Seen' : LockedRelease → Type 0) (m : Table)
        → ((x : LockedRelease) → Seen' x → Seen x)
        → IsMaxima Seen m
        → IsMaxima Seen' m
    weaken Seen Seen' m fewer k = record {
      entries = k.entries;
      covers = λ x l seen lane. k.covers x l (fewer x seen) lane;
      single = k.single;
    }

    abbrev Unseen : LockedRelease → Type 0
    Unseen x = Elem x []

    later :
        (Seen : LockedRelease → Type 0) (r : LockedRelease) (rs : List LockedRelease)
        → (x : LockedRelease) → Seen x ⊎ Active (r ∷ rs) x
        → (Seen x ⊎ ((x ≡ r) × (x.active ≡ true))) ⊎ Active rs x
    later Seen r rs x (inl h) = inl (inl h)
    later Seen r rs x (inr (head, h)) = inl (inr (refl, h))
    later Seen r rs x (inr (tail e, h)) = inr (e, h)

    step-IsMaxima :
        (Seen : LockedRelease → Type 0) (m : Table) (r : LockedRelease)
        → Elem r locked
        → IsMaxima Seen m
        → (active : Bool) → r.active ≡ active
        → IsMaxima
            (λ x. Seen x ⊎ ((x ≡ r) × (x.active ≡ true)))
            (if active then observe leb_version r (implicit_lane r.version) m else m)
    step-IsMaxima Seen m r e k true is =
        weaken (With Seen r) (λ x. Seen x ⊎ ((x ≡ r) × (x.active ≡ true)))
          (observe leb_version r (implicit_lane r.version) m)
          (λ x s. elim s [ inl h ↦ inl h | inr h ↦ inr (h.0) ])
          (observe-IsMaxima Seen m r e is k (implicit_lane r.version) refl)
    step-IsMaxima Seen m r e k false is =
        weaken Seen (λ x. Seen x ⊎ ((x ≡ r) × (x.active ≡ true))) m
          (λ x s. elim s [
            | inl h ↦ h
            | inr h ↦ absurd (cc (h.1, is, ap (λ (y : LockedRelease). y.active) (h.0)))
          ])
          k

    active_maxima-IsMaxima :
        (Seen : LockedRelease → Type 0) (rs : List LockedRelease) (m : Table)
        → ((x : LockedRelease) → Elem x rs → Elem x locked)
        → IsMaxima Seen m
        → IsMaxima (λ x. Seen x ⊎ Active rs x) (active_maxima leb_version rs m)
    unfolding active_maxima
    active_maxima-IsMaxima Seen [] m within k =
        weaken Seen (λ x. Seen x ⊎ Active [] x) m
          (λ x s. elim s [ inl h ↦ h | inr h ↦ elim (h.0) [ ] ]) k
    active_maxima-IsMaxima Seen (r ∷ rs) m within k =
        let Next = λ (x : LockedRelease). Seen x ⊎ ((x ≡ r) × (x.active ≡ true)) in
        let m' = if r.active then observe leb_version r (implicit_lane r.version) m else m in
        weaken (λ x. Next x ⊎ Active rs x) (λ x. Seen x ⊎ Active (r ∷ rs) x)
          (active_maxima leb_version rs m') (λ x s. later Seen r rs x s)
          (active_maxima-IsMaxima Next rs m' (λ x e. within x (tail e))
            (step-IsMaxima Seen m r (within r head) k r.active refl))

    pub table-IsMaxima : IsMaxima (Active locked) (active_maxima leb_version locked [])
    table-IsMaxima =
        weaken (λ x. Unseen x ⊎ Active locked x) (Active locked)
          (active_maxima leb_version locked []) (λ x s. inr s)
          (active_maxima-IsMaxima Unseen locked [] (λ x e. e)
            (record {
              entries = λ x e. elim e [ ];
              covers = λ x l seen lane. elim seen [ ];
              single = λ x e. elim e [ ];
            }))
