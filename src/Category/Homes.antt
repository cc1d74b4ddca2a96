-- ===== src/Category/Homes.antt =====
-- Which schema-2 homes `category_for_v2_home` of rust/src/category.rs maps, and to what.
use mathlib.Core.Path.{subst}
use pkgre.Prelude.{
  ◌≡◌, ◌≢◌, ◌↔◌, ◌⊎◌, inl, inr, refl, sym, ap, ◌∙◌, [], ◌∷◌, List, Bytes, codes, All, Elem, head,
  tail, All-elem, beq, beq→eq, beq_iff, split, true, false, ok, Bool-cases,
}
use pkgre.Category.{CategoryId, core_local, validate, from_str, category_for_v2_home}

-- The packages of `core` with a category of their own, and the text of that category.
abbrev pub core_table : List (Bytes × Bytes)
core_table =
    (codes "agent-client-protocol", codes "universe/acp")
    ∷ (codes "agent-client-protocol-derive", codes "universe/acp")
    ∷ (codes "agent-client-protocol-schema", codes "universe/acp")
    ∷ (codes "notify", codes "universe/filesystem")
    ∷ (codes "notify-types", codes "universe/filesystem")
    ∷ (codes "rmcp", codes "universe/mcp")
    ∷ (codes "rmcp-macros", codes "universe/mcp")
    ∷ (codes "eventsource-stream", codes "universe/sse")
    ∷ (codes "sse-stream", codes "universe/sse")
    ∷ (codes "atty", codes "universe/terminal")
    ∷ (codes "portable-pty", codes "universe/terminal")
    ∷ (codes "serde_yaml", codes "universe/yaml")
    ∷ (codes "serde_yaml_ng", codes "universe/yaml")
    ∷ []

abbrev pub IsListed : List (Bytes × Bytes) → Bytes → Type 0
IsListed table name = (text : Bytes) × Elem (name, text) table

-- The text of the category of a home of schema 2.
pub data Assigned (registry name text : Bytes) : Type 0 where
  matrix : registry ≡ codes "matrix" → text ≡ codes "universe/matrix" → Assigned registry name text
  indexer :
      registry ≡ codes "pkgre"
      → name ≡ codes "pkgre-indexer"
      → text ≡ codes "pkgre/tooling"
      → Assigned registry name text
  listed : registry ≡ codes "core" → Elem (name, text) core_table → Assigned registry name text
  unlisted :
      registry ≡ codes "core"
      → ¬ IsListed core_table name
      → text ≡ codes "universe/general"
      → Assigned registry name text

-- The home is mapped to the category that the text names.
abbrev Meets : Bytes → Bytes → Bytes → Type 0
Meets registry name text =
    (id : CategoryId) × (category_for_v2_home registry name ≡ ok id) × (from_str text ≡ ok id)

matrix-Meets : (name : Bytes) → Meets (codes "matrix") name (codes "universe/matrix")
unfolding category_for_v2_home from_str validate split
matrix-Meets name = (_, refl, refl)

indexer-Meets : Meets (codes "pkgre") (codes "pkgre-indexer") (codes "pkgre/tooling")
unfolding category_for_v2_home from_str validate split
indexer-Meets = (_, refl, refl)

table-Meets : All (λ entry. Meets (codes "core") entry.0 entry.1) core_table
unfolding category_for_v2_home from_str validate split core_local
table-Meets = (
  (_, refl, refl),
  (
    (_, refl, refl),
    (
      (_, refl, refl),
      (
        (_, refl, refl),
        (
          (_, refl, refl),
          (
            (_, refl, refl),
            (
              (_, refl, refl),
              (
                (_, refl, refl),
                (
                  (_, refl, refl),
                  ((_, refl, refl), ((_, refl, refl), ((_, refl, refl), ((_, refl, refl), tt)))),
                ),
              ),
            ),
          ),
        ),
      ),
    ),
  ),
)

-- No entry of the table is about the name.
abbrev IsAbsent : List (Bytes × Bytes) → Bytes → Type 0
IsAbsent table name = All (λ entry. beq name entry.0 ≡ false) table

look_up : (table : List (Bytes × Bytes)) (name : Bytes) → IsListed table name ⊎ IsAbsent table name
look_up [] name = inr tt
look_up ((key, text) ∷ table) name = elim (Bool-cases (beq name key)) [
  | inl same ↦
      let e = beq→eq name key same in
      inl (text, subst (λ k. Elem (name, text) ((k, text) ∷ table)) e head)
  | inr other ↦ elim (look_up table name) [
    | inl found ↦ inl (found.0, tail found.1)
    | inr absent ↦ inr (other, absent)
  ]
]

absent_unlisted :
    (table : List (Bytes × Bytes)) (name : Bytes) → IsAbsent table name → ¬ IsListed table name
absent_unlisted table name absent found =
    let none_equal : beq name name ≡ false = All-elem _ (name, found.0) table absent found.1 in
    absurd (cc (none_equal, (beq_iff name name).1 refl))

absent_general : (name : Bytes) → IsAbsent core_table name → core_local name ≡ codes "general"
unfolding core_local
absent_general name (a, (b, (c, (d, (e, (f, (g, (i, (j, (k, (l, (m, (n, _))))))))))))) =
    rw (a, b, c, d, e, f, g, i, j, k, l, m, n) refl

absent-Meets :
    (name : Bytes) → IsAbsent core_table name → Meets (codes "core") name (codes "universe/general")
unfolding category_for_v2_home from_str validate split
absent-Meets name h = (_, rw (absent_general name h) refl, refl)

-- The text of the category that the home is mapped to.
abbrev pub Names : Bytes → Bytes → CategoryId → Type 0
Names registry name id = (text : Bytes) × Assigned registry name text × (from_str text ≡ ok id)

core_sound :
    (name : Bytes) (id : CategoryId)
    → category_for_v2_home (codes "core") name ≡ ok id
    → Names (codes "core") name id
core_sound name id h = elim (look_up core_table name) [
  | inl found ↦
      let (made, mapped, read) =
        All-elem (λ entry. Meets (codes "core") entry.0 entry.1) (name, found.0) core_table
          table-Meets found.1 in
      (found.0, listed refl found.1, cc)
  | inr absent ↦
      let (made, mapped, read) = absent-Meets name absent in
      (_, unlisted refl (absent_unlisted core_table name absent) refl, cc)
]

other_unmapped :
    (name : Bytes) (id : CategoryId)
    → beq name (codes "pkgre-indexer") ≡ false
    → category_for_v2_home (codes "pkgre") name ≢ ok id
unfolding category_for_v2_home
other_unmapped name id n h = absurd (cc (n, h))

unknown_unmapped :
    (registry name : Bytes) (id : CategoryId)
    → beq registry (codes "matrix") ≡ false
    → beq registry (codes "pkgre") ≡ false
    → beq registry (codes "core") ≡ false
    → category_for_v2_home registry name ≢ ok id
unfolding category_for_v2_home
unknown_unmapped registry name id m p c h = absurd (cc (m, p, c, h))

matrix_sound :
    (name : Bytes) (id : CategoryId)
    → category_for_v2_home (codes "matrix") name ≡ ok id
    → Names (codes "matrix") name id
matrix_sound name id h = let (made, mapped, read) = matrix-Meets name in (_, matrix refl refl, cc)

pkgre_sound :
    (name : Bytes) (id : CategoryId)
    → category_for_v2_home (codes "pkgre") name ≡ ok id
    → Names (codes "pkgre") name id
pkgre_sound name id h = elim (Bool-cases (beq name (codes "pkgre-indexer"))) [
  | inl n ↦
      let e = beq→eq name (codes "pkgre-indexer") n in
      let (made, mapped, read) = indexer-Meets in
      let h' = ap (category_for_v2_home (codes "pkgre")) (sym e) ∙ h in
      (_, indexer refl e refl, cc (mapped, read, h'))
  | inr n ↦ absurd (other_unmapped name id n h)
]

-- From a registry of the match to any registry that is equal to it.
move_sound :
    (known registry name : Bytes) (id : CategoryId)
    → beq registry known ≡ true
    → category_for_v2_home registry name ≡ ok id
    → (category_for_v2_home known name ≡ ok id → Names known name id)
    → Names registry name id
move_sound known registry name id same h sound =
    let e = beq→eq registry known same in
    subst (λ r. Names r name id) (sym e) (sound (ap (λ r. category_for_v2_home r name) (sym e) ∙ h))

home_sound :
    (registry name : Bytes) (id : CategoryId)
    → category_for_v2_home registry name ≡ ok id
    → Names registry name id
home_sound registry name id h = elim (Bool-cases (beq registry (codes "matrix"))) [
  | inl m ↦ move_sound (codes "matrix") registry name id m h (matrix_sound name id)
  | inr m ↦ elim (Bool-cases (beq registry (codes "pkgre"))) [
    | inl p ↦ move_sound (codes "pkgre") registry name id p h (pkgre_sound name id)
    | inr p ↦ elim (Bool-cases (beq registry (codes "core"))) [
      | inl c ↦ move_sound (codes "core") registry name id c h (core_sound name id)
      | inr c ↦ absurd (unknown_unmapped registry name id m p c h)
    ]
  ]
]

unlisted-IsAbsent : (name : Bytes) → ¬ IsListed core_table name → IsAbsent core_table name
unlisted-IsAbsent name missing = elim (look_up core_table name) [
  | inl found ↦ absurd (missing found)
  | inr absent ↦ absent
]

Assigned-Meets :
    (registry name text : Bytes) → Assigned registry name text → Meets registry name text
Assigned-Meets registry name text (matrix r t) =
    subst (λ x. Meets x name text) (sym r)
      (subst (Meets (codes "matrix") name) (sym t) (matrix-Meets name))
Assigned-Meets registry name text (indexer r n t) =
    subst (λ x. Meets x name text) (sym r)
      (subst (λ x. Meets (codes "pkgre") x text) (sym n)
        (subst (Meets (codes "pkgre") (codes "pkgre-indexer")) (sym t) indexer-Meets))
Assigned-Meets registry name text (listed r at) =
    subst (λ x. Meets x name text) (sym r)
      (All-elem (λ entry. Meets (codes "core") entry.0 entry.1) (name, text) core_table table-Meets
        at)
Assigned-Meets registry name text (unlisted r missing t) =
    subst (λ x. Meets x name text) (sym r)
      (subst (Meets (codes "core") name) (sym t)
        (absent-Meets name (unlisted-IsAbsent name missing)))

home_complete :
    (registry name : Bytes) (id : CategoryId)
    → Names registry name id
    → category_for_v2_home registry name ≡ ok id
home_complete registry name id (text, assigned, read) =
    let (made, mapped, made_read) = Assigned-Meets registry name text assigned in cc

-- A schema-2 home is mapped to a category exactly if the home is assigned a text that is read as that
-- category. Every package of `matrix` is assigned
-- `universe/matrix`; of `pkgre` only `pkgre-indexer` is assigned a text, `pkgre/tooling`; a package
-- of `core` is assigned the text beside its name in the table, and `universe/general` if no entry
-- of the table has its name; a package of any other registry is assigned none.
pub category_for_v2_home_iff :
    (registry name : Bytes) (id : CategoryId)
    → (category_for_v2_home registry name ≡ ok id) ↔ Names registry name id
category_for_v2_home_iff registry name id =
    (home_sound registry name id, home_complete registry name id)
