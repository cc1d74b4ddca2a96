-- ===== src/Plan/Order.antt =====
-- The derived equalities and orders of the records of an update plan: rust/src/update/plan.rs and
-- the dependency of rust/src/index.rs.
use pkgre.Prelude.{
  ℕ, [], ◌∷◌, List, Bytes, beq, any, leb, ◌==◌, Bool, true, false, not, ◌&&◌, ◌||◌, Option, none,
  some, if◌then◌else◌,
}
use pkgre.Release.{
  Version, PackageActivity, new_name, inactive_name, active_name, leb_bytes, same_key,
}
use pkgre.Policy.{package_collision_key}
use pkgre.Download.{then_by, lowercase}
use pkgre.Plan.{
  IndexDependency, DecisionReason, UpdateDecision, new_package, inactive_revival, dormant_wakeup,
  new_dependency, build_surface_change, publisher_discontinuity, repository_discontinuity,
  unknown_dependency_home, forbidden_category_dependency, source_unavailable, source_mismatch,
  explicit_candidate, automatic, review_required, blocked,
}

-- `windows(2).all(|window| window[0] < window[1])`, of an order `lt`.
abbrev pub increasing {ℓ} : {A : Type ℓ} → (A → A → Bool) → List A → Bool
increasing lt [] = true
increasing lt (x ∷ []) = true
increasing lt (x ∷ y ∷ xs) = lt x y && increasing lt (y ∷ xs)

abbrev pub before : Bytes → Bytes → Bool
before a b = not (leb_bytes b a)

-- The equality of two tests.
abbrev pub same_flag : Bool → Bool → Bool
same_flag true b = b
same_flag false b = not b

abbrev pub same_option {ℓ} : {A : Type ℓ} → (A → A → Bool) → Option A → Option A → Bool
same_option same none none = true
same_option same none (some b) = false
same_option same (some a) none = false
same_option same (some a) (some b) = same a b

abbrev pub is_some {ℓ} : {A : Type ℓ} → Option A → Bool
is_some none = false
is_some (some a) = true

-- The equality of two build surfaces, both in the order of their keys.
abbrev pub same_surface : List (Bytes × Bytes) → List (Bytes × Bytes) → Bool
same_surface [] [] = true
same_surface [] (y ∷ ys) = false
same_surface (x ∷ xs) [] = false
same_surface ((p, h) ∷ xs) ((q, k) ∷ ys) = beq p q && beq h k && same_surface xs ys

-- The equality of versions, build metadata included.
abbrev pub equal_version : Version → Version → Bool
equal_version a b = same_key a b && beq a.build b.build

abbrev pub activity_rank : PackageActivity → ℕ
activity_rank new_name = 0
activity_rank inactive_name = 1
activity_rank active_name = 2

abbrev pub same_activity : PackageActivity → PackageActivity → Bool
same_activity a b = activity_rank a == activity_rank b

-- The position of a reason in its declaration, which is its derived order.
abbrev pub reason_rank : DecisionReason → ℕ
reason_rank new_package = 0
reason_rank inactive_revival = 1
reason_rank dormant_wakeup = 2
reason_rank new_dependency = 3
reason_rank build_surface_change = 4
reason_rank publisher_discontinuity = 5
reason_rank repository_discontinuity = 6
reason_rank unknown_dependency_home = 7
reason_rank forbidden_category_dependency = 8
reason_rank source_unavailable = 9
reason_rank source_mismatch = 10
reason_rank explicit_candidate = 11

abbrev pub before_reason : DecisionReason → DecisionReason → Bool
before_reason a b = not (leb (reason_rank b) (reason_rank a))

-- `reasons.contains(&reason)`.
abbrev pub contains_reason : DecisionReason → List DecisionReason → Bool
contains_reason reason reasons = any (λ r. reason_rank reason == reason_rank r) reasons

abbrev pub decision_rank : UpdateDecision → ℕ
decision_rank automatic = 0
decision_rank review_required = 1
decision_rank blocked = 2

abbrev pub leb_list {ℓ} : {A : Type ℓ} → (A → A → Bool) → List A → List A → Bool
leb_list le [] ys = true
leb_list le (x ∷ xs) [] = false
leb_list le (x ∷ xs) (y ∷ ys) = if le y x then le x y && leb_list le xs ys else le x y

abbrev pub leb_option {ℓ} : {A : Type ℓ} → (A → A → Bool) → Option A → Option A → Bool
leb_option le none b = true
leb_option le (some a) none = false
leb_option le (some a) (some b) = le a b

abbrev pub leb_flag : Bool → Bool → Bool
leb_flag a b = not a || b

-- The derived order of dependencies: their fields, in the order of the declaration.
unfoldable pub leb_dependency : IndexDependency → IndexDependency → Bool
leb_dependency =
    then_by (λ a b. leb_bytes a.name b.name)
      (then_by (λ a b. leb_bytes a.package_name b.package_name)
        (then_by (λ a b. leb_bytes a.requirement b.requirement)
          (then_by (λ a b. leb_list leb_bytes a.features b.features)
            (then_by (λ a b. leb_flag a.optional b.optional)
              (then_by (λ a b. leb_flag a.default_features b.default_features)
                (then_by (λ a b. leb_option leb_bytes a.target b.target)
                  (then_by (λ a b. leb_bytes a.kind b.kind)
                    (λ a b. leb_option leb_bytes a.registry b.registry))))))))

unfoldable pub before_dependency : IndexDependency → IndexDependency → Bool
unfolding leb_dependency
before_dependency a b = not (leb_dependency b a)

-- `package_order(a) < package_order(b)`.
unfoldable pub before_package : Bytes → Bytes → Bool
before_package a b =
    if leb_bytes (lowercase b) (lowercase a)
    then leb_bytes (lowercase a) (lowercase b) && before a b
    else true

-- `package_identity`.
unfoldable pub package_identity : Bytes → Bytes
unfolding package_collision_key
package_identity value = package_collision_key value
