-- ===== src/Manifest/Template.antt =====
-- The order and the identities of admission requests: rust/src/update/manifest.rs.
pub mod Entries
use pkgre.Prelude.{
  ◌≡◌, inl, inr, refl, sym, ap, ◌∙◌, arith, ℕ, [], ◌∷◌, List, Bytes, beq, beq→eq, beq_iff, Elem,
  head, tail, any, not, Bool, true, false, ◌&&◌, Option, none, some, Bool-cases, Result, ok, ok_inj,
  ensure, ◌>>=◌, ◌>>◌, map_err,
}
use pkgre.Category.{CategoryId, is_empty, to_string, from_str}
use pkgre.Release.{Version, leb_bytes, same_key}
use pkgre.Release.Order.{IsPreorder, bytes_antisym, same_key_sym}
use pkgre.Release.Lists.{each-Elem, any→Elem, IsSorted, sorted_nil, sorted_cons}
use pkgre.Policy.{validate_package_name}
use pkgre.Policy.Distinct.{Pairs}
use pkgre.Download.{lowercase, then_by}
use pkgre.Download.Order.{bytes-IsPreorder, then_by-IsPreorder}
use pkgre.Plan.Order.{package_identity}
use pkgre.Manifest.{
  AdmissionRequest, ManifestError, bad_package, same_target, same_request, target, leb_request,
  follows, check_target, validate_requests,
}

-- What a request of the template has.
pub record IsEntry (r : AdmissionRequest) (v : Version) : Type 0 where
  pub named : validate_package_name r.name ≡ ok tt
  pub placed : from_str (to_string r.category) ≡ ok r.category
  pub versioned : r.version ≡ some v
  pub released : is_empty v.build ≡ true
  pub untagged : r.tag ≡ none
  pub bare : r.evidence ≡ []

abbrev pub Apart : AdmissionRequest → AdmissionRequest → Type 0
Apart a b = same_request a b ≡ false

same_target_sym :
    (v : Option Version) (s : Option Bytes) (w : Option Version) (t : Option Bytes)
    → same_target v s w t ≡ true
    → same_target w t v s ≡ true
same_target_sym (some v) none (some w) none h = same_key_sym v w h
same_target_sym none (some s) none (some t) h = (beq_iff t s).1 (sym (beq→eq s t h))
same_target_sym (some v) (some s) w t h = absurd (cc)
same_target_sym none none w t h = absurd (cc)
same_target_sym (some v) none (some w) (some t) h = absurd (cc)
same_target_sym (some v) none none t h = absurd (cc)
same_target_sym none (some s) (some w) t h = absurd (cc)
same_target_sym none (some s) none none h = absurd (cc)

same_request_sym : (a b : AdmissionRequest) → same_request a b ≡ true → same_request b a ≡ true
unfolding same_request
same_request_sym a b h =
    let registry : beq b.category.registry a.category.registry ≡ true =
      (beq_iff _ _).1 (sym (beq→eq a.category.registry b.category.registry (ground arith))) in
    let name : beq (package_identity b.name) (package_identity a.name) ≡ true =
      (beq_iff _ _).1
        (sym (beq→eq (package_identity a.name) (package_identity b.name) (ground arith))) in
    let targets = same_target_sym a.version a.tag b.version b.tag (ground arith) in ground arith

pub Apart-sym : (a b : AdmissionRequest) → Apart a b → Apart b a
Apart-sym a b h = elim (Bool-cases (same_request b a)) [
  | inl found ↦ absurd (ground (arith, same_request_sym b a found))
  | inr free ↦ free
]

module _ (leb_version : Version → Version → Bool) (version_text : Version → Bytes) where
  pub leb_request-IsPreorder : IsPreorder (leb_request leb_version version_text)
  unfolding leb_request
  leb_request-IsPreorder =
      then_by-IsPreorder _ _ (bytes-IsPreorder (λ (r : AdmissionRequest). to_string r.category)) (
        then_by-IsPreorder _ _ (bytes-IsPreorder (λ (r : AdmissionRequest). lowercase r.name)) (
          then_by-IsPreorder _ _ (bytes-IsPreorder (λ (r : AdmissionRequest). r.name)) (
            bytes-IsPreorder
              (λ (r : AdmissionRequest). target leb_version version_text r.version r.tag))))

  module _
      (text_key : (v w : Version) → version_text v ≡ version_text w → same_key v w ≡ true) where
    -- Two entries that are in order both ways are one identity.
    pub both_ways :
        (a b : AdmissionRequest) (v w : Version)
        → IsEntry a v
        → IsEntry b w
        → leb_request leb_version version_text a b ≡ true
        → leb_request leb_version version_text b a ≡ true
        → same_request a b ≡ true
    unfolding leb_request same_request
    both_ways a b v w p q h k =
        let category =
          bytes_antisym (to_string a.category) (to_string b.category) (ground arith)
            (ground arith) in
        let name = bytes_antisym a.name b.name (ground arith) (ground arith) in
        let text =
          bytes_antisym (target leb_version version_text a.version a.tag)
            (target leb_version version_text b.version b.tag) (ground arith) (ground arith) in
        let registry : a.category.registry ≡ b.category.registry =
          ap (λ (c : CategoryId). c.registry)
            (ok_inj (sym p.placed ∙ ap from_str category ∙ q.placed)) in
        let texts : version_text v ≡ version_text w =
          ap (λ x. target leb_version version_text x a.tag) (sym p.versioned)
          ∙ text
          ∙ ap (λ x. target leb_version version_text x b.tag) q.versioned in
        rw
          (
            p.versioned,
            p.untagged,
            q.versioned,
            q.untagged,
            (beq_iff _ _).1 registry,
            (beq_iff _ _).1 (ap package_identity name),
            text_key v w texts,
          )
          refl
