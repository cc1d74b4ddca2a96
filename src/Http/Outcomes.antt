-- ===== src/Http/Outcomes.antt =====
-- That `evaluate_request` of rust/src/http_response.rs always answers, and with which status.
use mathlib.Core.Path.{subst}
use mathlib.Core.Option.{some_inj}
use pkgre.Prelude.{
  ℕ, ◌≡◌, ◌≢◌, ◌⊎◌, inl, inr, refl, sym, ap, ◌∙◌, [], ◌∷◌, Bytes, codes, All, beq, beq→eq, Bool,
  true, false, Option, none, some, ok, ensure, >>=-eq-ok, ok_inj, arith, Bool-cases,
}
use pkgre.Projection.{ProjectedRepresentation, ProjectedResponse}
use pkgre.RequestTarget.{CanonicalRequestTarget, parse}
use pkgre.RequestTarget.Safe.{parse-IsCanonicalTarget}
use pkgre.Http.{
  ApplicationResponse, PreparedRoute, Routes, get, respond, too_large, entity_tag,
  application_error, method_head, dispatch, evaluate_method, evaluate_target, evaluate_request,
  from_projected, fits,
}

-- A projected response as its constructors in the source make it: inline bytes are metadata.
abbrev pub IsServable : ProjectedResponse → Type 0
IsServable (ProjectedResponse.inline body shown) = shown ≢ ProjectedRepresentation.redirect
IsServable (ProjectedResponse.archive body sha256) = Unit
IsServable (ProjectedResponse.redirect destination) = Unit

abbrev is_redirect : ProjectedResponse → Bool
is_redirect (ProjectedResponse.redirect destination) = true
is_redirect _ = false

-- A route that was prepared from a response.
abbrev pub Prepares : (Bytes → Bytes) → PreparedRoute → Bool → Type 0
Prepares digest route redirects =
    (response : ProjectedResponse) × IsServable response
    × (is_redirect response ≡ redirects)
    × (from_projected digest response ≡ ok route)

abbrev pub AllPrepared : (Bytes → Bytes) → Routes → Type 0
AllPrepared digest routes =
    All (λ (entry : Bytes × PreparedRoute). (redirects : Bool) × Prepares digest entry.1 redirects)
      routes

-- The target is canonical and the method is one that reads: the request reaches the routes.
abbrev pub Reaches : Bytes → Bytes → Type 0
Reaches raw method =
    (target : CanonicalRequestTarget) × (parse raw ≡ some target)
    × ((method ≡ codes "GET") ⊎ (method ≡ codes "HEAD"))

-- The status of an answer, with what it means.
pub data Outcome (digest : Bytes → Bytes) (routes : Routes) (raw method : Bytes) : ℕ → Type 0 where
  bad_request : parse raw ≡ none → Outcome digest routes raw method 400
  not_allowed :
      (target : CanonicalRequestTarget)
      → parse raw ≡ some target
      → method ≢ codes "GET"
      → method ≢ codes "HEAD"
      → Outcome digest routes raw method 405
  not_found : Reaches raw method → get routes raw ≡ none → Outcome digest routes raw method 404
  redirected :
      (route : PreparedRoute)
      → Reaches raw method
      → get routes raw ≡ some route
      → Prepares digest route true
      → Outcome digest routes raw method 302
  served :
      (route : PreparedRoute)
      → Reaches raw method
      → get routes raw ≡ some route
      → Prepares digest route false
      → Outcome digest routes raw method 200

-- A request is answered, with a status.
abbrev pub Answers : Option ApplicationResponse → (ℕ → Type 0) → Type 0
Answers reply P = (answer : ApplicationResponse) × (reply ≡ some answer) × P answer.status

abbrev status_of : Bool → ℕ
status_of true = 302
status_of false = 200

-- A route with a body, whatever its metadata.
abbrev bodied : ProjectedRepresentation → Bytes → Bytes → PreparedRoute
bodied shown body tag = record {
  representation = shown;
  body = some body;
  entity_tag = some tag;
  location = none;
}

bodied_answers :
    (head : Bool) (shown : ProjectedRepresentation) (body tag : Bytes)
    → shown ≢ ProjectedRepresentation.redirect
    → Answers (respond (bodied shown body tag) head) (λ status. status ≡ 200)
unfolding respond
bodied_answers head ProjectedRepresentation.metadata_json body tag n = (_, refl, refl)
bodied_answers head ProjectedRepresentation.metadata_text body tag n = (_, refl, refl)
bodied_answers head ProjectedRepresentation.archive body tag n = (_, refl, refl)
bodied_answers head ProjectedRepresentation.redirect body tag n = absurd (n refl)

-- What the prepared route answers, by the response that it was prepared from.
Replies : PreparedRoute → Bool → ProjectedResponse → Type 0
Replies route head response =
    Answers (respond route head) (λ status. status ≡ status_of (is_redirect response))

prepared_answers :
    (digest : Bytes → Bytes) (response : ProjectedResponse) (route : PreparedRoute) (head : Bool)
    → IsServable response
    → from_projected digest response ≡ ok route
    → Replies route head response
unfolding from_projected Replies respond
prepared_answers digest (ProjectedResponse.inline body shown) route head n h =
    let (u, _, e) =
      >>=-eq-ok (ensure (fits body) too_large)
        (λ _. ok (bodied shown body (entity_tag digest body))) h in
    subst (λ r. Replies r head (ProjectedResponse.inline body shown)) (ok_inj e)
      (bodied_answers head shown body (entity_tag digest body) n)
prepared_answers digest (ProjectedResponse.archive body sha256) route head n h =
    let (u, _, e) =
      >>=-eq-ok (ensure (fits body) too_large)
        (λ _. ok (bodied ProjectedRepresentation.archive body (entity_tag digest body))) h in
    subst (λ r. Replies r head (ProjectedResponse.archive body sha256)) (ok_inj e)
      (bodied_answers head ProjectedRepresentation.archive body (entity_tag digest body) (λ x. cc))
prepared_answers digest (ProjectedResponse.redirect destination) route head n h =
    subst (λ r. Replies r head (ProjectedResponse.redirect destination)) (ok_inj h) (_, refl, refl)

get_prepared :
    (digest : Bytes → Bytes) (routes : Routes) (path : Bytes) (route : PreparedRoute)
    → AllPrepared digest routes
    → get routes path ≡ some route
    → (redirects : Bool) × Prepares digest route redirects
unfolding get
get_prepared digest [] path route h e = absurd (cc)
get_prepared digest ((key, first) ∷ routes) path route h e = elim (Bool-cases (beq key path)) [
  | inl here ↦
      let same : first ≡ route = some_inj.0 (ground (arith, e)) in
      subst (λ r. (redirects : Bool) × Prepares digest r redirects) same h.0
  | inr later ↦ get_prepared digest routes path route h.1 (ground (arith, e))
]

route-Outcome :
    (digest : Bytes → Bytes) (routes : Routes) (raw method : Bytes) (route : PreparedRoute)
    (redirects : Bool)
    → Reaches raw method
    → get routes raw ≡ some route
    → Prepares digest route redirects
    → Outcome digest routes raw method (status_of redirects)
route-Outcome digest routes raw method route true r g p = redirected route r g p
route-Outcome digest routes raw method route false r g p = served route r g p

route_answers :
    (digest : Bytes → Bytes) (routes : Routes) (raw method : Bytes) (route : PreparedRoute)
    (redirects head : Bool)
    → Reaches raw method
    → get routes raw ≡ some route
    → Prepares digest route redirects
    → Answers (respond route head) (Outcome digest routes raw method)
unfolding Replies
route_answers digest routes raw method route redirects head r g p =
    let (response, servable, kind, made) = p in
    let (answer, e, status) = prepared_answers digest response route head servable made in
    (
      answer,
      e,
      subst (Outcome digest routes raw method) (sym (status ∙ ap status_of kind))
          (route-Outcome digest routes raw method route redirects r g p),
    )

dispatch_answers :
    (digest : Bytes → Bytes) (routes : Routes) (raw method : Bytes) (found : Option PreparedRoute)
    (head : Bool)
    → AllPrepared digest routes
    → Reaches raw method
    → get routes raw ≡ found
    → Answers (dispatch found head) (Outcome digest routes raw method)
unfolding dispatch application_error
dispatch_answers digest routes raw method none head all_prepared r g = (_, refl, not_found r g)
dispatch_answers digest routes raw method (some route) head all_prepared r g =
    let (redirects, p) = get_prepared digest routes raw route all_prepared g in
    route_answers digest routes raw method route redirects head r g p

method_known :
    (method : Bytes) (head : Bool)
    → method_head method ≡ some head
    → (method ≡ codes "GET") ⊎ (method ≡ codes "HEAD")
unfolding method_head
method_known method head h = elim (Bool-cases (beq method (codes "GET"))) [
  | inl get ↦ inl (beq→eq method (codes "GET") get)
  | inr other ↦ inr (beq→eq method (codes "HEAD") (ground arith))
]

method_unknown :
    (method : Bytes) → method_head method ≡ none → (method ≢ codes "GET") × (method ≢ codes "HEAD")
unfolding method_head
method_unknown method h =
    (λ e. absurd (cc (ap method_head e, h)), λ e. absurd (cc (ap method_head e, h)))

method_answers :
    (digest : Bytes → Bytes) (routes : Routes) (raw method : Bytes)
    (target : CanonicalRequestTarget) (head : Option Bool)
    → AllPrepared digest routes
    → parse raw ≡ some target
    → method_head method ≡ head
    → Answers (evaluate_method target head routes) (Outcome digest routes raw method)
unfolding evaluate_method application_error
method_answers digest routes raw method target none all_prepared p m =
    let (not_get, not_head) = method_unknown method m in
    (_, refl, not_allowed target p not_get not_head)
method_answers digest routes raw method target (some head) all_prepared p m =
    dispatch_answers digest routes raw method (get routes target.path) head all_prepared
      (target, p, method_known method head m)
      (ap (get routes) (sym (parse-IsCanonicalTarget raw target p).0))

target_answers :
    (digest : Bytes → Bytes) (routes : Routes) (raw method : Bytes)
    (target : Option CanonicalRequestTarget)
    → AllPrepared digest routes
    → parse raw ≡ target
    → Answers (evaluate_target target method routes) (Outcome digest routes raw method)
unfolding evaluate_target application_error
target_answers digest routes raw method none all_prepared p = (_, refl, bad_request p)
target_answers digest routes raw method (some target) all_prepared p =
    method_answers digest routes raw method target _ all_prepared p refl

-- If every route was prepared from a projected response, then each request is answered, without a
-- panic. The status is 400 exactly for a target that is not canonical. For a canonical target it is
-- 405 exactly for a method other than GET and HEAD. For a canonical target and GET or HEAD it is 404
-- without a route of the path, 302 for a route that was prepared from a redirect, and 200 for any
-- other route.
pub evaluate_request-Answers :
    (digest : Bytes → Bytes) (routes : Routes) (raw method : Bytes)
    → AllPrepared digest routes
    → Answers (evaluate_request raw method routes) (Outcome digest routes raw method)
unfolding evaluate_request
evaluate_request-Answers digest routes raw method all_prepared =
    target_answers digest routes raw method (parse raw) all_prepared refl
