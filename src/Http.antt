-- ===== src/Http.antt =====
-- The HTTP policy of rust/src/http_response.rs: prepared routes and the answer to a request. An
-- answer that needs an `expect` to hold is an `Option`, `none` for the panic. SHA-256, in
-- lower case hexadecimal, is the parameter `sha256_bytes`.
pub mod Decimal
pub mod Outcomes
pub mod Replies
use mathlib.Core.Option
use pkgre.Prelude.{
  ℕ, ◌^◌, [], ◌∷◌, ◌++◌, List, Bytes, codes, length, beq, ltb, Bool, true, false, if◌then◌else◌,
  Option, none, some, Result, ok, err, ensure, ◌>>◌, map,
}
use pkgre.Projection
use pkgre.Projection.{
  ProjectedRepresentation, ProjectedResponse, representation, shared_body, redirect_destination,
  location,
}
use pkgre.RequestTarget.{CanonicalRequestTarget, parse}
use pkgre.Http.Decimal.{to_string}

pub record ResponseHeader : Type 0 where
  pub name : Bytes
  pub value : Bytes

pub record ApplicationResponse : Type 0 where
  pub status : ℕ
  pub headers : List ResponseHeader
  pub body : Option Bytes

pub record PreparedRoute : Type 0 where
  pub representation : ProjectedRepresentation
  pub body : Option Bytes
  pub entity_tag : Option Bytes
  pub location : Option Bytes

abbrev pub header : Bytes → Bytes → ResponseHeader
header name value = record { name = name; value = value }

-- `u64::try_from(body.len())` with its context.
pub data TooLarge : Type 0 where
  too_large : TooLarge

abbrev pub fits : Bytes → Bool
fits body = ltb (length body) (2 ^ 64)

module _ (sha256_bytes : Bytes → Bytes) where
  unfoldable pub entity_tag : Bytes → Bytes
  entity_tag body = codes "\"sha256:" ++ sha256_bytes body ++ codes "\""

  -- `PreparedRoute::from_projected`, behind the read of the body.
  unfoldable pub prepare : ProjectedResponse → Option Bytes → Result TooLarge PreparedRoute
  prepare response (some body) = do
    ensure (fits body) too_large
    ok (record {
      representation = representation response;
      body = some body;
      entity_tag = some (entity_tag body);
      location = none;
    })
  prepare response none = ok (record {
    representation = representation response;
    body = none;
    entity_tag = none;
    location = Option.map location (redirect_destination response);
  })

  unfoldable pub from_projected : ProjectedResponse → Result TooLarge PreparedRoute
  unfolding prepare representation shared_body redirect_destination
  from_projected response = prepare response (shared_body response)

  unfoldable pub from_archive_body : Bytes → Result TooLarge PreparedRoute
  from_archive_body body = do
    ensure (fits body) too_large
    ok (record {
      representation = ProjectedRepresentation.archive;
      body = some body;
      entity_tag = some (entity_tag body);
      location = none;
    })

-- `application_error`.
unfoldable pub application_error : ℕ → Bool → ApplicationResponse
application_error status include_allow = record {
  status = status;
  headers =
      (if include_allow then header (codes "Allow") (codes "GET, HEAD") ∷ [] else [])
      ++ (header (codes "Cache-Control") (codes "no-store")
          ∷ header (codes "Content-Length") (codes "0")
          ∷ []);
  body = none;
}

-- The answer of a route with a body, by the two values that its representation chooses.
unfoldable pub respond_body :
    Bool → Bytes → Bytes → Option Bytes → Option Bytes → Option ApplicationResponse
respond_body head cache_control content_type (some body) (some entity_tag) = some (record {
  status = 200;
  headers =
      header (codes "Cache-Control") cache_control
      ∷ header (codes "Content-Length") (to_string (length body))
      ∷ header (codes "Content-Type") content_type
      ∷ header (codes "ETag") entity_tag
      ∷ [];
  body = if head then none else some body;
})
respond_body head cache_control content_type _ _ = none

unfoldable pub respond_redirect : Option Bytes → Option ApplicationResponse
respond_redirect none = none
respond_redirect (some location) = some (record {
  status = 302;
  headers =
      header (codes "Cache-Control") (codes "no-store")
      ∷ header (codes "Content-Length") (codes "0")
      ∷ header (codes "Location") location
      ∷ [];
  body = none;
})

abbrev pub metadata_cache : Bytes
metadata_cache = codes "public, max-age=60, must-revalidate"

-- The match of `respond` on the representation.
unfoldable pub respond_as :
    ProjectedRepresentation → PreparedRoute → Bool → Option ApplicationResponse
unfolding respond_body respond_redirect
respond_as ProjectedRepresentation.redirect route head = respond_redirect route.location
respond_as ProjectedRepresentation.metadata_json route head =
    respond_body head metadata_cache (codes "application/json; charset=utf-8") route.body
      route.entity_tag
respond_as ProjectedRepresentation.metadata_text route head =
    respond_body head metadata_cache (codes "text/plain; charset=utf-8") route.body route.entity_tag
respond_as ProjectedRepresentation.archive route head =
    respond_body head (codes "public, max-age=31536000, immutable")
      (codes "application/octet-stream") route.body route.entity_tag

-- `PreparedRoute::respond`.
unfoldable pub respond : PreparedRoute → Bool → Option ApplicationResponse
unfolding respond_as
respond route head = respond_as route.representation route head

-- The route map: its keys are different, so the first entry of a key is the only one.
abbrev pub Routes : Type 0
Routes = List (Bytes × PreparedRoute)

unfoldable pub get : Routes → Bytes → Option PreparedRoute
get [] path = none
get ((key, route) ∷ routes) path =
    let rest = get routes path in if beq key path then some route else rest

-- The match on the method.
unfoldable pub method_head : Bytes → Option Bool
method_head method =
    if beq method (codes "GET")
    then some false
    else if beq method (codes "HEAD")
    then some true
    else none

unfoldable pub dispatch : Option PreparedRoute → Bool → Option ApplicationResponse
unfolding respond application_error
dispatch none head = some (application_error 404 false)
dispatch (some route) head = respond route head

unfoldable pub evaluate_method :
    CanonicalRequestTarget → Option Bool → Routes → Option ApplicationResponse
unfolding dispatch application_error get
evaluate_method target none routes = some (application_error 405 true)
evaluate_method target (some head) routes = dispatch (get routes target.path) head

unfoldable pub evaluate_target :
    Option CanonicalRequestTarget → Bytes → Routes → Option ApplicationResponse
unfolding evaluate_method application_error method_head
evaluate_target none method routes = some (application_error 400 false)
evaluate_target (some target) method routes = evaluate_method target (method_head method) routes

-- `evaluate_request`; the request's headers are ignored there.
unfoldable pub evaluate_request : Bytes → Bytes → Routes → Option ApplicationResponse
unfolding evaluate_target
evaluate_request raw_target method routes = evaluate_target (parse raw_target) method routes
