-- ===== src/Examples/Requests.antt =====
-- The laws of the HTTP front and of the categories at concrete requests and texts.
use pkgre.Prelude.{◌≡◌, ◌↔◌, refl, [], ◌∷◌, Bytes, codes, none, some, ok, false}
use pkgre.Projection.{ProjectedRepresentation, ProjectedResponse}
use pkgre.RequestTarget.{CanonicalRequestTarget, parse}
use pkgre.RequestTarget.Safe.{IsCanonicalTarget, parse-IsCanonicalTarget}
use pkgre.Http.{
  ApplicationResponse, PreparedRoute, Routes, header, metadata_cache, evaluate_request,
  from_projected, entity_tag,
}
use pkgre.Http.Decimal.{to_string}
use pkgre.Http.Replies.{Serves, evaluate_request-Serves}
use pkgre.Http.Outcomes.{AllPrepared, Answers, Outcome, evaluate_request-Answers}
use pkgre.Category
use pkgre.Category.{CategoryId, from_str, category_for_v2_home}
use pkgre.Category.Homes.{Names, category_for_v2_home_iff}
use pkgre.Category.Text.{IsName, from_str_iff}

abbrev config_path : Bytes
config_path = codes "/matrix/config.json"

abbrev scoped_path : Bytes
scoped_path = codes "/@pkgre%2fclient"

abbrev scoped_target : CanonicalRequestTarget
scoped_target = record { path = scoped_path }

scoped_parses : parse scoped_path ≡ some scoped_target
unfolding parse
scoped_parses = refl

parse-IsCanonicalTarget_example : (scoped_target.path ≡ scoped_path) × IsCanonicalTarget scoped_path
parse-IsCanonicalTarget_example = parse-IsCanonicalTarget scoped_path scoped_target scoped_parses

dots_refused : parse (codes "/matrix/../secret") ≡ none
unfolding parse
dots_refused = refl

abbrev digest : Bytes → Bytes
digest body = body

abbrev config_body : Bytes
config_body = codes "{}"

abbrev config_tag : Bytes
config_tag = codes "\"sha256:{}\""

abbrev config_route : PreparedRoute
config_route = record {
  representation = ProjectedRepresentation.metadata_json;
  body = some config_body;
  entity_tag = some config_tag;
  location = none;
}

abbrev routes : Routes
routes = (config_path, config_route) ∷ []

abbrev config_answer : ApplicationResponse
config_answer = record {
  status = 200;
  headers =
      header (codes "Cache-Control") metadata_cache
      ∷ header (codes "Content-Length") (codes "2")
      ∷ header (codes "Content-Type") (codes "application/json; charset=utf-8")
      ∷ header (codes "ETag") config_tag
      ∷ [];
  body = some config_body;
}

config_answered : evaluate_request config_path (codes "GET") routes ≡ some config_answer
unfolding evaluate_request parse to_string
config_answered = refl

evaluate_request-Serves_example : Serves routes config_path (codes "GET") config_answer config_body
evaluate_request-Serves_example =
    evaluate_request-Serves routes config_path (codes "GET") config_answer config_body
      config_answered refl

abbrev config_response : ProjectedResponse
config_response = ProjectedResponse.inline config_body ProjectedRepresentation.metadata_json

config_prepared : from_projected digest config_response ≡ ok config_route
unfolding from_projected entity_tag
config_prepared = refl

routes_prepared : AllPrepared digest routes
routes_prepared = ((false, (config_response, (λ e. absurd (cc)), refl, config_prepared)), tt)

evaluate_request-Answers_example :
    Answers
      (evaluate_request config_path (codes "POST") routes)
      (Outcome digest routes config_path (codes "POST"))
evaluate_request-Answers_example =
    evaluate_request-Answers digest routes config_path (codes "POST") routes_prepared

abbrev events : CategoryId
events = record { registry = codes "universe"; local = codes "sse" }

from_str_iff_example : (from_str (codes "universe/sse") ≡ ok events) ↔ (
    IsName events.registry
    × IsName events.local
    × (codes "universe/sse" ≡ Category.to_string events))
from_str_iff_example = from_str_iff (codes "universe/sse") events

category_for_v2_home_iff_example :
    (category_for_v2_home (codes "core") (codes "sse-stream") ≡ ok events)
    ↔ Names (codes "core") (codes "sse-stream") events
category_for_v2_home_iff_example =
    category_for_v2_home_iff (codes "core") (codes "sse-stream") events
