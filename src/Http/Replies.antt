-- ===== src/Http/Replies.antt =====
-- What `evaluate_request` of rust/src/http_response.rs answers.
use mathlib.Core.Path.{subst}
use mathlib.Core.Option
use mathlib.Core.Option.{some_inj}
use pkgre.Prelude.{
  ℕ, ◌≡◌, ◌≢◌, refl, sym, ap, ◌∙◌, [], ◌∷◌, List, Bytes, codes, length, beq, beq→eq, Bool, true,
  false, if◌then◌else◌, Option, none, some, arith,
}
use pkgre.Projection.{ProjectedRepresentation}
use pkgre.RequestTarget.{CanonicalRequestTarget, parse}
use pkgre.RequestTarget.Safe.{parse-IsCanonicalTarget}
use pkgre.Http.{
  ResponseHeader, ApplicationResponse, PreparedRoute, Routes, get, respond, respond_as,
  respond_body, respond_redirect, application_error, method_head, dispatch, evaluate_method,
  evaluate_target, evaluate_request,
}
use pkgre.Http.Decimal.{number, to_string, number-to_string}

abbrev pub without_body : ApplicationResponse → ApplicationResponse
without_body answer = record answer { body = none }

body-head :
    (cache content : Bytes) (body tag : Option Bytes)
    → respond_body true cache content body tag
      ≡ Option.map without_body (respond_body false cache content body tag)
unfolding respond_body
body-head cache content none tag = refl
body-head cache content (some body) none = refl
body-head cache content (some body) (some tag) = refl

redirect-head :
    (location : Option Bytes)
    → respond_redirect location ≡ Option.map without_body (respond_redirect location)
unfolding respond_redirect
redirect-head none = refl
redirect-head (some location) = refl

respond_as-head :
    (shown : ProjectedRepresentation) (route : PreparedRoute)
    → respond_as shown route true ≡ Option.map without_body (respond_as shown route false)
unfolding respond_as
respond_as-head ProjectedRepresentation.metadata_json route =
    body-head _ _ route.body route.entity_tag
respond_as-head ProjectedRepresentation.metadata_text route =
    body-head _ _ route.body route.entity_tag
respond_as-head ProjectedRepresentation.archive route = body-head _ _ route.body route.entity_tag
respond_as-head ProjectedRepresentation.redirect route = redirect-head route.location

dispatch-head :
    (route : Option PreparedRoute)
    → dispatch route true ≡ Option.map without_body (dispatch route false)
unfolding dispatch respond application_error
dispatch-head none = refl
dispatch-head (some route) = respond_as-head route.representation route

target-head :
    (target : Option CanonicalRequestTarget) (routes : Routes)
    → evaluate_target target (codes "HEAD") routes
      ≡ Option.map without_body (evaluate_target target (codes "GET") routes)
unfolding evaluate_target evaluate_method method_head application_error
target-head none routes = refl
target-head (some target) routes = dispatch-head (get routes target.path)

-- The answer to HEAD is the answer to GET without its body: the status and every header are the
-- same, and one of the two panics exactly if the other does.
pub evaluate_request-head :
    (raw : Bytes) (routes : Routes)
    → evaluate_request raw (codes "HEAD") routes
      ≡ Option.map without_body (evaluate_request raw (codes "GET") routes)
unfolding evaluate_request
evaluate_request-head raw routes = target-head (parse raw) routes

-- The value of a header.
unfoldable pub header_value : Bytes → List ResponseHeader → Option Bytes
header_value name [] = none
header_value name (header ∷ headers) =
    let rest = header_value name headers in if beq header.name name then some header.value else rest

-- An answer frames a body by a header that reads back as its length.
abbrev pub Frames : ApplicationResponse → Bytes → Type 0
Frames answer body =
    (value : Bytes) × (header_value (codes "Content-Length") answer.headers ≡ some value)
    × (number 0 value ≡ length body)

-- What a body of an answer comes from.
abbrev pub IsBodyOf : PreparedRoute → Bool → ApplicationResponse → Bytes → Type 0
IsBodyOf route head answer body =
    (head ≡ false) × (answer.status ≡ 200) × (route.body ≡ some body) × Frames answer body

respond_body-IsBodyOf :
    (route : PreparedRoute) (head : Bool) (cache content : Bytes) (given tag : Option Bytes)
    (answer : ApplicationResponse) (body : Bytes)
    → route.body ≡ given
    → respond_body head cache content given tag ≡ some answer
    → answer.body ≡ some body
    → IsBodyOf route head answer body
unfolding respond_body header_value
respond_body-IsBodyOf route head cache content none tag answer body g h e = absurd (cc)
respond_body-IsBodyOf route head cache content (some b) none answer body g h e = absurd (cc)
respond_body-IsBodyOf route true cache content (some b) (some t) answer body g h e =
    absurd (cc (ap (λ (a : ApplicationResponse). a.body) (some_inj.0 h), e))
respond_body-IsBodyOf route false cache content (some b) (some t) answer body g h e =
    let same = some_inj.0 h in
    let bodies : b ≡ body = some_inj.0 (ap (λ (a : ApplicationResponse). a.body) same ∙ e) in
    (
      refl,
      sym (ap (λ (a : ApplicationResponse). a.status) same),
      g ∙ ap some bodies,
      (
        to_string (length b),
        sym (
            ap (λ (a : ApplicationResponse). header_value (codes "Content-Length") a.headers) same),
        number-to_string (length b) ∙ ap {B = ℕ} length bodies,
      ),
    )

respond_redirect-bare :
    (location : Option Bytes) (answer : ApplicationResponse) (body : Bytes)
    → respond_redirect location ≡ some answer
    → answer.body ≢ some body
unfolding respond_redirect
respond_redirect-bare none answer body h e = absurd (cc)
respond_redirect-bare (some location) answer body h e =
    absurd (cc (ap (λ (a : ApplicationResponse). a.body) (some_inj.0 h), e))

respond_as-IsBodyOf :
    (shown : ProjectedRepresentation) (route : PreparedRoute) (head : Bool)
    (answer : ApplicationResponse) (body : Bytes)
    → respond_as shown route head ≡ some answer
    → answer.body ≡ some body
    → IsBodyOf route head answer body
unfolding respond_as
respond_as-IsBodyOf ProjectedRepresentation.metadata_json route head answer body h e =
    respond_body-IsBodyOf route head _ _ route.body route.entity_tag answer body refl h e
respond_as-IsBodyOf ProjectedRepresentation.metadata_text route head answer body h e =
    respond_body-IsBodyOf route head _ _ route.body route.entity_tag answer body refl h e
respond_as-IsBodyOf ProjectedRepresentation.archive route head answer body h e =
    respond_body-IsBodyOf route head _ _ route.body route.entity_tag answer body refl h e
respond_as-IsBodyOf ProjectedRepresentation.redirect route head answer body h e =
    absurd (respond_redirect-bare route.location answer body h e)

-- Where the body of an answer to a request comes from.
abbrev pub Serves : Routes → Bytes → Bytes → ApplicationResponse → Bytes → Type 0
Serves routes path method answer body =
    (route : PreparedRoute) × (get routes path ≡ some route)
    × (method ≡ codes "GET")
    × IsBodyOf route false answer body

dispatch-Serves :
    (routes : Routes) (path : Bytes) (found : Option PreparedRoute) (head : Bool)
    (answer : ApplicationResponse) (body : Bytes)
    → get routes path ≡ found
    → dispatch found head ≡ some answer
    → answer.body ≡ some body
    → (route : PreparedRoute) × (get routes path ≡ some route) × IsBodyOf route head answer body
unfolding dispatch respond application_error
dispatch-Serves routes path none head answer body g h e =
    absurd (cc (ap (λ (a : ApplicationResponse). a.body) (some_inj.0 h), e))
dispatch-Serves routes path (some route) head answer body g h e =
    (route, g, respond_as-IsBodyOf route.representation route head answer body h e)

method_head-get : (method : Bytes) → method_head method ≡ some false → method ≡ codes "GET"
unfolding method_head
method_head-get method h = beq→eq method (codes "GET") (ground arith)

method-Serves :
    (routes : Routes) (target : CanonicalRequestTarget) (method : Bytes) (head : Option Bool)
    (answer : ApplicationResponse) (body : Bytes)
    → method_head method ≡ head
    → evaluate_method target head routes ≡ some answer
    → answer.body ≡ some body
    → Serves routes target.path method answer body
unfolding evaluate_method application_error
method-Serves routes target method none answer body m h e =
    absurd (cc (ap (λ (a : ApplicationResponse). a.body) (some_inj.0 h), e))
method-Serves routes target method (some false) answer body m h e =
    let (route, g, b) = dispatch-Serves routes target.path _ false answer body refl h e in
    (route, g, method_head-get method m, b)
method-Serves routes target method (some true) answer body m h e =
    let (route, g, b) = dispatch-Serves routes target.path _ true answer body refl h e in
    absurd (cc (b.0))

target-Serves :
    (routes : Routes) (raw method : Bytes) (target : Option CanonicalRequestTarget)
    (answer : ApplicationResponse) (body : Bytes)
    → parse raw ≡ target
    → evaluate_target target method routes ≡ some answer
    → answer.body ≡ some body
    → Serves routes raw method answer body
unfolding evaluate_target application_error
target-Serves routes raw method none answer body p h e =
    absurd (cc (ap (λ (a : ApplicationResponse). a.body) (some_inj.0 h), e))
target-Serves routes raw method (some target) answer body p h e =
    subst (λ path. Serves routes path method answer body) ((parse-IsCanonicalTarget raw target p).0)
      (method-Serves routes target method (method_head method) answer body refl h e)

-- An answer has a body only if the method is GET and the raw target is, byte for byte, the path of a
-- route with that very body; the status is then 200, and the Content-Length header reads back as
-- the length of the body.
pub evaluate_request-Serves :
    (routes : Routes) (raw method : Bytes) (answer : ApplicationResponse) (body : Bytes)
    → evaluate_request raw method routes ≡ some answer
    → answer.body ≡ some body
    → Serves routes raw method answer body
unfolding evaluate_request
evaluate_request-Serves routes raw method answer body h e =
    target-Serves routes raw method (parse raw) answer body refl h e
