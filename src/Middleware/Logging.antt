-- ===== src/Middleware/Logging.antt =====
-- app/core/middleware.py, `RequestLoggingMiddleware`, around the handler that it calls. What it logs
-- is left out.
use unitra_service_api.Common.{
  ◌≡◌, refl, ◌∙◌, true, false, Option, none, some, List, [], ◌∷◌, ◌++◌, if◌then◌else◌, Bool-cases,
  inl, inr,
}
use unitra_service_api.Common.Text.{Text, codes, text_eq, text_eq_refl, text_eq_iff}
use unitra_service_api.Api.Action.{Outcome, returned, raised, Action}
use unitra_service_api.Middleware.{HttpResponse, set_header}

-- `request.headers.get("X-Correlation-ID", …)`, with the text of a new UUID.
unfoldable pub correlation_id : Option Text → Text → Text
correlation_id none fresh = fresh
correlation_id (some given) fresh = given

-- `duration` is the text of the time that the handler took, with two decimals.
unfoldable pub with_timing : Text → Text → HttpResponse → HttpResponse
unfolding set_header
with_timing id duration response = record response {
  headers =
      set_header (codes "X-Response-Time") (duration ++ codes "ms")
        (set_header (codes "X-Correlation-ID") id response.headers);
}

-- the response, or what the handler raised
abbrev pub timed : Text → Text → Outcome HttpResponse → Outcome HttpResponse
timed id duration (returned r) = returned (with_timing id duration r)
timed id duration (raised e) = raised e

module _ {S : Type 0} where
  unfoldable pub log_request :
      Option Text → Text → Text → Action S HttpResponse → Action S HttpResponse
  log_request given fresh duration call_next s =
      let (response, s') = call_next s in (timed (correlation_id given fresh) duration response, s')

-- `response.headers[name]`
abbrev header : Text → List (Text × Text) → Option Text
header name [] = none
header name ((n, v) ∷ hs) = let rest = header name hs in if text_eq n name then some v else rest

header-set_header :
    (name value : Text) (hs : List (Text × Text))
    → header name (set_header name value hs) ≡ some value
unfolding set_header
header-set_header name value [] = rw (text_eq_refl name) refl
header-set_header name value ((n, v) ∷ hs) = elim (Bool-cases (text_eq n name)) [
  | inl e ↦ rw (e, e) refl
  | inr e ↦ rw (e, e) (header-set_header name value hs)
]

header-set_other :
    (name other value : Text) (hs : List (Text × Text))
    → ((n : Text) → text_eq n other ≡ true → text_eq n name ≡ false)
    → header name (set_header other value hs) ≡ header name hs
unfolding set_header
header-set_other name other value [] apart = rw (apart other (text_eq_refl other)) refl
header-set_other name other value ((n, v) ∷ hs) apart = elim (Bool-cases (text_eq n other)) [
  | inl e ↦ rw (e, apart n e) refl
  | inr e ↦ elim (Bool-cases (text_eq n name)) [
    | inl f ↦ rw (e, f) refl
    | inr f ↦ rw (e, f) (header-set_other name other value hs apart)
  ]
]

-- A response carries the correlation id of its request, or the new one where the request has none.
pub with_timing-correlation :
    (id duration : Text) (r : HttpResponse)
    → header (codes "X-Correlation-ID") (with_timing id duration r).headers ≡ some id
unfolding with_timing text_eq
with_timing-correlation id duration r =
    header-set_other (codes "X-Correlation-ID") (codes "X-Response-Time") (duration ++ codes "ms")
      (set_header (codes "X-Correlation-ID") id r.headers)
      (λ n e. rw ((text_eq_iff n (codes "X-Response-Time")).0 e) refl)
    ∙ header-set_header (codes "X-Correlation-ID") id r.headers
