-- ===== src/Middleware.antt =====
-- app/core/middleware.py, `RateLimitMiddleware`, as a step on the Redis store around the step of the
-- handler that it calls.
pub mod Dispatch
pub mod Logging
mod Tests
use unitra_service_api.Common.{
  ℕ, Bool, true, false, ◌||◌, Option, none, some, List, [], ◌∷◌, if◌then◌else◌,
}
use unitra_service_api.Common.Int.{ℤ, pos}
use unitra_service_api.Common.Text.{Text, codes, text_eq}
use unitra_service_api.Common.Str.{str, str_ℤ}
use unitra_service_api.Errors.{AppException}
use unitra_service_api.Errors.Handlers.{Raised}
use unitra_service_api.Redis.{alone, check_rate_limit, get_rate_limit_ttl}
use unitra_service_api.Redis.Server.{RedisServer}
use unitra_service_api.Api.Action.{Outcome, returned, raised, Action}
use unitra_service_api.Api.Translate.{at_least_one}

-- What the middleware reads of a request.
pub record HttpRequest : Type 0 where
  pub path : Text
  pub user_id : Option Text
  pub client_host : Option Text

pub record HttpResponse : Type 0 where
  pub status : ℕ
  pub headers : List (Text × Text)

-- `SKIP_PATHS`
abbrev pub skip_paths : List Text
skip_paths =
    codes "/api/health"
    ∷ codes "/api/health/live"
    ∷ codes "/api/health/ready"
    ∷ codes "/api/version"
    ∷ codes "/api/docs"
    ∷ codes "/api/openapi.json"
    ∷ []

unfoldable pub is_among : Text → List Text → Bool
is_among path [] = false
is_among path (p ∷ ps) = text_eq p path || is_among path ps

abbrev host_or_unknown : Option Text → Text
host_or_unknown none = codes "unknown"
host_or_unknown (some host) = host

-- The user's id, or the address of the client; an empty id counts as none.
unfoldable pub identifier : HttpRequest → Text
identifier request = elim request.user_id [
  | none ↦ host_or_unknown request.client_host
  | some id ↦ elim id [ [] ↦ host_or_unknown request.client_host | c ∷ cs ↦ c ∷ cs ]
]

-- `response.headers[name] = value`
unfoldable pub set_header : Text → Text → List (Text × Text) → List (Text × Text)
set_header name value [] = (name, value) ∷ []
set_header name value ((n, v) ∷ hs) =
    let rest = set_header name value hs in if text_eq n name then (n, value) ∷ hs else (n, v) ∷ rest

unfoldable pub with_limits : ℕ → ℤ → ℕ → HttpResponse → HttpResponse
unfolding set_header str str_ℤ
with_limits limit remaining window response = record response {
  headers = set_header (codes "X-RateLimit-Reset") (str window) (
      set_header (codes "X-RateLimit-Remaining") (str_ℤ remaining)
        (set_header (codes "X-RateLimit-Limit") (str limit) response.headers));
}

module _ (R : RedisServer) (default_limit window : ℕ) where
  -- `dispatch`; `answers` is whether Redis answers the check, with no other request between its
  -- commands.
  unfoldable pub dispatch :
      Bool → HttpRequest → Action R.Store HttpResponse → Action R.Store HttpResponse
  unfolding is_among identifier with_limits
  dispatch answers request call_next s =
      let user_id = identifier request in
      let (allowed, remaining, s') =
        check_rate_limit R user_id request.path default_limit window (alone R) s in
      let ttl = get_rate_limit_ttl R user_id request.path s' in
      let (response, s'') = call_next s' in
      if is_among request.path skip_paths
      then call_next s
      else if answers
      then if allowed
        then (
          elim response [
            | raised e ↦ raised e
            | returned r ↦ returned (with_limits default_limit remaining window r)
          ],
          s'',
        )
        else (raised (Raised.app (AppException.rate_limit (at_least_one ttl) [])), s')
      else call_next s
