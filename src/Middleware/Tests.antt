-- ===== src/Middleware/Tests.antt =====
-- Runs of the middleware on a store in memory.
use unitra_service_api.Common.{ℕ, ◌≡◌, refl, true, false, none, some, []}
use unitra_service_api.Common.Int.{pos}
use unitra_service_api.Common.Text.{codes, text_eq}
use unitra_service_api.Errors.{AppException}
use unitra_service_api.Errors.Handlers.{Raised}
use unitra_service_api.Redis.{check_rate_limit, get_rate_limit_ttl, rate_limit_key}
use unitra_service_api.Redis.Server.Memory.{memory}
use unitra_service_api.Api.Action.{Action, returned, raised}
use unitra_service_api.Middleware.{
  HttpRequest, HttpResponse, skip_paths, is_among, identifier, dispatch,
}

abbrev request : HttpRequest
request = record { path = codes "/api"; user_id = none; client_host = some (codes "h") }

abbrev ok : HttpResponse
ok = record { status = 200; headers = [] }

abbrev call_next : Action memory.Store HttpResponse
call_next s = (returned ok, s)

abbrev counted : ℕ → memory.Store
counted n = memory.setex (rate_limit_key (codes "h") (codes "/api")) 30 n (λ _. none)

not_skipped : is_among request.path skip_paths ≡ false
unfolding is_among text_eq
not_skipped = refl

at_two : memory.get (rate_limit_key (identifier request) request.path) (counted 2) ≡ some 2
unfolding text_eq rate_limit_key identifier
at_two = refl

runs : memory.ttl (rate_limit_key (identifier request) request.path) (counted 2) ≡ pos 30
unfolding text_eq rate_limit_key identifier
runs = refl

-- A full counter answers 429 with the seconds that its window has left.
full :
    dispatch memory 2 60 true request call_next (counted 2)
    ≡ (raised (Raised.app (AppException.rate_limit 30 [])), counted 2)
unfolding dispatch check_rate_limit get_rate_limit_ttl rate_limit_key text_eq
full = refl
