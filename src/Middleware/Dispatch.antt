-- ===== src/Middleware/Dispatch.antt =====
-- When the middleware lets a request pass, and what it adds.
use unitra_service_api.Common.{
  ℕ, ◌-◌, ◌≤◌, ◌<◌, ◌≡◌, refl, Bool, true, false, ◌⊎◌, inl, inr, some, [], max, ltb, lt→ltb, arith,
  Bool-cases,
}
use unitra_service_api.Common.Int.{pos}
use unitra_service_api.Common.Text.{Text}
use unitra_service_api.Errors.{AppException}
use unitra_service_api.Errors.Handlers.{Raised}
use unitra_service_api.Redis.{rate_limit_key, get_rate_limit_ttl}
use unitra_service_api.Redis.RateLimit.{check_full, check_room}
use unitra_service_api.Redis.Server.{RedisServer}
use unitra_service_api.Api.Action.{returned, raised, Action}
use unitra_service_api.Middleware.{
  HttpRequest, HttpResponse, skip_paths, is_among, identifier, with_limits, dispatch,
}

module _ (R : RedisServer) (limit window : ℕ) (request : HttpRequest)
    (call_next : Action R.Store HttpResponse) (s : R.Store) where
  abbrev key : Text
  key = rate_limit_key (identifier request) request.path

  -- A path that is skipped, and any path while Redis does not answer, is served without a limit:
  -- the response and the store are the handler's.
  pub dispatch_unlimited :
      (answers : Bool)
      → (is_among request.path skip_paths ≡ true) ⊎ (answers ≡ false)
      → dispatch R limit window answers request call_next s ≡ call_next s
  unfolding dispatch
  dispatch_unlimited answers (inl skipped) = rw skipped refl
  dispatch_unlimited answers (inr silent) = elim (Bool-cases (is_among request.path skip_paths)) [
    | inl skipped ↦ rw skipped refl
    | inr limited ↦ rw (limited, silent) refl
  ]

  -- On another path, a client whose counter is at the limit is refused without the handler being
  -- called, and told the seconds that its window has left.
  dispatch_full :
      (c t : ℕ)
      → is_among request.path skip_paths ≡ false
      → R.get key s ≡ some c
      → limit ≤ c
      → R.ttl key s ≡ pos t
      → 0 < t
      → dispatch R limit window true request call_next s
        ≡ (raised (Raised.app (AppException.rate_limit t [])), s)
  unfolding dispatch get_rate_limit_ttl
  dispatch_full c t limited counted full runs positive =
      let refused = check_full R (identifier request) request.path limit window s c counted full in
      let at_t : max t 1 ≡ t = omega arith in
      let running : ltb 0 t ≡ true = lt→ltb 0 t positive in
      rw (limited, refused, get_rate_limit_ttl, runs, running, at_t) refl

  -- A client below the limit is counted before the handler is called, and the handler's response
  -- comes back with the limit, the requests that remain and the window in its headers.
  pub dispatch_room :
      (c : ℕ) (response : HttpResponse) (s' : R.Store)
      → is_among request.path skip_paths ≡ false
      → R.get key s ≡ some c
      → c < limit
      → call_next (R.incrby key 1 s) ≡ (returned response, s')
      → dispatch R limit window true request call_next s
        ≡ (returned (with_limits limit (pos (limit - c - 1)) window response), s')
  unfolding dispatch
  dispatch_room c response s' limited counted room served =
      let admitted = check_room R (identifier request) request.path limit window s c counted room in
      rw (limited, admitted) (rw served (rw admitted refl))
