-- ===== src/Application/Tests.antt =====
-- The life of the application on a concrete connection, and its configuration.
use unitra_service_api.Common.{◌≡◌, refl, true, false, none, some, [], ◌∷◌, ◌++◌, map, take}
use unitra_service_api.Common.Text.{Text, codes, text_eq}
use unitra_service_api.Errors.Handlers.{Raised}
use unitra_service_api.Api.Action.{Outcome, returned, raised, Action}
use unitra_service_api.Application.{Settings, defaults, get_settings}
use unitra_service_api.Application.Logging.{
  Processor, debug, info, setup_logging, renderers, level_of, is_emitted,
}
use unitra_service_api.Application.Routes.{FastapiUsers, under, get_auth_router, api_router}
use unitra_service_api.Application.App.{create_app}
use unitra_service_api.Application.Lifespan.{Process, lifespan}
use unitra_service_api.Application.Lifespan.Ends.{opened, EndsWith, lifespan_ends}

-- A process that has just been made, with connections to Redis that are texts.
abbrev fresh : Process Text
fresh = record {
  database = record { engine = false; session_factory = false };
  redis = none;
  log = [];
}

-- Serves one request, which is logged.
abbrev serve : Action (Process Text) Unit
serve p = (returned tt, record p { log = p.log ++ codes "request_completed" ∷ [] })

-- The disposal of the engine raises: the connection to Redis stays open.
abbrev stuck : Outcome Unit
stuck = raised (Raised.unexpected (codes "OSError"))

lifespan_ends_example :
    (p : Process Text) × (p.database ≡ opened)
    × (p.redis ≡ some (some (codes "redis")))
    × EndsWith
        (codes "redis")
        (serve p).0
        stuck
        (returned tt)
        (lifespan (returned (codes "redis")) stuck (λ _. returned tt) serve fresh)
lifespan_ends_example =
    lifespan_ends (codes "redis") stuck (λ _. returned tt) serve fresh (λ p. (refl, refl))

-- Settings that are read again later come from the cache.
cached :
    (get_settings (record defaults { debug = true }) (get_settings defaults none).1).0.debug ≡ false
unfolding get_settings
cached = refl

abbrev production : Settings
production = record defaults { environment = codes "production" }

json_in_production :
    renderers production.environment ≡ Processor.format_exc_info ∷ Processor.json_renderer ∷ []
unfolding renderers text_eq
json_in_production = refl

levels :
    (is_emitted (setup_logging production) (codes "httpx") info ≡ false)
    × (is_emitted (setup_logging production) (codes "app") info ≡ true)
    × (is_emitted (setup_logging production) (codes "app") debug ≡ false)
unfolding is_emitted setup_logging level_of text_eq
levels = (refl, refl, refl)

abbrev no_users : FastapiUsers
no_users = record {
  jwt_router = [];
  register_router = [];
  reset_password_router = [];
  verify_router = [];
  users_router = [];
}

paths :
    take 5 (map (λ r. r.path) (create_app defaults no_users).routes)
    ≡ codes "/api/health"
      ∷ codes "/api/health/live"
      ∷ codes "/api/health/ready"
      ∷ codes "/api/version"
      ∷ codes "/api/v1/auth/me/usage"
      ∷ []
unfolding create_app under api_router get_auth_router
paths = refl
