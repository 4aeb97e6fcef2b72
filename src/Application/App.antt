-- ===== src/Application/App.antt =====
-- `create_app` of app/main.py: what it hands to FastAPI.
use unitra_service_api.Common.{Bool, true, false, Option, none, some, List, [], ◌∷◌}
use unitra_service_api.Common.Text.{Text, codes}
use unitra_service_api.Application.{Settings}
use unitra_service_api.Application.Routes.{Route, FastapiUsers, under, api_router}

pub data Middleware : Type 0 where
  -- the origins, methods and headers that are allowed, and the headers that are exposed;
  -- credentials are allowed
  cors : (origins methods headers exposed : List Text) → Middleware
  request_logging : Middleware

pub record FastApi : Type 0 where
  pub title : Text
  pub version : Text
  pub openapi_url : Option Text
  pub docs_url : Option Text
  pub redoc_url : Option Text
  -- in the order of `add_middleware`: the last is the outermost
  pub middleware : List Middleware
  pub routes : List Route

abbrev if_debug : Bool → Text → Option Text
if_debug true url = some url
if_debug false url = none

-- The routes of the documentation are FastAPI's own, and not among `routes`.
unfoldable pub create_app : Settings → FastapiUsers → FastApi
unfolding under api_router
create_app settings users = record {
  title = settings.app_name;
  version = settings.app_version;
  openapi_url = if_debug settings.debug (codes "/api/openapi.json");
  docs_url = if_debug settings.debug (codes "/api/docs");
  redoc_url = if_debug settings.debug (codes "/api/redoc");
  middleware =
      Middleware.cors settings.cors_origins (codes "*" ∷ []) (codes "*" ∷ [])
        (codes "X-Correlation-ID" ∷ codes "X-Response-Time" ∷ codes "X-RateLimit-*" ∷ [])
      ∷ Middleware.request_logging
      ∷ [];
  routes = under (codes "/api") (api_router users);
}
