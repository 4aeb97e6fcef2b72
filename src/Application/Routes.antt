-- ===== src/Application/Routes.antt =====
-- The routers of app/api/router.py, app/auth/router.py and app/api/v1: each route by its method, its
-- path and its endpoint. The routers of fastapi-users are a parameter. A router that includes
-- another puts its prefix before each path.
use unitra_service_api.Common.{List, [], ◌∷◌, ◌++◌, map}
use unitra_service_api.Common.Text.{Text, codes}

pub data Method : Type 0 where
  get post patch delete : Method

pub record Route : Type 0 where
  pub method : Method
  pub path : Text
  pub endpoint : Text

-- The routers that app/auth/router.py asks fastapi-users for.
pub record FastapiUsers : Type 0 where
  pub jwt_router : List Route
  pub register_router : List Route
  pub reset_password_router : List Route
  pub verify_router : List Route
  pub users_router : List Route

abbrev pub prefixed : Text → Route → Route
prefixed prefix r = record r { path = prefix ++ r.path }

-- `include_router` with a prefix.
unfoldable pub under : Text → List Route → List Route
under prefix routes = map (prefixed prefix) routes

-- The router of app/api/v1/health.py.
abbrev pub health_router : List Route
health_router =
    record { method = Method.get; path = codes "/health"; endpoint = codes "health_check" }
    ∷ record { method = Method.get; path = codes "/health/live"; endpoint = codes "liveness_probe" }
    ∷ record {
      method = Method.get;
      path = codes "/health/ready";
      endpoint = codes "readiness_probe";
    }
    ∷ record { method = Method.get; path = codes "/version"; endpoint = codes "version" }
    ∷ []

abbrev pub custom_router : List Route
custom_router =
    record {
      method = Method.get;
      path = codes "/me/usage";
      endpoint = codes "get_usage_statistics";
    }
    ∷ record {
      method = Method.post;
      path = codes "/me/tier/upgrade";
      endpoint = codes "upgrade_tier";
    }
    ∷ record { method = Method.get; path = codes "/health"; endpoint = codes "auth_health_check" }
    ∷ record { method = Method.post; path = codes "/logout"; endpoint = codes "logout" }
    ∷ record { method = Method.post; path = codes "/refresh"; endpoint = codes "refresh_token" }
    ∷ []

abbrev pub translate_router : List Route
translate_router =
    record { method = Method.post; path = []; endpoint = codes "translate" }
    ∷ record { method = Method.post; path = codes "/batch"; endpoint = codes "translate_batch" }
    ∷ record { method = Method.get; path = codes "/languages"; endpoint = codes "list_languages" }
    ∷ record { method = Method.get; path = codes "/usage"; endpoint = codes "get_usage" }
    ∷ []

abbrev pub usage_router : List Route
usage_router =
    record { method = Method.get; path = []; endpoint = codes "get_usage" }
    ∷ record { method = Method.get; path = codes "/quota"; endpoint = codes "get_quota" }
    ∷ []

abbrev pub billing_router : List Route
billing_router =
    record {
      method = Method.get;
      path = codes "/subscription";
      endpoint = codes "get_subscription";
    }
    ∷ record {
      method = Method.post;
      path = codes "/checkout";
      endpoint = codes "create_checkout_session";
    }
    ∷ record {
      method = Method.post;
      path = codes "/portal";
      endpoint = codes "create_portal_session";
    }
    ∷ record {
      method = Method.post;
      path = codes "/cancel";
      endpoint = codes "cancel_subscription";
    }
    ∷ record {
      method = Method.post;
      path = codes "/reactivate";
      endpoint = codes "reactivate_subscription";
    }
    ∷ record { method = Method.get; path = codes "/invoices"; endpoint = codes "list_invoices" }
    ∷ record { method = Method.post; path = codes "/webhook"; endpoint = codes "stripe_webhook" }
    ∷ []

unfoldable pub get_auth_router : FastapiUsers → List Route
unfolding under
get_auth_router users =
    under (codes "/jwt") users.jwt_router
    ++ (users.register_router
        ++ (users.reset_password_router ++ (users.verify_router ++ custom_router)))

abbrev pub get_users_router : FastapiUsers → List Route
get_users_router users = users.users_router

unfoldable pub api_router : FastapiUsers → List Route
unfolding under get_auth_router
api_router users =
    health_router
    ++ (under (codes "/v1/auth") (get_auth_router users)
        ++ (under (codes "/v1/users") (get_users_router users)
            ++ (under (codes "/v1/translate") translate_router
                ++ (under (codes "/v1/usage") usage_router
                    ++ under (codes "/v1/billing") billing_router))))
