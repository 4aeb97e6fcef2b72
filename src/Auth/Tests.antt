-- ===== src/Auth/Tests.antt =====
-- Tokens made and read with a library that keeps the laws.
mod Accounts
use unitra_service_api.Common.{
  inl, List, ℕ, ◌+◌, ◌-◌, ◌*◌, ◌/◌, ◌<◌, ◌≡◌, refl, true, Option, none, some, [], ◌∷◌, ◌++◌, ltb,
  map, if◌then◌else◌, arith,
}
use unitra_service_api.Common.Int.{pos, negsuc, ◌+ℤ◌}
use unitra_service_api.Common.Text.{Text, codes, text_eq}
use unitra_service_api.Common.Str.{Lowering, ascii_lower, before, strip}
use unitra_service_api.Common.Search.{bearer}
use unitra_service_api.Errors.{AppException}
use unitra_service_api.Errors.Http.{responds, raises}
use unitra_service_api.Redis.{is_token_blacklisted}
use unitra_service_api.Redis.Server.Memory.{MemoryStore, memory}
use mathlib.Core.List.{Mem}
use unitra_service_api.Application.{defaults}
use unitra_service_api.Application.Logging.{setup_logging, is_emitted}
use unitra_service_api.Batch.Config.{UserTier, tier_of_value}
use unitra_service_api.Auth.Hooks.{Hook, run_hook}
use unitra_service_api.Auth.Events.{Value, Event, ip_address, registered}
use unitra_service_api.Auth.Registration.{
  UserCreate, UserCreation, register, hook_failed, registered_as, register_own_tier,
}
use unitra_service_api.Auth.Hooks.Account.{argument, token_emitted}
use unitra_service_api.Auth.Jwt.{Claims, Decoded}
use unitra_service_api.Auth.Jwt.Readable.{readable}
use unitra_service_api.Auth.Tokens.{
  Settings, accepted, refused, expiry, delta_or, create_access_token, create_refresh_token,
  get_current_user_id,
}
use unitra_service_api.Auth.Tokens.Access.{access_token_round_trip}
use unitra_service_api.Auth.Users.{User, write_token, on_after_register, tier_minutes}
use unitra_service_api.Auth.Sessions.{logged_out, logout, refresh_token}
use unitra_service_api.Auth.Sessions.Login.{login_token_refused}
use unitra_service_api.Auth.Sessions.Logout.{logout_blacklists}
use unitra_service_api.Auth.Sessions.Refresh.{Issued, refresh_round_trip, refresh_token_sound}

abbrev lowering : Lowering
lowering = record { lower = map ascii_lower; lower-ascii = λ s h. refl }

abbrev settings : Settings
settings = record {
  secret_key = codes "k";
  algorithm = codes "HS256";
  access_token_expire_minutes = 30;
  refresh_token_expire_days = 7;
  jwt_lifetime_seconds = 3600;
}

-- `{"sub": "u"}`
abbrev data_of_u : Claims
data_of_u = record {
  sub = some (codes "u");
  aud = none;
  jti = none;
  type = none;
  exp = none;
  tier = none;
  minutes_remaining = none;
}

abbrev pub user : User
user = record {
  id = codes "u";
  email = codes "u@x.org";
  tier = codes "free";
  is_active = true;
  stripe_subscription_id = none;
  translation_minutes_used = 5;
  translation_minutes_limit = pos 60;
  last_login_at = none;
  login_count = 0;
}

abbrev now : ℕ
now = 1000000000

abbrev access_token : Text
access_token = create_access_token readable settings (codes "j") now data_of_u none

access_token_round_trip_example :
    get_current_user_id readable lowering settings now (some (bearer ++ access_token)) ≡ (
      if ltb (expiry now (delta_or none 1800000000)) (now / 1000000)
      then refused AppException.token_expired
      else accepted (codes "u"))
access_token_round_trip_example =
    access_token_round_trip readable lowering settings (codes "j") now now data_of_u none 117 []
      refl refl

abbrev refresh : Text
refresh = create_refresh_token readable settings (codes "j") now data_of_u none

abbrev login_token : Text
login_token = write_token readable settings (codes "j") now user

login_token_refused_example :
    get_current_user_id readable lowering settings now (some (bearer ++ login_token))
    ≡ refused (
        if ltb (now / 1000000 + 3600) (now / 1000000)
        then AppException.token_expired
        else AppException.token_invalid (codes "Invalid token: Invalid audience"))
login_token_refused_example =
    login_token_refused readable lowering settings (codes "j") now now user (omega arith)

abbrev empty_store : MemoryStore
empty_store k = none

logout_blacklists_example :
    ((logout readable memory settings now (codes "u") (bearer ++ login_token) empty_store).0
      ≡ responds logged_out)
    × (10 < ((now / 1000000 + 3600) * 1000000 - now) / 1000000
        → is_token_blacklisted memory (codes "j") (
            memory.after 10
              (logout readable memory settings now
                (codes "u")
                (bearer ++ login_token)
                empty_store).1)
          ≡ true)
logout_blacklists_example =
    logout_blacklists readable memory settings 106 [] now now 10 user (codes "u") empty_store
      (omega arith) (omega arith)

abbrev users : Text → Option User
users t = some user

refreshed : refresh_token readable memory settings (codes "n") now users refresh empty_store ≡ (
    if is_token_blacklisted memory (codes "j") empty_store
    then raises 401 (codes "Refresh token has been revoked")
    else responds (write_token readable settings (codes "n") now user))
unfolding ◌+ℤ◌
refreshed =
    refresh_round_trip readable memory settings 117 106 [] [] (codes "n") now now data_of_u none
      users user empty_store refl refl refl refl (omega arith)

refresh_round_trip_example :
    refresh_token readable memory settings (codes "n") now users refresh empty_store ≡ (
      if is_token_blacklisted memory (codes "j") empty_store
      then raises 401 (codes "Refresh token has been revoked")
      else responds (write_token readable settings (codes "n") now user))
unfolding ◌+ℤ◌
refresh_round_trip_example =
    refresh_round_trip readable memory settings 117 106 [] [] (codes "n") now now data_of_u none
      users user empty_store refl refl refl refl (omega arith)

refresh_token_sound_example :
    (payload : Claims) × (user_id : Text) × (found : User) × (readable.decode
        (codes "k")
        (codes "HS256" ∷ [])
        none
        now
        refresh
      ≡ Decoded.claims payload)
    × Issued readable memory settings
        (codes "n")
        now
        users
        empty_store
        (write_token readable settings (codes "n") now user)
        payload
        user_id
        found
unfolding is_token_blacklisted
refresh_token_sound_example =
    refresh_token_sound readable memory settings (codes "n") now users refresh empty_store
      (write_token readable settings (codes "n") now user) refreshed
