-- ===== src/Auth/Sessions.antt =====
-- app/auth/router.py: logout, the refresh of a token, the usage statistics and the health check.
-- `user_id` is the id of the user that fastapi-users has found for the request. `jti` is the text
-- of a new UUID. Redis is the store, the database is a lookup of users by id.
pub mod Logout
pub mod Refresh
pub mod Login
use unitra_service_api.Common.{
  ℕ, ◌+◌, ◌-◌, ◌*◌, ◌/◌, Bool, true, false, Option, none, some, List, [], ◌∷◌, ◌++◌, ltb, ◌==◌,
  if◌then◌else◌,
}
use unitra_service_api.Common.Int.{ℤ}
use unitra_service_api.Common.Text.{Text, codes}
use unitra_service_api.Common.Search.{starts_with, remove_all, bearer}
use unitra_service_api.Errors.Http.{Reply, responds, raises}
use unitra_service_api.Redis.{blacklist_token, is_token_blacklisted, delete_session}
use unitra_service_api.Redis.Server.{RedisServer}
use unitra_service_api.Auth.Jwt.{Jwt, Claims, claims, jwt_error}
use unitra_service_api.Auth.Tokens.{Settings, is_type}
use unitra_service_api.Auth.Users.{User, audience, write_token, minutes_remaining}

pub record LogoutResponse : Type 0 where
  pub success : Bool
  pub message : Text

-- `int(exp - now) if exp else settings.jwt_lifetime_seconds`, 0 where that is negative: only a
-- positive one is used.
abbrev pub token_ttl : Settings → ℕ → Option ℕ → ℕ
token_ttl settings now none = settings.jwt_lifetime_seconds
token_ttl settings now (some exp) =
    if exp == 0 then settings.jwt_lifetime_seconds else (exp * 1000000 - now) / 1000000

-- `if not jti`
abbrev pub non_empty : Option Text → Option Text
non_empty none = none
non_empty (some []) = none
non_empty (some (c ∷ t)) = some (c ∷ t)

abbrev pub logged_out : LogoutResponse
logged_out = record {
  success = true;
  message = codes "Logged out successfully. Token has been invalidated.";
}

abbrev pub not_blacklisted : LogoutResponse
not_blacklisted = record {
  success = true;
  message = codes "Logged out (token will remain valid until expiration)";
}

module _ (J : Jwt) (R : RedisServer) (settings : Settings) where
  open R use {Store}

  -- `logout` with the decoded payload of the token.
  unfoldable pub revoke : ℕ → Text → Claims → Store → Reply LogoutResponse × Store
  revoke now user_id payload s = elim (non_empty payload.jti) [
    | none ↦ (responds not_blacklisted, s)
    | some jti ↦
        let ttl = token_ttl settings now payload.exp in
        let s' = if ltb 0 ttl then blacklist_token R jti ttl s else s in
        (responds logged_out, delete_session R user_id s')
  ]

  unfoldable pub logout : ℕ → Text → Text → Store → Reply LogoutResponse × Store
  unfolding revoke
  logout now user_id authorization s =
      if starts_with bearer authorization
      then elim (J.decode settings.secret_key (settings.algorithm ∷ []) (some audience) now
          (remove_all bearer authorization)) [
            | jwt_error e ↦ (raises 401 (codes "Invalid token"), s)
            | claims payload ↦ revoke now user_id payload s
          ]
      else (raises 401 (codes "Invalid authorization header format"), s)

  -- `refresh_token` from the lookup of the user on: the new access token. The response's
  -- `token_type` is "bearer".
  unfoldable pub issue : Text → ℕ → Option User → Reply Text
  issue jti now none = raises 401 (codes "User not found")
  issue jti now (some user) =
      if user.is_active
      then responds (write_token J settings jti now user)
      else raises 401 (codes "User account is inactive")

  -- `refresh_token` with the user id of the payload.
  unfoldable pub refresh_subject : Text → ℕ → (Text → Option User) → Option Text → Reply Text
  unfolding issue
  refresh_subject jti now users none = raises 401 (codes "Invalid token: no user ID")
  refresh_subject jti now users (some user_id) = issue jti now (users user_id)

  -- `jti and await redis.is_token_blacklisted(jti)`
  unfoldable pub is_revoked : Option Text → Store → Bool
  is_revoked jti s = elim (non_empty jti) [ none ↦ false | some j ↦ is_token_blacklisted R j s ]

  -- `refresh_token` with the decoded payload of the token.
  unfoldable pub refresh_payload : Text → ℕ → (Text → Option User) → Claims → Store → Reply Text
  unfolding refresh_subject is_revoked
  refresh_payload jti now users payload s =
      if is_type (codes "refresh") payload.type
      then if is_revoked payload.jti s
        then raises 401 (codes "Refresh token has been revoked")
        else refresh_subject jti now users (non_empty payload.sub)
      else raises 401 (codes "Invalid token type. Expected refresh token.")

  unfoldable pub refresh_token : Text → ℕ → (Text → Option User) → Text → Store → Reply Text
  unfolding refresh_payload
  refresh_token jti now users token s =
      elim (J.decode settings.secret_key (settings.algorithm ∷ []) none now token) [
        | jwt_error e ↦ raises 401 (codes "Invalid refresh token: " ++ e)
        | claims payload ↦ refresh_payload jti now users payload s
      ]

-- A date, as year and month; the reset date is the first of the month after `now`.
unfoldable pub reset_month : ℕ → ℕ → ℕ × ℕ
reset_month year month = if month == 12 then (year + 1, 1) else (year, month + 1)

pub record UsageStatistics : Type 0 where
  pub minutes_used : ℕ
  pub minutes_limit : ℤ
  pub minutes_remaining : ℤ
  pub tier : Text
  pub reset_date : ℕ × ℕ

unfoldable pub get_usage_statistics : ℕ → ℕ → User → UsageStatistics
unfolding reset_month
get_usage_statistics year month user = record {
  minutes_used = user.translation_minutes_used;
  minutes_limit = user.translation_minutes_limit;
  minutes_remaining = minutes_remaining user;
  tier = user.tier;
  reset_date = reset_month year month;
}

-- `auth_health_check`: the status and the database's, by whether `SELECT 1` succeeded.
unfoldable pub auth_health_check : Bool → Text × Text
auth_health_check connected =
    if connected
    then (codes "healthy", codes "connected")
    else (codes "unhealthy", codes "disconnected")

-- `upgrade_tier`: 501, with the message and both tiers as the detail.
unfoldable pub upgrade_tier : Text → User → ℕ × List (Text × Text)
upgrade_tier target_tier user = (
  501,
  (codes "message", codes "Tier upgrade is not yet implemented")
      ∷ (codes "current_tier", user.tier)
      ∷ (codes "target_tier", target_tier)
      ∷ [],
)
