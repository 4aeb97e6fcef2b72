-- ===== src/Auth/Users.antt =====
-- app/auth/models.py, the hooks of app/auth/manager.py that change a user, and the login token of
-- app/auth/backend.py. What the hooks log is in `Auth.Events`.
use unitra_service_api.Common.{ℕ, ◌+◌, ◌-◌, ◌==◌, Bool, Option, none, some, [], ◌∷◌, if◌then◌else◌}
use unitra_service_api.Common.Int.{ℤ, pos, negsuc}
use unitra_service_api.Common.Text.{Text, codes}
use unitra_service_api.Batch.Config.{UserTier, tier_of_value}
use unitra_service_api.Auth.Jwt.{Jwt, Claims}
use unitra_service_api.Auth.Tokens.{Settings}

-- The columns that the authentication reads or writes.
pub record User : Type 0 where
  pub id : Text
  pub email : Text
  pub tier : Text
  pub is_active : Bool
  pub stripe_subscription_id : Option Text
  pub translation_minutes_used : ℕ
  -- -1 for no limit
  pub translation_minutes_limit : ℤ
  pub last_login_at : Option ℕ
  pub login_count : ℕ

-- The minutes of `TIER_LIMITS`; its enum has the tiers of the batch service.
abbrev pub tier_minutes : UserTier → ℤ
tier_minutes UserTier.free = pos 60
tier_minutes UserTier.basic = pos 300
tier_minutes UserTier.pro = pos 1200
tier_minutes UserTier.enterprise = negsuc 0

unfoldable pub minutes_remaining : User → ℤ
minutes_remaining user = elim user.translation_minutes_limit [
  | negsuc n ↦ if n == 0 then negsuc 0 else pos 0
  | pos limit ↦ pos (limit - user.translation_minutes_used)
]

-- `none` is the ValueError of a tier that is not in the enum.
unfoldable pub on_after_register : User → Option User
on_after_register user = elim (tier_of_value user.tier) [
  | none ↦ none
  | some tier ↦ some (record user { translation_minutes_limit = tier_minutes tier })
]

unfoldable pub on_after_login : ℕ → User → User
on_after_login now user = record user {
  last_login_at = some now;
  login_count = user.login_count + 1;
}

-- The audience of login tokens.
abbrev pub audience : Text
audience = codes "unitra:auth"

-- The data of a login token.
abbrev pub login_claims : Text → User → Claims
login_claims jti user = record {
  sub = some user.id;
  aud = some (audience ∷ []);
  jti = some jti;
  type = none;
  exp = none;
  tier = some user.tier;
  minutes_remaining = some (minutes_remaining user);
}

-- `CustomJWTStrategy.write_token`
unfoldable pub write_token : Jwt → Settings → Text → ℕ → User → Text
write_token J settings jti now user =
    J.generate_jwt (login_claims jti user) settings.secret_key settings.jwt_lifetime_seconds
      settings.algorithm now
