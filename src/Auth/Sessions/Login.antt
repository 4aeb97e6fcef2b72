-- ===== src/Auth/Sessions/Login.antt =====
-- The login tokens of app/auth/backend.py, read by app/dependencies.py.
use unitra_service_api.Common.{
  ℕ, ◌+◌, ◌/◌, ◌<◌, ◌≡◌, refl, ap, ◌∙◌, none, some, [], ◌++◌, ltb, if◌then◌else◌, arith, Bool-cases,
  inl, inr,
}
use unitra_service_api.Common.Text.{Text, codes}
use unitra_service_api.Common.Str.{Lowering}
use unitra_service_api.Common.Search.{bearer, contains_text}
use unitra_service_api.Errors.{AppException, message}
use unitra_service_api.Auth.Jwt.{Jwt}
use unitra_service_api.Auth.Tokens.{
  Settings, refused, verify_token, reclassified, checked_subject, get_current_user_id,
}
use unitra_service_api.Auth.Tokens.Access.{too_late_expired, bearer_subject}
use unitra_service_api.Auth.Users.{User, login_claims, write_token}

abbrev wrong_audience : AppException
wrong_audience = AppException.authentication (codes "Invalid token: Invalid audience") []

module _ (J : Jwt) (L : Lowering) (settings : Settings) where
  wrong_audience_invalid :
      reclassified J L settings wrong_audience
      ≡ AppException.token_invalid (codes "Invalid token: Invalid audience")
  unfolding reclassified message contains_text
  wrong_audience_invalid =
      rw (L.lower-ascii (codes "Invalid token: Invalid audience") (omega arith)) refl

  -- `get_current_user_id` accepts no login token, fresh or expired: a login token names an audience,
  -- and `verify_token` reads without one.
  pub login_token_refused :
      (jti : Text) (made now : ℕ) (user : User)
      → 0 < settings.jwt_lifetime_seconds
      → get_current_user_id J L settings now (some (bearer ++ write_token J settings jti made user))
        ≡ refused (
            if ltb (made / 1000000 + settings.jwt_lifetime_seconds) (now / 1000000)
            then AppException.token_expired
            else AppException.token_invalid (codes "Invalid token: Invalid audience"))
  unfolding write_token verify_token checked_subject
  login_token_refused jti made now user lives =
      let read =
        J.decode-generate_jwt settings.secret_key settings.algorithm none now made
          settings.jwt_lifetime_seconds (login_claims jti user) lives in
      bearer_subject J L settings now _
      ∙ elim (Bool-cases (ltb (made / 1000000 + settings.jwt_lifetime_seconds) (now / 1000000))) [
        | inl e ↦ rw (verify_token, read, e) (ap refused (too_late_expired J L settings))
        | inr e ↦ rw (verify_token, read, e) (ap refused wrong_audience_invalid)
      ]
