-- ===== src/Auth/Tokens.antt =====
-- app/core/security.py and app/dependencies.py: access and refresh tokens, and the user id that a
-- request is made for. `jti` is the text of a new UUID.
pub mod Access
use unitra_service_api.Common.{
  ℕ, ◌*◌, ◌/◌, Bool, true, false, Option, none, some, [], ◌∷◌, ◌++◌, drop, ◌==◌, if◌then◌else◌,
}
use unitra_service_api.Common.Int.{ℤ, pos, negsuc, pos_part, ◌+ℤ◌}
use unitra_service_api.Common.Text.{Text, codes, text_eq}
use unitra_service_api.Common.Str.{Lowering}
use unitra_service_api.Common.Search.{starts_with, contains_text, bearer}
use unitra_service_api.Errors.{AppException, message}
use unitra_service_api.Auth.Jwt.{Jwt, Claims, claims, jwt_error}

-- The settings that tokens depend on.
pub record Settings : Type 0 where
  pub secret_key : Text
  pub algorithm : Text
  pub access_token_expire_minutes : ℕ
  pub refresh_token_expire_days : ℕ
  pub jwt_lifetime_seconds : ℕ

-- Returned, or raised as one of the application's exceptions.
pub data Checked (A : Type 0) : Type 0 where
  accepted : A → Checked A
  refused : AppException → Checked A

-- `expires_delta or default`, in microseconds: a zero delta is no delta.
abbrev pub delta_or : Option ℤ → ℕ → ℤ
delta_or none default = pos default
delta_or (some (negsuc n)) default = negsuc n
delta_or (some (pos n)) default = if n == 0 then pos default else pos n

-- The `exp` claim: the whole seconds of the time of expiry, which is after 1970.
abbrev pub expiry : ℕ → ℤ → ℕ
expiry now delta = pos_part (pos now +ℤ delta) / 1000000

abbrev pub stamped : Claims → ℕ → Text → Text → Claims
stamped data_claims exp kind jti = record data_claims {
  exp = some exp;
  type = some kind;
  jti = some jti;
}

-- `"Bearer "`'s length is 7: `authorization.split(" ", 1)[1]` of a header that begins with it.
abbrev pub after_bearer : Text → Text
after_bearer header = drop 7 header

abbrev pub is_type : Text → Option Text → Bool
is_type kind none = false
is_type kind (some t) = text_eq t kind

-- the exceptions that derive from AuthenticationError
abbrev pub is_authentication : AppException → Bool
is_authentication (AppException.authentication _ _) = true
is_authentication AppException.invalid_credentials = true
is_authentication AppException.token_expired = true
is_authentication (AppException.token_invalid _) = true
is_authentication AppException.token_revoked = true
is_authentication _ = false

module _ (J : Jwt) (settings : Settings) where
  unfoldable pub create_access_token : Text → ℕ → Claims → Option ℤ → Text
  create_access_token jti now data_claims expires_delta =
      let default = settings.access_token_expire_minutes * 60000000 in
      let expire = expiry now (delta_or expires_delta default) in
      J.encode settings.secret_key settings.algorithm
        (stamped data_claims expire (codes "access") jti)

  unfoldable pub create_refresh_token : Text → ℕ → Claims → Option ℤ → Text
  create_refresh_token jti now data_claims expires_delta =
      let default = settings.refresh_token_expire_days * 86400000000 in
      let expire = expiry now (delta_or expires_delta default) in
      J.encode settings.secret_key settings.algorithm
        (stamped data_claims expire (codes "refresh") jti)

  unfoldable pub verify_token : ℕ → Text → Text → Checked Claims
  verify_token now token token_type =
      elim (J.decode settings.secret_key (settings.algorithm ∷ []) none now token) [
        | jwt_error e ↦ refused (AppException.authentication (codes "Invalid token: " ++ e) [])
        | claims payload ↦
            if is_type token_type payload.type
            then accepted payload
            else refused (
                AppException.authentication (codes "Invalid token type: expected " ++ token_type)
                  [])
      ]

-- `sub` of a verified payload
unfoldable pub subject : Claims → Checked Text
subject payload = elim payload.sub [
  | none ↦ refused (AppException.token_invalid (codes "Token missing subject claim"))
  | some user_id ↦ elim user_id [
    | [] ↦ refused (AppException.token_invalid (codes "Token missing subject claim"))
    | c ∷ rest ↦ accepted (c ∷ rest)
  ]
]

module _ (J : Jwt) (L : Lowering) (settings : Settings) where
  -- the exception handler around `verify_token`
  unfoldable pub reclassified : AppException → AppException
  reclassified e =
      if contains_text (codes "expired") (L.lower (message e))
      then AppException.token_expired
      else AppException.token_invalid (message e)

  unfoldable pub checked_subject : Checked Claims → Checked Text
  unfolding reclassified subject
  checked_subject (accepted payload) = subject payload
  checked_subject (refused e) = refused (reclassified e)

  unfoldable pub get_current_user_id : ℕ → Option Text → Checked Text
  unfolding checked_subject
  get_current_user_id now none =
      refused (AppException.authentication (codes "Missing authorization header") [])
  get_current_user_id now (some []) =
      refused (AppException.authentication (codes "Missing authorization header") [])
  get_current_user_id now (some (c ∷ header)) =
      if starts_with bearer (c ∷ header)
      then checked_subject
          (verify_token J settings now (after_bearer (c ∷ header)) (codes "access"))
      else refused (AppException.authentication (codes "Invalid authorization header format") [])

  -- the exception handler around `get_current_user_id`
  unfoldable pub optional_id : Checked Text → Checked (Option Text)
  optional_id (accepted user_id) = accepted (some user_id)
  optional_id (refused e) = if is_authentication e then accepted none else refused e

  unfoldable pub get_optional_user_id : ℕ → Option Text → Checked (Option Text)
  unfolding optional_id
  get_optional_user_id now none = accepted none
  get_optional_user_id now (some []) = accepted none
  get_optional_user_id now (some (c ∷ header)) =
      optional_id (get_current_user_id now (some (c ∷ header)))
