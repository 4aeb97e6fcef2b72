-- ===== src/Errors.antt =====
-- app/core/exceptions.py: the exception classes, with the message, status, code and details that
-- their constructors compute.
mod Tests
pub mod Handlers
pub mod Http
use unitra_service_api.Common.{
  ℕ, Bool, true, false, Option, none, some, List, [], ◌∷◌, ◌++◌, if◌then◌else◌,
}
use unitra_service_api.Common.Text.{Text, codes, text_eq}

-- The values of a details dict.
pub data Detail : Type 0 where
  text : Text → Detail
  number : ℕ → Detail

abbrev pub Details : Type 0
Details = List (Text × Detail)

pub data AppException : Type 0 where
  -- `AppException(message, status_code, error_code, details)`
  app_exception : Text → ℕ → Text → Details → AppException
  authentication : Text → Details → AppException
  invalid_credentials : AppException
  token_expired : AppException
  token_invalid : Text → AppException
  token_revoked : AppException
  authorization : Text → Details → AppException
  insufficient_tier : Text → AppException
  account_inactive : AppException
  email_not_verified : AppException
  not_found : Text → Option Text → AppException
  resource_conflict : Text → Details → AppException
  duplicate_email : Text → AppException
  -- `ValidationError(message, field, details)`
  validation : Text → Option Text → Details → AppException
  invalid_language : Text → AppException
  -- `RateLimitError(retry_after, details)`
  rate_limit : ℕ → Details → AppException
  usage_limit_exceeded : ℕ → ℕ → AppException
  external_service : Text → Text → AppException
  ml_service : Text → AppException
  stripe_service : Text → AppException

-- `exc.message`
unfoldable pub message : AppException → Text
message (app_exception m _ _ _) = m
message (authentication m _) = m
message invalid_credentials = codes "Invalid email or password"
message token_expired = codes "Token has expired"
message (token_invalid reason) = reason
message token_revoked = codes "Token has been revoked"
message (authorization m _) = m
message (insufficient_tier tier) =
    codes "This feature requires " ++ (tier ++ codes " tier or higher")
message account_inactive = codes "Account is inactive"
message email_not_verified = codes "Email address not verified"
message (not_found resource _) = resource ++ codes " not found"
message (resource_conflict m _) = m
message (duplicate_email _) = codes "Email already registered"
message (validation m _ _) = m
message (invalid_language lang) = codes "Invalid language code: " ++ lang
message (rate_limit _ _) = codes "Rate limit exceeded"
message (usage_limit_exceeded _ _) = codes "Weekly usage limit exceeded"
message (external_service service m) = service ++ (codes ": " ++ m)
message (ml_service m) = codes "ML Service: " ++ m
message (stripe_service m) = codes "Stripe: " ++ m

-- `exc.status_code`
unfoldable pub status_code : AppException → ℕ
status_code (app_exception _ status _ _) = status
status_code (authentication _ _) = 401
status_code invalid_credentials = 401
status_code token_expired = 401
status_code (token_invalid _) = 401
status_code token_revoked = 401
status_code (authorization _ _) = 403
status_code (insufficient_tier _) = 403
status_code account_inactive = 403
status_code email_not_verified = 403
status_code (not_found _ _) = 404
status_code (resource_conflict _ _) = 409
status_code (duplicate_email _) = 409
status_code (validation _ _ _) = 422
status_code (invalid_language _) = 422
status_code (rate_limit _ _) = 429
status_code (usage_limit_exceeded _ _) = 429
status_code (external_service _ _) = 502
status_code (ml_service _) = 502
status_code (stripe_service _) = 502

-- `exc.error_code`, after the subclass has set it anew.
unfoldable pub error_code : AppException → Text
error_code (app_exception _ _ code _) = code
error_code (authentication _ _) = codes "AUTH_FAILED"
error_code invalid_credentials = codes "INVALID_CREDENTIALS"
error_code token_expired = codes "TOKEN_EXPIRED"
error_code (token_invalid _) = codes "TOKEN_INVALID"
error_code token_revoked = codes "TOKEN_REVOKED"
error_code (authorization _ _) = codes "ACCESS_DENIED"
error_code (insufficient_tier _) = codes "INSUFFICIENT_TIER"
error_code account_inactive = codes "ACCOUNT_INACTIVE"
error_code email_not_verified = codes "EMAIL_NOT_VERIFIED"
error_code (not_found _ _) = codes "RESOURCE_NOT_FOUND"
error_code (resource_conflict _ _) = codes "RESOURCE_CONFLICT"
error_code (duplicate_email _) = codes "DUPLICATE_EMAIL"
error_code (validation _ _ _) = codes "VALIDATION_ERROR"
error_code (invalid_language _) = codes "INVALID_LANGUAGE"
error_code (rate_limit _ _) = codes "RATE_LIMIT_EXCEEDED"
error_code (usage_limit_exceeded _ _) = codes "USAGE_LIMIT_EXCEEDED"
error_code (external_service _ _) = codes "EXTERNAL_SERVICE_ERROR"
error_code (ml_service _) = codes "ML_SERVICE_ERROR"
error_code (stripe_service _) = codes "STRIPE_SERVICE_ERROR"

-- `d[key] = value`
unfoldable pub set_detail : Text → Detail → Details → Details
set_detail key value [] = (key, value) ∷ []
set_detail key value ((k, v) ∷ d) =
    if text_eq k key then (k, value) ∷ d else (k, v) ∷ set_detail key value d

-- `{**d, **more}`
unfoldable pub merge : Details → Details → Details
unfolding set_detail
merge d [] = d
merge d ((k, v) ∷ more) = merge (set_detail k v d) more

-- `{"field": field}` if a field and no details are given; an empty text counts as no field.
unfoldable pub validation_details : Option Text → Details → Details
validation_details (some (c ∷ f)) [] = (codes "field", text (c ∷ f)) ∷ []
validation_details _ d = d

-- `exc.details`
unfoldable pub details : AppException → Details
unfolding merge validation_details
details (app_exception _ _ _ d) = d
details (authentication _ d) = d
details invalid_credentials = []
details token_expired = []
details (token_invalid _) = []
details token_revoked = []
details (authorization _ d) = d
details (insufficient_tier tier) = (codes "required_tier", text tier) ∷ []
details account_inactive = []
details email_not_verified = []
details (not_found resource (some (c ∷ i))) =
    (codes "resource", text resource) ∷ (codes "identifier", text (c ∷ i)) ∷ []
details (not_found resource _) = (codes "resource", text resource) ∷ []
details (resource_conflict _ d) = d
details (duplicate_email email) = (codes "email", text email) ∷ []
details (validation _ field d) = validation_details field d
details (invalid_language lang) = (codes "language", text lang) ∷ []
details (rate_limit retry_after d) = merge ((codes "retry_after", number retry_after) ∷ []) d
details (usage_limit_exceeded limit used) =
    (codes "limit", number limit) ∷ (codes "used", number used) ∷ []
details (external_service service _) = (codes "service", text service) ∷ []
details (ml_service _) = (codes "service", text (codes "ML Service")) ∷ []
details (stripe_service _) = (codes "service", text (codes "Stripe")) ∷ []
