-- ===== src/Errors/Handlers.antt =====
-- app/core/exception_handlers.py: the response for each exception that leaves a handler.
use unitra_service_api.Common.{
  ℕ, ◌≤◌, ◌≡◌, ◌↔◌, refl, Option, none, some, List, [], ◌∷◌, ◌++◌, map, arith,
}
use unitra_service_api.Common.Text.{Text, codes}
use unitra_service_api.Errors.{AppException, Details, message, status_code, error_code, details}

-- One entry of `RequestValidationError.errors()`, its location already as texts.
pub record FieldError : Type 0 where
  pub loc : List Text
  pub msg : Text
  pub type : Text

pub record ErrorItem : Type 0 where
  pub field : Text
  pub message : Text
  pub type : Text

-- The details of an error body: a dict, or `{"errors": ...}` with the list of field errors.
pub data BodyDetails : Type 0 where
  plain : Details → BodyDetails
  listed : List ErrorItem → BodyDetails

-- `create_error_response`
pub record ErrorBody : Type 0 where
  pub code : Text
  pub message : Text
  pub details : BodyDetails

unfoldable pub create_error_response : Text → Text → BodyDetails → ErrorBody
create_error_response code message details = record {
  code = code;
  message = message;
  details = details;
}

-- `retry_after` is the number in the Retry-After header, if there is one.
pub record JsonResponse : Type 0 where
  pub status : ℕ
  pub content : ErrorBody
  pub retry_after : Option ℕ

unfoldable pub retry_after_of : AppException → Option ℕ
retry_after_of (AppException.rate_limit n _) = some n
retry_after_of _ = none

unfoldable pub app_exception_handler : AppException → JsonResponse
unfolding create_error_response retry_after_of
app_exception_handler exc = record {
  status = status_code exc;
  content = create_error_response (error_code exc) (message exc) (BodyDetails.plain (details exc));
  retry_after = retry_after_of exc;
}

-- `".".join(loc)`
unfoldable pub join_dots : List Text → Text
join_dots [] = []
join_dots (t ∷ []) = t
join_dots (t ∷ u ∷ ts) = t ++ (codes "." ++ join_dots (u ∷ ts))

unfoldable pub validation_exception_handler : List FieldError → JsonResponse
unfolding create_error_response join_dots
validation_exception_handler errors = record {
  status = 422;
  content = create_error_response (codes "VALIDATION_ERROR") (codes "Request validation failed") (
      BodyDetails.listed
        (map (λ e. record { field = join_dots e.loc; message = e.msg; type = e.type }) errors));
  retry_after = none;
}

-- The exception's text goes into the log alone.
unfoldable pub generic_exception_handler : Text → JsonResponse
unfolding create_error_response
generic_exception_handler exc = record {
  status = 500;
  content =
      create_error_response (codes "INTERNAL_ERROR") (codes "An unexpected error occurred")
        (BodyDetails.plain []);
  retry_after = none;
}

-- What can be raised, by the class that `register_exception_handlers` registers a handler for.
pub data Raised : Type 0 where
  app : AppException → Raised
  request_validation : List FieldError → Raised
  unexpected : Text → Raised

-- The handlers that `register_exception_handlers` installs.
unfoldable pub handle : Raised → JsonResponse
unfolding app_exception_handler validation_exception_handler generic_exception_handler
handle (Raised.app exc) = app_exception_handler exc
handle (Raised.request_validation errors) = validation_exception_handler errors
handle (Raised.unexpected exc) = generic_exception_handler exc

-- The classes that derive from AppException, without AppException itself, whose status is its
-- caller's.
abbrev pub IsDerived : AppException → Type 0
IsDerived (AppException.app_exception _ _ _ _) = ⊥
IsDerived _ = Unit

-- A derived exception is answered with an error status, from 401 to 502, and with its own code and
-- message in the body. The Retry-After header is there exactly for a rate limit, with its delay.
pub handle_app :
    (e : AppException)
    → IsDerived e
    → let r = handle (Raised.app e) in
      ((401 ≤ r.status) × (r.status ≤ 502))
      × (r.content.code ≡ error_code e)
      × (r.content.message ≡ message e)
      × ((n : ℕ) → (r.retry_after ≡ some n) ↔ ((d : Details) × (e ≡ AppException.rate_limit n d)))
unfolding handle status_code
handle_app (AppException.app_exception _ _ _ _) h = elim h [ ]
handle_app (AppException.rate_limit m d) h =
    (omega arith, refl, refl, λ n. (λ e. (d, cc), λ e. let f = e.1 in cc))
handle_app e h = (omega arith, refl, refl, λ n. (λ f. cc, λ f. let g = f.1 in cc))

-- The response for an exception that is not the application's tells nothing about it.
pub handle_unexpected_hides :
    (e f : Text) → handle (Raised.unexpected e) ≡ handle (Raised.unexpected f)
unfolding handle
handle_unexpected_hides e f = refl
