-- ===== src/Api/Translate/Statuses.antt =====
-- The statuses of the errors that the endpoints of app/api/v1/translate.py end with.
pub mod Checks
pub mod Client
use unitra_service_api.Common.{
  ℕ, ◌≡◌, refl, false, Bool-cases, Option-cases, inl, inr, ◌⊎◌, Option, none, some, List, [], ◌∷◌,
  suc, ltb, not, ◌+◌, ◌++◌, length,
}
use unitra_service_api.Common.Text.{Text, codes, text_eq}
use unitra_service_api.Common.Str.{str, Lowering, strip}
use unitra_service_api.Errors.{AppException, status_code}
use unitra_service_api.Errors.Handlers.{
  Raised, handle, app_exception_handler, generic_exception_handler,
}
use unitra_service_api.Limits.{TierLimits, tier_of_value}
use unitra_service_api.Redis.Server.{RedisServer}
use unitra_service_api.Batch.Http.{
  HttpOutcome, answered, status_error, request_error, undecodable, Reply,
}
use unitra_service_api.Api.Action.{Outcome, returned, raised}
use unitra_service_api.Api.Action.Errors.{
  ErrorIs, ErrorIs-if_else, OnlyRaises, OnlyRaises-bind, OnlyRaises-raise_if, OnlyRaises-lift,
  OnlyRaises-pure,
}
use unitra_service_api.Api.Languages.{
  normalize_language, contains, resolve_alias, supported_languages,
}
use unitra_service_api.Api.MtClient.{
  mt_translate, mt_translate_batch, MtRequest, translation_result, batch_translation_result, member,
}
use unitra_service_api.Api.Translate.Served.{posting, recording, checking, served}
use unitra_service_api.Api.Translate.Effects.{
  respond, respond_batch, batch_languages, translate_batch_served,
}
use unitra_service_api.Api.Translate.{
  User, World, Surroundings, TranslateRequest, BatchTranslateRequest, languages, check_texts,
  invalid_language, limits_of, limit_rate, check_quota, check_usage_limits, record_usage, translate,
  translate_batch, get_usage, estimate, estimate_batch,
}
use unitra_service_api.Api.Translate.Statuses.Checks.{
  Answered, refused_input, internal_error, languages-Answered, check_texts-Answered,
  check_usage_limits-OnlyRaises,
}
use unitra_service_api.Api.Translate.Statuses.Client.{
  mt_translate-Answered, mt_translate_batch-Answered,
}

module _ (R : RedisServer) (env : Surroundings) (user : User) where
  record_usage-OnlyRaises :
      (n : ℕ) (source target : Text)
      → OnlyRaises Answered (record_usage R env user.id n source target)
  unfolding record_usage
  record_usage-OnlyRaises n source target = record {
    error_is = λ w. elim (Bool-cases env.commits) [
      | inl commits ↦ rw commits tt
      | inr fails ↦ rw fails (internal_error (codes "SQLAlchemyError"))
    ];
  }

  -- the part that both endpoints share
  module _ {A B : Type 0} (l : Outcome (Text × Text)) (n : ℕ) (read : HttpOutcome → Outcome A)
      (request : Text → Text → MtRequest) (tokens : A → ℕ) (respond : A → Text → Text → B)
      (known : ErrorIs Answered l) (reads : (o : HttpOutcome) → ErrorIs Answered (read o)) where
    posting-OnlyRaises :
        (s t : Text) → OnlyRaises Answered (posting R env user l n read request tokens respond s t)
    posting-OnlyRaises s t = record { error_is = λ w. reads (env.post (request s t)) }

    recording-OnlyRaises :
        (s t : Text) (a : A)
        → OnlyRaises Answered (recording R env user l n read request tokens respond s t a)
    recording-OnlyRaises s t a =
        OnlyRaises-bind (record_usage-OnlyRaises (tokens a) s t)
          (λ _. OnlyRaises-pure {a = respond a s t})

    checking-OnlyRaises :
        (s t : Text) → OnlyRaises Answered (checking R env user l n read request tokens respond s t)
    checking-OnlyRaises s t =
        OnlyRaises-bind (check_usage_limits-OnlyRaises R env.week user n)
          (λ _. OnlyRaises-bind (posting-OnlyRaises s t) (recording-OnlyRaises s t))

    served-OnlyRaises : OnlyRaises Answered (served R env user l n read request tokens respond)
    served-OnlyRaises = OnlyRaises-bind (OnlyRaises-lift known) (λ (s, t). checking-OnlyRaises s t)

  translate-Answered :
      (request : TranslateRequest) (w : World R)
      → ErrorIs Answered (translate R env request user w).0
  unfolding translate
  translate-Answered request w =
      (served-OnlyRaises _ (estimate request.text) mt_translate (MtRequest.one request.text)
          (λ r. r.tokens_used) respond
          (languages-Answered env.lowering request.source_lang request.target_lang)
          mt_translate-Answered).error_is
        w

  few_texts-Answered :
      (request : BatchTranslateRequest)
      → ltb 16 (length request.texts) ≡ false
      → (o : Outcome Unit) → check_texts 0 request.texts ≡ o
      → ErrorIs Answered (batch_languages env request)
  few_texts-Answered request few (raised x) e =
      rw few (rw e (rw e at (check_texts-Answered 0 request.texts)))
  few_texts-Answered request few (returned _) e =
      rw few (rw e (languages-Answered env.lowering request.source_lang request.target_lang))

  batch_languages-Answered :
      (request : BatchTranslateRequest) → ErrorIs Answered (batch_languages env request)
  batch_languages-Answered request = elim (Bool-cases (ltb 16 (length request.texts))) [
    | inl many ↦ rw many (refused_input (codes "Maximum 16 texts per batch"))
    | inr few ↦ few_texts-Answered request few _ refl
  ]

  translate_batch-Answered :
      (request : BatchTranslateRequest) (w : World R)
      → ErrorIs Answered (translate_batch R env request user w).0
  translate_batch-Answered request w = rw (translate_batch_served R env user request w) (
      (served-OnlyRaises _ (estimate_batch request.texts) mt_translate_batch
          (MtRequest.many request.texts) (λ r. r.total_tokens) respond_batch
          (batch_languages-Answered request) mt_translate_batch-Answered).error_is
        w)

  get_usage-Answered : (week : Text) (w : World R) → ErrorIs Answered (get_usage R week user w).0
  unfolding get_usage limits_of
  get_usage-Answered week w = elim (Option-cases (tier_of_value user.tier)) [
    | inl unknown ↦ rw (get_usage, limits_of, unknown) (internal_error (codes "ValueError"))
    | inr (t, known) ↦ rw (get_usage, limits_of, known) tt
  ]

  -- What the bodies of the three endpoints that know a user raise, once FastAPI has validated the
  -- request and its dependencies have found the user and the clients, is answered with 403, 422, 429,
  -- 500 or 502, and with no other status: whatever is requested, whatever Redis holds and the
  -- service answers, and whether the database commits. A request without a valid token does not get
  -- here.
  pub endpoint_errors :
      (request : TranslateRequest) (batch : BatchTranslateRequest) (w : World R)
      → ErrorIs Answered (translate R env request user w).0
        × ErrorIs Answered (translate_batch R env batch user w).0
        × ErrorIs Answered (get_usage R env.week user w).0
  endpoint_errors request batch w = (
    translate-Answered request w,
    translate_batch-Answered batch w,
    get_usage-Answered env.week w,
  )
