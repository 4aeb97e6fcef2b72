-- ===== src/Api/Translate.antt =====
-- app/api/v1/translate.py: the usage checks and the endpoints. A handler is a step on
-- the world that it can change: the Redis store, the usage logs that are committed, and the requests
-- that were posted to the translation service.
pub mod Checks
pub mod Served
pub mod Effects
pub mod Statuses
pub mod Estimates
pub mod Limits
use unitra_service_api.Common.{
  ℕ, suc, ◌+◌, ◌-◌, ◌/◌, ◌*◌, max, Bool, ◌&&◌, not, none, some, List, [], ◌∷◌, ◌++◌, map, length,
  sum, leb, ltb, if◌then◌else◌,
}
use unitra_service_api.Common.Int.{ℤ, pos, negsuc}
use unitra_service_api.Common.Text.{Text, codes, text_eq}
use unitra_service_api.Common.Str.{Lowering, strip, str}
use unitra_service_api.Errors.{AppException}
use unitra_service_api.Errors.Handlers.{Raised}
use unitra_service_api.Limits.{TierLimits, tier_of_value, tier_limits}
use unitra_service_api.Redis.{alone, check_rate_limit, get_rate_limit_ttl}
use unitra_service_api.Redis as Redis
use unitra_service_api.Redis.Server.{RedisServer}
use unitra_service_api.Batch.Http.{HttpOutcome}
use unitra_service_api.Api.Action.{
  Outcome, returned, raised, Action, pure, lift, raise_if, ◌>>=◌, ◌>>◌,
}
use unitra_service_api.Api.Languages.{normalize_language}
pub use unitra_service_api.Api.Payloads.{
  TranslateRequest, TranslateResponse, BatchTranslateRequest, BatchTranslateResponse, UsageResponse,
  ProcessingLocation, UsageLog,
}
use unitra_service_api.Api.MtClient.{MtRequest, mt_translate, mt_translate_batch}

-- The columns of `User` that the endpoints read.
pub record User : Type 0 where
  pub id : Text
  pub tier : Text

-- What surrounds one request: the week of `datetime.now()`, the case mapping, what the service
-- answers to a post, and whether the database takes the commit.
pub record Surroundings : Type 0 where
  pub week : Text
  pub lowering : Lowering
  pub post : MtRequest → HttpOutcome
  pub commits : Bool

abbrev pub invalid_language : Text → Raised
invalid_language m = Raised.app (AppException.invalid_language m)

-- `Tier(user.tier)` and its limits.
unfoldable pub limits_of : User → Outcome TierLimits
limits_of user = elim (tier_of_value user.tier) [
  | none ↦ raised (Raised.unexpected (codes "ValueError"))
  | some t ↦ returned (tier_limits t)
]

-- `max(ttl, 1)`
abbrev pub at_least_one : ℤ → ℕ
at_least_one (pos n) = max n 1
at_least_one (negsuc n) = 1

-- The checks on the batch's texts, from the index `i` on.
unfoldable pub check_texts : ℕ → List Text → Outcome Unit
unfolding strip str
check_texts i [] = returned tt
check_texts i (t ∷ texts) =
    let rest = check_texts (suc i) texts in
    if ltb 512 (length t)
    then raised
        (invalid_language (codes "Text " ++ (str i ++ codes " exceeds 512 character limit")))
    else elim (strip t) [
      | [] ↦ raised (invalid_language (codes "Text " ++ (str i ++ codes " is empty")))
      | _ ∷ _ ↦ rest
    ]

-- The normalized languages, which have to differ.
unfoldable pub languages : Lowering → Text → Text → Outcome (Text × Text)
unfolding normalize_language
languages L source target = elim (normalize_language L source) [
  | raised e ↦ raised e
  | returned s ↦ elim (normalize_language L target) [
    | raised e ↦ raised e
    | returned t ↦
        if text_eq s t
        then raised
            (invalid_language (codes "Source and target languages must be different: " ++ s))
        else returned (s, t)
  ]
]

-- `max(len(request.text) // 4, 10)`
unfoldable pub estimate : Text → ℕ
estimate t = max (length t / 4) 10

unfoldable pub estimate_batch : List Text → ℕ
estimate_batch texts = max (sum (map (λ t. length t) texts) / 4) (10 * length texts)

module _ (R : RedisServer) where
  pub record World : Type 0 where
    pub redis : R.Store
    pub usage_logs : List UsageLog
    pub mt_requests : List MtRequest

  -- The rate limit of `check_usage_limits`, with no other request between its commands.
  unfoldable pub limit_rate : Text → ℕ → Action World Unit
  limit_rate id requests_per_minute w =
      let (allowed, remaining, redis) =
        check_rate_limit R id (codes "translate") requests_per_minute 60 (alone R) w.redis in
      let ttl = get_rate_limit_ttl R id (codes "translate") redis in
      let limited = AppException.rate_limit (at_least_one ttl) [] in
      (if allowed then returned tt else raised (Raised.app limited), record w { redis = redis })

  -- The weekly quota of `check_usage_limits`.
  unfoldable pub check_quota : Text → Text → ℕ → ℕ → Action World (ℕ × ℕ)
  check_quota week id tokens_estimate tokens_per_week w =
      let used = Redis.get_usage R week id w.redis in
      (
        if ltb tokens_per_week (used + tokens_estimate)
            then raised (Raised.app (AppException.usage_limit_exceeded tokens_per_week used))
            else returned (used, tokens_per_week),
        w,
      )

  unfoldable pub check_usage_limits : Text → User → ℕ → Action World (ℕ × ℕ)
  unfolding limits_of limit_rate check_quota
  check_usage_limits week user tokens_estimate = do
    limits ← lift (limits_of user)
    raise_if (not limits.cloud_mt_allowed)
        (Raised.app (AppException.insufficient_tier (codes "BASIC")))
    limit_rate user.id limits.requests_per_minute
    check_quota week user.id tokens_estimate limits.tokens_per_week

  -- The Redis counter first, then the row; a commit that fails is rolled back and raises.
  unfoldable pub record_usage : Surroundings → Text → ℕ → Text → Text → Action World Unit
  record_usage env user_id tokens source_lang target_lang w =
      let redis = (Redis.increment_usage R env.week user_id tokens w.redis).1 in
      let usage_log : UsageLog = record {
        user_id = user_id;
        tokens_used = tokens;
        source_lang = source_lang;
        target_lang = target_lang;
        processing_location = ProcessingLocation.cloud;
      } in
      if env.commits
      then (returned tt, record w { redis = redis; usage_logs = usage_log ∷ w.usage_logs })
      else (raised (Raised.unexpected (codes "SQLAlchemyError")), record w { redis = redis })

  -- A post to the service, noted in the world.
  abbrev post_to :
      {A : Type 0} → Surroundings → (HttpOutcome → Outcome A) → MtRequest → Action World A
  post_to env read request w =
      (read (env.post request), record w { mt_requests = request ∷ w.mt_requests })

  unfoldable pub translate : Surroundings → TranslateRequest → User → Action World TranslateResponse
  unfolding languages check_usage_limits record_usage mt_translate
  translate env request user = do
    (source_lang, target_lang) ←
        lift (languages env.lowering request.source_lang request.target_lang)
    check_usage_limits env.week user (estimate request.text)
    result ← post_to env mt_translate (MtRequest.one request.text source_lang target_lang)
    record_usage env user.id result.tokens_used source_lang target_lang
    pure (record {
      translated_text = result.translation;
      source_lang = source_lang;
      target_lang = target_lang;
      tokens_used = result.tokens_used;
      latency_ms = result.latency_ms;
      processing_mode = result.processing_mode;
    })

  unfoldable pub translate_batch :
      Surroundings → BatchTranslateRequest → User → Action World BatchTranslateResponse
  unfolding check_texts languages check_usage_limits record_usage mt_translate_batch
  translate_batch env request user = do
    raise_if (ltb 16 (length request.texts)) (invalid_language (codes "Maximum 16 texts per batch"))
    lift (check_texts 0 request.texts)
    (source_lang, target_lang) ←
        lift (languages env.lowering request.source_lang request.target_lang)
    check_usage_limits env.week user (estimate_batch request.texts)
    result ← post_to env mt_translate_batch (MtRequest.many request.texts source_lang target_lang)
    record_usage env user.id result.total_tokens source_lang target_lang
    pure (record {
      translations = result.translations;
      source_lang = source_lang;
      target_lang = target_lang;
      total_tokens = result.total_tokens;
      total_latency_ms = result.latency_ms;
      processing_mode = result.processing_mode;
    })

  unfoldable pub get_usage : Text → User → Action World UsageResponse
  get_usage week user w =
      let respond = λ (limits : TierLimits).
        let tokens_used = Redis.get_usage R week user.id w.redis in
        returned (record {
          tokens_used_this_week = tokens_used;
          tokens_limit = limits.tokens_per_week;
          tokens_remaining = limits.tokens_per_week - tokens_used;
          requests_per_minute_limit = limits.requests_per_minute;
        }) in
      (elim (limits_of user) [ returned limits ↦ respond limits | raised e ↦ raised e ], w)
