-- ===== src/Api/Tests.antt =====
-- Runs of the translation endpoints on a store in memory.
use unitra_service_api.Common.{
  ◌↔◌, ◌≢◌, ◌⊎◌, inr, ℕ, Bool, ◌≡◌, ◌<◌, refl, true, none, some, [], ◌∷◌, arith, map,
}
use unitra_service_api.Common.Int.{pos}
use unitra_service_api.Common.Text.{Text, codes, text_eq}
use unitra_service_api.Common.Str.{Lowering, ascii_lower, strip}
use unitra_service_api.Batch.Http.{Reply, answered}
use unitra_service_api.Errors.{AppException}
use unitra_service_api.Errors.Handlers.{Raised}
use unitra_service_api.Limits.{Tier, tier_of_value}
use unitra_service_api.Redis.{rate_limit_key, usage_key}
use unitra_service_api.Redis as Redis
use unitra_service_api.Redis.Server.Memory.{memory}
use unitra_service_api.Api.Action.{Outcome, returned, raised}
use unitra_service_api.Api.Languages.{contains, lookup, resolve_alias, normalize_language}
use unitra_service_api.Api.Translate.{
  check_texts, User, World, Surroundings, TranslateRequest, BatchTranslateRequest, UsageResponse,
  estimate, translate, translate_batch, get_usage, limits_of, check_usage_limits, limit_rate,
}
use unitra_service_api.Database.{Globals}
use unitra_service_api.Redis.Connection.{Global}
use unitra_service_api.Errors.Http.{responds}
use unitra_service_api.Api.Health.{AppInfo, HealthStatus, Probe, readiness_probe}
use unitra_service_api.Api.Health.Probes.{
  get_optional_db, get_optional_redis, probe_database, probe_redis, DatabaseAnswers, ready_iff,
  reported, health_check_iff,
}
use unitra_service_api.Api.Translate.Effects.{
  TranslateServed, BatchServed, translate_effect, translate_batch_effect,
}
use unitra_service_api.Api.Action.Errors.{ErrorIs}
use unitra_service_api.Api.Translate.Statuses.Checks.{Answered}
use unitra_service_api.Api.Translate.Statuses.{endpoint_errors}
use unitra_service_api.Api.Translate.Limits.{translate_beyond, limited_retry_after}

-- The case mapping of ASCII.
abbrev ascii : Lowering
ascii = record { lower = λ s. map ascii_lower s; lower-ascii = λ s h. refl }

normalized : normalize_language ascii (codes " ZH-Hant ") ≡ returned (codes "zh")
unfolding text_eq lookup contains resolve_alias normalize_language strip
normalized = refl

abbrev reply : Reply
reply = record {
  translation = some (codes "hallo");
  translations = some (codes "hallo" ∷ []);
  source_lang = some (codes "en");
  target_lang = some (codes "de");
  tokens_used = some 7;
  total_tokens = some 7;
  latency_ms = some 1;
  processing_mode = none;
}

abbrev env : Surroundings
env = record {
  week = codes "2025-W51";
  lowering = ascii;
  post = λ _. answered reply;
  commits = true;
}

abbrev user : Text → User
user tier = record { id = codes "u"; tier = tier }

abbrev hello : TranslateRequest
hello = record { text = codes "hello"; source_lang = codes "EN"; target_lang = codes "de" }

abbrev hellos : BatchTranslateRequest
hellos = record { texts = codes "hello" ∷ []; source_lang = codes "EN"; target_lang = codes "de" }

abbrev world : World memory
world = record { redis = λ _. none; usage_logs = []; mt_requests = [] }

translate_effect_example :
    TranslateServed memory env
      (user (codes "basic"))
      hello
      world
      (translate memory env hello (user (codes "basic")) world)
translate_effect_example = translate_effect memory env (user (codes "basic")) hello world

translate_batch_effect_example :
    BatchServed memory env
      (user (codes "basic"))
      hellos
      world
      (translate_batch memory env hellos (user (codes "basic")) world)
translate_batch_effect_example =
    translate_batch_effect memory env (user (codes "basic")) hellos world

free_tier : tier_of_value (codes "free") ≡ some Tier.free
unfolding tier_of_value text_eq
free_tier = refl

basic_tier : tier_of_value (codes "basic") ≡ some Tier.basic
unfolding tier_of_value text_eq
basic_tier = refl

-- A week whose quota is used up.
abbrev spent : World memory
spent = record world {
  redis = memory.incrby (usage_key (codes "u") (codes "2025-W51")) 100000 (λ _. none);
}

abbrev used_up : UsageResponse
used_up = record {
  tokens_used_this_week = 100000;
  tokens_limit = 100000;
  tokens_remaining = 0;
  requests_per_minute_limit = 60;
}

reports_used_up :
    (get_usage memory (codes "2025-W51") (user (codes "basic")) spent).0 ≡ returned used_up
unfolding get_usage limits_of tier_of_value text_eq usage_key Redis.get_usage
reports_used_up = refl

beyond : used_up.tokens_remaining < estimate hello.text
unfolding estimate
beyond = omega arith

translate_beyond_example :
    let r = translate memory env hello (user (codes "basic")) spent in
    (e : Raised) × (r.0 ≡ raised e) × (r.1.mt_requests ≡ [])
translate_beyond_example =
    translate_beyond memory env (user (codes "basic")) hello spent used_up reports_used_up beyond

-- A rate limit that is reached, with 30 seconds left.
abbrev limited : World memory
limited = record world {
  redis = memory.setex (rate_limit_key (codes "u") (codes "translate")) 30 60 (λ _. none);
}

counted : memory.get (rate_limit_key (codes "u") (codes "translate")) limited.redis ≡ some 60
unfolding text_eq rate_limit_key
counted = refl

runs : memory.ttl (rate_limit_key (codes "u") (codes "translate")) limited.redis ≡ pos 30
unfolding text_eq rate_limit_key
runs = refl

abbrev later : memory.Store
later = memory.after 10 limited.redis

limited_retry_after_example :
    (check_usage_limits memory (codes "2025-W51") (user (codes "basic")) 10 limited
      ≡ (raised (Raised.app (AppException.rate_limit 30 [])), limited))
    × (check_usage_limits memory
          (codes "2025-W51")
          (user (codes "basic"))
          10
          (record limited { redis = later })
        ≡ (raised (Raised.app (AppException.rate_limit 20 [])), record limited { redis = later }))
    × ((limit_rate memory
          (codes "u")
          60
          (record limited { redis = memory.after 31 limited.redis })).0
        ≡ returned tt)
limited_retry_after_example =
    limited_retry_after memory env (user (codes "basic")) Tier.basic 10 60 30 10 limited basic_tier
      refl counted (omega arith) runs (omega arith)

texts_pass : check_texts 0 hellos.texts ≡ returned tt
unfolding check_texts
texts_pass = refl

abbrev app_info : AppInfo
app_info = record { version = codes "1"; environment = codes "test" }

endpoint_errors_example :
    ErrorIs Answered (translate memory env hello (user (codes "basic")) world).0
    × ErrorIs Answered (translate_batch memory env hellos (user (codes "basic")) world).0
    × ErrorIs Answered (get_usage memory env.week (user (codes "basic")) world).0
endpoint_errors_example = endpoint_errors memory env (user (codes "basic")) hello hellos world

unknown_tier :
    (get_usage memory env.week (user (codes "gold")) world).0
    ≡ raised (Raised.unexpected (codes "ValueError"))
unfolding get_usage limits_of tier_of_value text_eq
unknown_tier = refl

abbrev opened : Globals
opened = record { engine = true; session_factory = true }

-- A client of Redis that was never connected, and connections that refuse.
abbrev unconnected : Global Text
unconnected = some none

abbrev refuse : Text → Outcome Bool
refuse c = raised (Raised.unexpected (codes "refused"))

abbrev answer : Text → Text ⊎ ℕ
answer session = inr 5

ready_iff_example :
    (readiness_probe
        (probe_database answer (get_optional_db (codes "s") opened))
        (probe_redis refuse 3 (get_optional_redis unconnected))
      ≡ responds (codes "ready"))
    ↔ (DatabaseAnswers (codes "s") answer opened × (unconnected ≢ none))
ready_iff_example = ready_iff (codes "s") answer refuse 3 opened unconnected

health_check_iff_example :
    let status = reported (codes "s") answer refuse 3 app_info 0 opened unconnected in
    ((status ≡ HealthStatus.healthy)
      ↔ (DatabaseAnswers (codes "s") answer opened × (unconnected ≢ none)))
    × ((status ≡ HealthStatus.degraded)
        ↔ (DatabaseAnswers (codes "s") answer opened × (unconnected ≡ none)))
    × ((status ≡ HealthStatus.unhealthy) ↔ (¬ DatabaseAnswers (codes "s") answer opened))
health_check_iff_example =
    health_check_iff (codes "s") answer refuse 3 app_info 0 opened unconnected

-- ..., so the probe is ready with such a client.
unconnected_ready :
    readiness_probe (Probe.succeeded 5) (probe_redis refuse 3 (get_optional_redis unconnected))
    ≡ responds (codes "ready")
unfolding probe_redis get_optional_redis readiness_probe
unconnected_ready = refl
