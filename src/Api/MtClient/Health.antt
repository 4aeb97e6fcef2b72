-- ===== src/Api/MtClient/Health.antt =====
-- The health checks of the machine translation service: `MTClient.health_check` of
-- app/services/mt_client.py and `BatchProcessor.health_check` of app/services/batch/processor.py,
-- of the outcome of their request.
use unitra_service_api.Common.{ℕ, Bool, Option, some, ◌++◌}
use unitra_service_api.Common.Text.{Text, codes}
use unitra_service_api.Common.Str.{str}
use unitra_service_api.Api.Action.{Outcome, returned, raised}
use unitra_service_api.Errors.Handlers.{Raised}
use unitra_service_api.Api.MtClient.{member, ml_service_error, ◌>>=◌}

-- The members that are read from the JSON object of a reply; `none` for a missing key.
pub record HealthReply : Type 0 where
  pub status : Option Text
  pub model_id : Option Text
  pub model_loaded : Option Bool
  pub gpu_available : Option Bool
  pub warm : Option Bool

-- As for a post: a success with a JSON object, an error status, a failed request with its text, or
-- a body that cannot be decoded.
pub data HealthOutcome : Type 0 where
  healthy_reply : HealthReply → HealthOutcome
  status_error : ℕ → HealthOutcome
  request_error : Text → HealthOutcome
  undecodable : Text → HealthOutcome

pub record MtHealthStatus : Type 0 where
  pub status : Text
  pub model_id : Text
  pub model_loaded : Bool
  pub gpu_available : Bool
  pub warm : Bool

unfoldable pub health_status : HealthReply → Outcome MtHealthStatus
health_status data_ = do
  status ← member (codes "status") data_.status
  model_id ← member (codes "model_id") data_.model_id
  model_loaded ← member (codes "model_loaded") data_.model_loaded
  gpu_available ← member (codes "gpu_available") data_.gpu_available
  warm ← member (codes "warm") data_.warm
  returned (record {
    status = status;
    model_id = model_id;
    model_loaded = model_loaded;
    gpu_available = gpu_available;
    warm = warm;
  })

unfoldable pub mt_health_check : HealthOutcome → Outcome MtHealthStatus
unfolding health_status str
mt_health_check (healthy_reply reply) = health_status reply
mt_health_check (status_error status) =
    ml_service_error (codes "Health check failed with status " ++ str status)
mt_health_check (request_error e) = ml_service_error (codes "Health check request failed: " ++ e)
mt_health_check (undecodable e) = raised (Raised.unexpected (codes "JSONDecodeError"))

-- The status that the processor's health check returns, `none` for a reply without one. It never
-- raises.
unfoldable pub processor_health : HealthOutcome → Option Text
processor_health (healthy_reply reply) = reply.status
processor_health (status_error status) = some (codes "unhealthy")
processor_health (request_error e) = some (codes "unhealthy")
processor_health (undecodable e) = some (codes "unhealthy")
