-- ===== src/Api/Health.antt =====
-- app/api/v1/health.py: the aggregation of the probes of the database and of Redis. A probe is what
-- `SELECT 1` or `ping` has come to, its latency in microseconds.
pub mod Probes
use unitra_service_api.Common.{ℕ, ◌≡◌, refl, ◌↔◌, Option, none, some, List, [], ◌∷◌, ◌++◌}
use unitra_service_api.Common.Text.{Text, codes}
use unitra_service_api.Errors.Http.{Reply, responds, raises}

pub data HealthStatus : Type 0 where
  healthy : HealthStatus
  degraded : HealthStatus
  unhealthy : HealthStatus

pub record ComponentHealth : Type 0 where
  pub status : HealthStatus
  pub latency : Option ℕ
  pub message : Option Text

pub data Probe : Type 0 where
  -- the dependency is None
  missing : Probe
  succeeded : ℕ → Probe
  failed : Text → Probe

abbrev working : ℕ → ComponentHealth
working latency = record { status = HealthStatus.healthy; latency = some latency; message = none }

abbrev broken : Text → ComponentHealth
broken message = record { status = HealthStatus.unhealthy; latency = none; message = some message }

-- The check of the database: its component and the overall status so far.
unfoldable pub check_database : Probe → ComponentHealth × HealthStatus
check_database Probe.missing = (broken (codes "Database not initialized"), HealthStatus.unhealthy)
check_database (Probe.succeeded latency) = (working latency, HealthStatus.healthy)
check_database (Probe.failed e) = (broken e, HealthStatus.unhealthy)

-- `if overall_status == HealthStatus.HEALTHY: overall_status = HealthStatus.DEGRADED`
abbrev degrade : HealthStatus → HealthStatus
degrade HealthStatus.healthy = HealthStatus.degraded
degrade status = status

unfoldable pub check_redis : Probe → HealthStatus → ComponentHealth × HealthStatus
check_redis Probe.missing overall = (broken (codes "Redis not initialized"), degrade overall)
check_redis (Probe.succeeded latency) overall = (working latency, overall)
check_redis (Probe.failed e) overall = (broken e, degrade overall)

-- The settings that the responses quote.
pub record AppInfo : Type 0 where
  pub version : Text
  pub environment : Text

pub record HealthResponse : Type 0 where
  pub status : HealthStatus
  pub version : Text
  pub environment : Text
  pub timestamp : ℕ
  pub components : List (Text × ComponentHealth)

unfoldable pub health_check : AppInfo → ℕ → Probe → Probe → HealthResponse
unfolding check_database check_redis
health_check app now db redis =
    let (database, so_far) = check_database db in
    let (cache, overall) = check_redis redis so_far in
    record {
      status = overall;
      version = app.version;
      environment = app.environment;
      timestamp = now;
      components = (codes "database", database) ∷ (codes "redis", cache) ∷ [];
    }

-- `liveness_probe`, the status of its response
unfoldable pub liveness_probe : Text
liveness_probe = codes "alive"

unfoldable pub database_errors : Probe → List Text
database_errors Probe.missing = codes "Database not initialized" ∷ []
database_errors (Probe.succeeded _) = []
database_errors (Probe.failed e) = (codes "Database: " ++ e) ∷ []

unfoldable pub redis_errors : Probe → List Text
redis_errors Probe.missing = codes "Redis not initialized" ∷ []
redis_errors (Probe.succeeded _) = []
redis_errors (Probe.failed e) = (codes "Redis: " ++ e) ∷ []

-- `'; '.join(errors)`
unfoldable pub join_errors : List Text → Text
join_errors [] = []
join_errors (e ∷ []) = e
join_errors (e ∷ f ∷ es) = e ++ (codes "; " ++ join_errors (f ∷ es))

unfoldable pub report_errors : List Text → Reply Text
unfolding join_errors
report_errors [] = responds (codes "ready")
report_errors (e ∷ es) = raises 503 (codes "Not ready: " ++ join_errors (e ∷ es))

unfoldable pub readiness_probe : Probe → Probe → Reply Text
unfolding database_errors redis_errors report_errors
readiness_probe db redis = report_errors (database_errors db ++ redis_errors redis)

pub record VersionResponse : Type 0 where
  pub version : Text
  pub environment : Text
  pub python_version : Text
  pub commit_sha : Option Text

-- `version`, with Python's own version and the environment's `GIT_COMMIT_SHA`
unfoldable pub version_response : AppInfo → Text → Option Text → VersionResponse
version_response app python_version commit_sha = record {
  version = app.version;
  environment = app.environment;
  python_version = python_version;
  commit_sha = commit_sha;
}
