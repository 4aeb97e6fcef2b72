-- ===== src/Api/Health/Probes.antt =====
-- The dependencies of the probes of app/api/v1/health.py, and what `SELECT 1` and `ping` come to.
use unitra_service_api.Common.{
  ℕ, ◌≡◌, ◌↔◌, ◌≢◌, ◌⊎◌, inl, inr, refl, Bool, true, false, Bool-cases, Option, none, some,
}
use unitra_service_api.Common.Text.{Text, codes}
use unitra_service_api.Errors.Http.{responds}
use unitra_service_api.Api.Action.{Outcome, returned, raised}
use unitra_service_api.Database.{Globals}
use unitra_service_api.Redis.Connection.{RedisClient, Global, ping, get_redis}
use unitra_service_api.Api.Health.{Probe, HealthStatus, AppInfo, health_check, readiness_probe}

-- `get_optional_db`: `session` is the one that the factory makes.
unfoldable pub get_optional_db : {D : Type 0} → D → Globals → Option D
get_optional_db session g = elim g.session_factory [ true ↦ some session | false ↦ none ]

abbrev kept : {A : Type 0} → Outcome A → Option A
kept (returned a) = some a
kept (raised e) = none

-- `get_optional_redis`
unfoldable pub get_optional_redis : {C : Type 0} → Global C → Option (RedisClient C)
unfolding get_redis
get_optional_redis global = kept (get_redis global)

abbrev executed : Text ⊎ ℕ → Probe
executed (inl e) = Probe.failed e
executed (inr latency) = Probe.succeeded latency

-- `SELECT 1` on a session: it comes to the text of an exception or to its latency.
unfoldable pub probe_database : {D : Type 0} → (D → Text ⊎ ℕ) → Option D → Probe
probe_database execute none = Probe.missing
probe_database execute (some session) = executed (execute session)

-- What `ping` answers is not looked at.
abbrev pinged : ℕ → Bool → Probe
pinged latency answer = Probe.succeeded latency

-- `ping` of a client, which returns whatever happens to its connection.
unfoldable pub probe_redis : {C : Type 0} → (C → Outcome Bool) → ℕ → Option (RedisClient C) → Probe
unfolding ping
probe_redis ping_connection latency none = Probe.missing
probe_redis ping_connection latency (some self) = pinged latency (ping ping_connection self)

-- The readiness probe answers "ready" exactly on two probes that succeed.
ready_of_probes :
    (db redis : Probe)
    → (readiness_probe db redis ≡ responds (codes "ready"))
      ↔ (((m : ℕ) × (db ≡ Probe.succeeded m)) × ((n : ℕ) × (redis ≡ Probe.succeeded n)))
unfolding readiness_probe
ready_of_probes (Probe.succeeded m) (Probe.succeeded n) = (λ e. ((m, refl), (n, refl)), λ h. refl)
ready_of_probes db redis = (λ e. cc, λ h. let (m, d) = h.0 in let (n, r) = h.1 in cc)

executed_iff :
    (o : Text ⊎ ℕ) → ((m : ℕ) × (executed o ≡ Probe.succeeded m)) ↔ ((n : ℕ) × (o ≡ inr n))
executed_iff (inl e) = (λ h. let (m, p) = h in cc, λ h. let (n, p) = h in cc)
executed_iff (inr n) = (λ h. (n, refl), λ h. (n, refl))

-- The database has a session, and answers on it.
abbrev pub DatabaseAnswers : {D : Type 0} → D → (D → Text ⊎ ℕ) → Globals → Type 0
DatabaseAnswers session execute g =
    (g.session_factory ≡ true) × ((n : ℕ) × (execute session ≡ inr n))

module _ {C D : Type 0} (session : D) (execute : D → Text ⊎ ℕ) (ping_connection : C → Outcome Bool)
    (latency : ℕ) where
  -- no session, no answer
  probe_database_closed :
      (g : Globals)
      → g.session_factory ≡ false
      → probe_database execute (get_optional_db session g) ≡ Probe.missing
  unfolding probe_database get_optional_db
  probe_database_closed g closed = rw (get_optional_db, closed) refl

  probe_database_opened :
      (g : Globals)
      → g.session_factory ≡ true
      → probe_database execute (get_optional_db session g) ≡ executed (execute session)
  unfolding probe_database get_optional_db
  probe_database_opened g opened = rw (get_optional_db, opened) refl

  probe_database_iff :
      (g : Globals)
      → ((m : ℕ) × (probe_database execute (get_optional_db session g) ≡ Probe.succeeded m))
        ↔ DatabaseAnswers session execute g
  probe_database_iff g = elim (Bool-cases g.session_factory) [
    | inl opened ↦ rw (probe_database_opened g opened) (
      λ h. (opened, (executed_iff (execute session)).0 h),
      λ h. (executed_iff (execute session)).1 h.1,
    )
    | inr closed ↦
        rw (probe_database_closed g closed) (λ h. let (m, p) = h in cc, λ h. let p = h.0 in cc)
  ]

  probe_redis_iff :
      (global : Global C)
      → ((n : ℕ) × (probe_redis ping_connection latency (get_optional_redis global)
            ≡ Probe.succeeded n))
        ↔ (global ≢ none)
  unfolding probe_redis get_optional_redis get_redis
  probe_redis_iff none = (λ h. let (m, p) = h in cc, λ h. absurd (h refl))
  probe_redis_iff (some self) = (λ h e. cc, λ h. (latency, refl))

  -- The readiness probe answers "ready" exactly if the database has a session that answers the
  -- query and the module has a client of Redis. Whether that client has a connection, and whether
  -- Redis answers on it, plays no part.
  pub ready_iff :
      (g : Globals) (global : Global C)
      → (readiness_probe
            (probe_database execute (get_optional_db session g))
            (probe_redis ping_connection latency (get_optional_redis global))
          ≡ responds (codes "ready"))
        ↔ (DatabaseAnswers session execute g × (global ≢ none))
  ready_iff g global =
      let probes = ready_of_probes _ _ in
      (
        λ e. let (d, r) = probes.0 e in ((probe_database_iff g).0 d, (probe_redis_iff global).0 r),
        λ h. probes.1 ((probe_database_iff g).1 h.0, (probe_redis_iff global).1 h.1),
      )

  -- What the health check reports as a whole.
  abbrev pub reported : AppInfo → ℕ → Globals → Global C → HealthStatus
  reported app now g global =
      (health_check app now (probe_database execute (get_optional_db session g))
        (probe_redis ping_connection latency (get_optional_redis global))).status

  -- the same, of a module that has sessions or not and what its query comes to
  abbrev answered : Bool → Text ⊎ ℕ → Probe
  answered false o = Probe.missing
  answered true o = executed o

  probe_database-answered :
      (g : Globals)
      → probe_database execute (get_optional_db session g)
        ≡ answered g.session_factory (execute session)
  probe_database-answered g = elim (Bool-cases g.session_factory) [
    | inl opened ↦ rw (probe_database_opened g opened, opened) refl
    | inr closed ↦ rw (probe_database_closed g closed, closed) refl
  ]

  abbrev Answers : Bool → Text ⊎ ℕ → Type 0
  Answers b o = (b ≡ true) × ((n : ℕ) × (o ≡ inr n))

  status_cases :
      (app : AppInfo) (now : ℕ) (b : Bool) (o : Text ⊎ ℕ) (global : Global C)
      → let status =
          (health_check app now
            (answered b o)
            (probe_redis ping_connection latency (get_optional_redis global))).status in
        ((status ≡ HealthStatus.healthy) ↔ (Answers b o × (global ≢ none)))
        × ((status ≡ HealthStatus.degraded) ↔ (Answers b o × (global ≡ none)))
        × ((status ≡ HealthStatus.unhealthy) ↔ (¬ Answers b o))
  unfolding health_check probe_redis get_optional_redis get_redis
  status_cases app now true (inr n) (some self) = (
    (λ e. ((refl, (n, refl)), λ none_set. cc), λ h. refl),
    (λ e. cc, λ h. let p = h.1 in cc),
    (λ e. cc, λ h. absurd (h (refl, (n, refl)))),
  )
  status_cases app now true (inr n) none = (
    (λ e. cc, λ h. absurd (h.1 refl)),
    (λ e. ((refl, (n, refl)), refl), λ h. refl),
    (λ e. cc, λ h. absurd (h (refl, (n, refl)))),
  )
  status_cases app now true (inl f) (some self) = (
    (λ e. cc, λ h. let (n, p) = h.0.1 in cc),
    (λ e. cc, λ h. let (n, p) = h.0.1 in cc),
    (λ e h. let (n, p) = h.1 in cc, λ h. refl),
  )
  status_cases app now true (inl f) none = (
    (λ e. cc, λ h. let (n, p) = h.0.1 in cc),
    (λ e. cc, λ h. let (n, p) = h.0.1 in cc),
    (λ e h. let (n, p) = h.1 in cc, λ h. refl),
  )
  status_cases app now false o (some self) = (
    (λ e. cc, λ h. let p = h.0.0 in cc),
    (λ e. cc, λ h. let p = h.0.0 in cc),
    (λ e h. let p = h.0 in cc, λ h. refl),
  )
  status_cases app now false o none = (
    (λ e. cc, λ h. let p = h.0.0 in cc),
    (λ e. cc, λ h. let p = h.0.0 in cc),
    (λ e h. let p = h.0 in cc, λ h. refl),
  )

  -- The health check reports "healthy" exactly if the database has a session that answers the query
  -- and the module has a client of Redis, "degraded" exactly if the database answers and the module
  -- has no client, and "unhealthy" exactly if the database does not answer. Whether Redis answers
  -- plays no part.
  pub health_check_iff :
      (app : AppInfo) (now : ℕ) (g : Globals) (global : Global C)
      → ((reported app now g global ≡ HealthStatus.healthy)
          ↔ (DatabaseAnswers session execute g × (global ≢ none)))
        × ((reported app now g global ≡ HealthStatus.degraded)
            ↔ (DatabaseAnswers session execute g × (global ≡ none)))
        × ((reported app now g global ≡ HealthStatus.unhealthy)
            ↔ (¬ DatabaseAnswers session execute g))
  health_check_iff app now g global =
      rw (probe_database-answered g, reported)
        (status_cases app now g.session_factory (execute session) global)
