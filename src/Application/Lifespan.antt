-- ===== src/Application/Lifespan.antt =====
-- `lifespan` of app/main.py: the start and the end of the application around what it serves.
pub mod Ends
use unitra_service_api.Common.{
  ◌≡◌, refl, true, false, Bool, none, some, List, [], ◌∷◌, ◌++◌, append_assoc,
}
use unitra_service_api.Common.Text.{Text, codes}
use unitra_service_api.Errors.Handlers.{Raised}
use unitra_service_api.Api.Action.{Outcome, returned, raised, Action, ◌>>=◌, ◌>>◌, pure}
use unitra_service_api.Database
use unitra_service_api.Database.{Globals, init_db, close_db}
use unitra_service_api.Redis.Connection.{Global, init_redis, close_redis, get_redis, client}

-- The globals of app/db/session.py and app/db/redis.py, and the events that `lifespan` logged.
pub record Process (C : Type 0) : Type 0 where
  pub database : Globals
  pub redis : Global C
  pub log : List Text

module _ {C : Type 0} where
  abbrev pub info : Text → Action (Process C) Unit
  info event s = (returned tt, record s { log = s.log ++ event ∷ [] })

  abbrev open_database : Action (Process C) Unit
  open_database s = (returned tt, record s { database = init_db s.database })

  abbrev close_database : Outcome Unit → Action (Process C) Unit
  close_database dispose s =
      let (o, database) = close_db dispose s.database in (o, record s { database = database })

  -- a step on the client of Redis
  abbrev pub on_redis : Action (Global C) Unit → Action (Process C) Unit
  on_redis step s = let (o, redis) = step s.redis in (o, record s { redis = redis })

  unfoldable pub startup : Outcome C → Action (Process C) Unit
  unfolding init_db init_redis
  startup from_url =
      info (codes "application_starting")
      >> (open_database
          >> (info (codes "database_initialized")
              >> (on_redis (init_redis from_url)
                  >> (info (codes "redis_initialized") >> info (codes "application_started")))))

  -- What `_engine.dispose()` and a close of the connection to Redis come to are arguments.
  unfoldable pub shutdown : Outcome Unit → (C → Outcome Unit) → Action (Process C) Unit
  unfolding close_db close_redis
  shutdown dispose close_connection =
      info (codes "application_stopping")
      >> (close_database dispose
          >> (info (codes "database_closed")
              >> (on_redis (close_redis close_connection)
                  >> (info (codes "redis_closed") >> info (codes "application_stopped")))))

  -- `serve` is all that the application does while the generator is suspended.
  unfoldable pub lifespan :
      Outcome C
      → Outcome Unit
      → (C → Outcome Unit)
      → Action (Process C) Unit
      → Action (Process C) Unit
  unfolding startup shutdown
  lifespan from_url dispose close_connection serve =
      startup from_url >> (serve >> shutdown dispose close_connection)
