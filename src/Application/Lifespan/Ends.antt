-- ===== src/Application/Lifespan/Ends.antt =====
-- How `lifespan` of app/main.py starts and ends.
use unitra_service_api.Common.{
  ◌≡◌, refl, true, false, none, some, List, [], ◌∷◌, ◌++◌, append_assoc, ap, sym, ◌∙◌,
}
use mathlib.Core.Path.{subst}
use unitra_service_api.Common.Text.{Text, codes}
use unitra_service_api.Errors.Handlers.{Raised}
use unitra_service_api.Api.Action.{
  ◌>>◌, Outcome, returned, raised, Action, bind_returned, bind_raised,
}
use unitra_service_api.Database.{Globals, init_db, close_db}
use unitra_service_api.Redis.Connection.{
  Global, close, close_redis, init_redis, close_redis_connected, close_redis_stuck, get_redis,
  client, connect,
}
use unitra_service_api.Application.Lifespan.{info, on_redis, Process, startup, shutdown, lifespan}

-- The events before a start that fails.
abbrev starting : List Text
starting = codes "application_starting" ∷ codes "database_initialized" ∷ []

-- The engine is there, and sessions can be had.
abbrev pub opened : Globals
opened = record { engine = true; session_factory = true }

module _ {C : Type 0} where
  -- If the connection to Redis cannot be made, then nothing is served and the application does not
  -- start, for the reason that the connection had; the engine of the database stays open, and a
  -- client of Redis without a connection stays set.
  pub lifespan_fails :
      (e : Raised) (dispose : Outcome Unit) (close_connection : C → Outcome Unit)
      (serve : Action (Process C) Unit) (s : Process C)
      → lifespan (raised e) dispose close_connection serve s
        ≡ (raised e, record { database = opened; redis = some none; log = s.log ++ starting })
  unfolding lifespan startup init_db init_redis connect
  lifespan_fails e dispose close_connection serve s =
      ap (λ log. (raised e, record { database = opened; redis = some none; log = log }))
        (append_assoc s.log _ _)

  -- What is served has the database open and the connection to Redis that was made.
  pub lifespan_serves :
      (c : C) (dispose : Outcome Unit) (close_connection : C → Outcome Unit)
      (serve : Action (Process C) Unit) (s : Process C)
      → (p : Process C) × (p.database ≡ opened)
        × (p.redis ≡ some (some c))
        × (get_redis p.redis ≡ returned (some c))
        × (client (some c) ≡ returned c)
        × (lifespan (returned c) dispose close_connection serve s
            ≡ (serve >> shutdown dispose close_connection) p)
  unfolding lifespan startup init_db init_redis connect get_redis client
  lifespan_serves c dispose close_connection serve s = (_, refl, refl, refl, refl, refl)

  -- How an application ends that has the connection `c`, from what serving, the disposal of the
  -- engine and the close of the connection come to: the first of them that raises ends it, and what
  -- would have been closed after that stays open.
  abbrev pub EndsWith :
      C → Outcome Unit → Outcome Unit → Outcome Unit → Outcome Unit × Process C → Type 0
  EndsWith c (raised e) dispose closing (o, p) =
      (o ≡ raised e) × (p.database.engine ≡ true) × (p.redis ≡ some (some c))
  EndsWith c (returned _) (raised e) closing (o, p) =
      (o ≡ raised e) × (p.database.engine ≡ true) × (p.redis ≡ some (some c))
  EndsWith c (returned _) (returned _) (raised e) (o, p) =
      (o ≡ raised e) × (p.database.engine ≡ false) × (p.redis ≡ some (some c))
  EndsWith c (returned _) (returned _) (returned _) (o, p) =
      (o ≡ returned tt) × (p.database.engine ≡ false) × (p.redis ≡ none)

  module _ (close_connection : C → Outcome Unit) (c : C) where
    -- the process after serving
    abbrev connected : List Text → Process C
    connected log = record { database = opened; redis = some (some c); log = log }

    -- the process when only Redis is left to be closed
    abbrev disposed_engine : List Text → Process C
    disposed_engine log = record {
      database = record opened { engine = false };
      redis = some (some c);
      log = (log ++ codes "application_stopping" ∷ []) ++ codes "database_closed" ∷ [];
    }

    abbrev last_events : Unit {0} → Action (Process C) Unit
    last_events _ = info (codes "redis_closed") >> info (codes "application_stopped")

    closing_step :
        (log : List Text) {o : Outcome Unit} {redis : Global C}
        → close_redis close_connection (some (some c)) ≡ (o, redis)
        → on_redis (close_redis close_connection) (disposed_engine log)
          ≡ (o, record (disposed_engine log) { redis = redis })
    closing_step log h =
        ap (λ (r : Outcome Unit × Global C). (r.0, record (disposed_engine log) { redis = r.1 })) h

    shutdown-EndsWith :
        (log : List Text) (served dispose closing : Outcome Unit)
        → close_connection c ≡ closing
        → EndsWith c served dispose closing
            (((λ _. (served, connected log)) >> shutdown dispose close_connection) (connected log))
    unfolding shutdown close_db close_redis close
    shutdown-EndsWith log (raised e) dispose closing h = (refl, refl, refl)
    shutdown-EndsWith log (returned _) (raised e) closing h = (refl, refl, refl)
    shutdown-EndsWith log (returned _) (returned _) (raised e) h =
        rw
          (bind_raised (on_redis (close_redis close_connection)) last_events (disposed_engine log) e
            (disposed_engine log) (closing_step log (close_redis_stuck close_connection c e h)))
          (refl, refl, refl)
    shutdown-EndsWith log (returned _) (returned _) (returned _) h =
        rw
          (bind_returned (on_redis (close_redis close_connection)) last_events (disposed_engine log)
            tt (record (disposed_engine log) { redis = none })
            (closing_step log (close_redis_connected close_connection c h)))
          (refl, refl, refl)

  -- What is served leaves the globals alone.
  abbrev pub Keeps : Action (Process C) Unit → Type 0
  Keeps serve =
      (p : Process C) → ((serve p).1.database ≡ p.database) × ((serve p).1.redis ≡ p.redis)

  after_serving :
      (close_connection : C → Outcome Unit) (c : C) (dispose served : Outcome Unit) (p : Process C)
      → p.database ≡ opened
      → p.redis ≡ some (some c)
      → EndsWith c served dispose
          (close_connection c)
          (((λ _. (served, p)) >> shutdown dispose close_connection) p)
  after_serving close_connection c dispose served p d r =
      subst
        (λ redis.
          EndsWith c served dispose (close_connection c)
            (((λ _. (served, record p { redis = redis })) >> shutdown dispose close_connection) p))
        (sym r)
        (subst
          (λ database. EndsWith c served dispose (close_connection c) (
            ((λ _. (served, record p { database = database; redis = some (some c) }))
                >> shutdown dispose close_connection)
              p))
          (sym d)
          (shutdown-EndsWith close_connection c p.log served dispose (close_connection c) refl))

  -- If the connection `c` to Redis is made, and what is served leaves the globals alone, then the
  -- application serves with the database open and `c` as its connection. If serving raises, it ends
  -- with that, and nothing is closed. If the disposal of the engine raises, it ends with that, and
  -- the connection stays open; if only the close of the connection raises, it ends with that, the
  -- engine gone and the client still set. Otherwise it ends in order: the engine is gone and the
  -- module has no client of Redis.
  pub lifespan_ends :
      (c : C) (dispose : Outcome Unit) (close_connection : C → Outcome Unit)
      (serve : Action (Process C) Unit) (s : Process C)
      → Keeps serve
      → (p : Process C) × (p.database ≡ opened)
        × (p.redis ≡ some (some c))
        × EndsWith c
            (serve p).0
            dispose
            (close_connection c)
            (lifespan (returned c) dispose close_connection serve s)
  lifespan_ends c dispose close_connection serve s keeps =
      let (p, d, r, _, _, runs) = lifespan_serves c dispose close_connection serve s in
      (
        p,
        d,
        r,
        rw runs (
            after_serving close_connection c dispose (serve p).0 (serve p).1 ((keeps p).0 ∙ d)
              ((keeps p).1 ∙ r)),
      )
