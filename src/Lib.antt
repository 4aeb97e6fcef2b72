-- ===== src/Lib.antt =====
-- Unitra Service API: the batch translation service, the translation endpoints, the Redis
-- operations that count usage and requests, authentication with tokens, health checks, the errors
-- that answer a request, the migrations of the database, and the start and end of the application.
--
-- The program. A request to app/api/v1/translate.py is checked for its languages, for the rate
-- limit and the weekly quota of its user (app/db/redis.py, app/core/limits.py), posted to the
-- machine translation service by app/services/mt_client.py, and recorded in Redis and in the
-- database. What it raises (app/core/exceptions.py) becomes a response in
-- app/core/exception_handlers.py. app/core/middleware.py has a middleware that limits the requests
-- of a client before any of this; app/main.py does not install it. Beside the endpoints,
-- app/services/batch collects requests: submitters put them into a priority queue (queue.py,
-- config.py), a batcher takes batches of one language pair from it (batcher.py), a processor posts
-- a batch with retries (processor.py), and the batcher hands the translations to the futures that
-- the submitters wait on. A collector keeps samples of all this (metrics.py), and the service
-- itself (__init__.py) runs worker tasks that repeat this, starts and stops them, and is what
-- submitters call. app/auth issues login tokens, revokes them in Redis and refreshes them;
-- app/core/security.py and app/dependencies.py have tokens of their own and find the user of a
-- request by them. app/api/v1/health.py reports on the database and on Redis. app/main.py opens the
-- database and Redis before it serves and closes them after; alembic/versions makes the tables that
-- the models use.
--
-- The modules. Each operation is a function by clauses with the name that it has in the source.
--   Common          lists, signed integers, texts and `str` methods over the native numbers
--   Batch.Config    app/services/batch/config.py
--   Batch.Request   `TranslationRequest` and `PrioritizedRequest` of app/services/batch/queue.py
--   Batch.Heapq     the promises of Python's `heapq`, and a sorted list that keeps them
--   Batch.Queue     `TranslationQueue`; under it the order of requests, what `get` takes and leaves,
--                   fairness, the invariant, the polling of `get_batch`, and the queue as a bag, a
--                   quotient that forgets the order
--   Batch.Collect   `SmartBatcher.collect_batch`; under it the shape of a batch, conservation of the
--                   requests, and the deadline
--   Batch.Http      the outcomes of a post with httpx
--   Batch.Processor `BatchProcessor.translate_batch`; under it its bounds, its outcome, and the
--                   HTTP client that it keeps
--   Batch.Process   `process_batch` and `collect_and_process`; under it how futures are set, the
--                   delivery to them, and what it leaves alone
--   Batch.Metrics   what app/services/batch/metrics.py records; under it its windows, the statistics
--                   and the summary that are read from them, and the order of the percentiles
--   Batch.Service   app/services/batch/__init__.py; under it the interleavings of workers and callers
--                   as a step relation (Steps), where a request can be (Places), what steps do to
--                   it (Workers, Evolution), the account of all requests (Invariant), how a worker
--                   comes to its end (Progress), a collection as a run of steps (Collection),
--                   cancelled workers, submissions, the reports and the singleton
--   Errors          app/core/exceptions.py, and under it the handlers and FastAPI's HTTPException
--   Limits          app/core/limits.py
--   Redis           `RedisClient`; under it its connection, the server as an interface with a store in
--                   memory that fills it, the keys, the rate limit for one request after
--                   another (RateLimit) and at the same time (Races), the usage counter and the
--                   blacklist
--   Api             the languages, `MTClient` and the endpoints; under Api.Translate what the usage
--                   checks establish, what both endpoints share, their effects and limits, and the
--                   statuses of their errors
--   Api.Health      app/api/v1/health.py; under it its dependencies with what Redis's `ping` comes to
--                   (Probes); the checks of the translation service are in
--                   Api.MtClient.Health, the construction of its client in Api.MtClient.Connection
--   Api.Payloads    the requests and responses of app/api/v1/translate.py
--   Api.Placeholders app/api/v1/billing.py and app/api/v1/usage.py
--   Auth.Jwt        the token libraries as an interface, with a readable format that fills it
--   Auth.Tokens     app/core/security.py and app/dependencies.py; under it who is let in
--   Auth.Users      the users, hooks and login token of app/auth
--   Auth.Sessions   app/auth/router.py; under it logout, refresh, and login tokens elsewhere
--   Auth.Registration
--                   `UserCreate` of app/auth/schemas.py and the registration
--   Auth.Hooks      app/auth/manager.py; under it what a hook leaves of its user and lets out
--                   (Account), and the address that is logged; Auth.Events has the events
--   Database        app/db/session.py
--   Database.Schema the operations of Alembic on a database as an interface, with a schema in memory
--                   that fills it
--   Database.Models the tables of app/models and app/auth/models.py
--   Database.Migrations
--                   alembic/versions; under it the round trip, and the columns beside the models'
--   Application     app/config.py; under it app/core/logging.py (Logging), the routers of
--                   app/api/router.py, app/auth/router.py and app/api/v1 (Routes), and app/main.py
--                   (App and Lifespan)
--   Schemas         the pagination of app/schemas/common.py
--   Middleware      `RateLimitMiddleware`; under it when it lets a request pass, and
--                   `RequestLoggingMiddleware`
--   The modules named Tests run the definitions on small inputs.
--
-- State and time. The queue, the processor and the batcher are records that an operation takes and
-- returns; futures are addresses into a store. A handler of the API is a step on a world of the
-- Redis store, the committed usage logs and the posts made, in which no other request does anything
-- between its commands; what the commands of the rate limit come to when requests are checked at
-- the same time is in Redis.Races, where each command is a step. asyncio switches tasks only at an
-- await, so the code between two awaits is one step, and what other tasks do at an await is an
-- argument: a list of wake-ups for `get`, of which one may be its timeout, and a list of ticks for
-- the rounds of `collect_batch`. In Batch.Service the other tasks are there themselves: a system
-- holds the service with its tasks and the futures, and a step is what one task does between two
-- awaits. The call of the processor is one step, taken when its reply has come. Clock values are
-- arguments as well. Times are whole microseconds and priorities whole numbers of 10^-12 levels, so
-- the source's floats are taken without their rounding. Integers of Python are unbounded, and here
-- too; a number that the source only ever makes non-negative is natural.
--
-- Loops. The loop of `collect_batch` runs along its ticks and gives nothing while it would still go
-- on, and so does the loop of `get_batch` along its polls. The processor's loop runs
-- `max_retries + 1` rounds, as in the source, and `str` of a number n runs n + 1 rounds, which is at
-- least its digits. The worker's loop is the step relation, without a bound.
--
-- Parameters. `heapq`, the Redis server, `str.lower` beyond ASCII, httpx with the translation
-- service, the token libraries, the routers of fastapi-users, Alembic's operations, the lookup of
-- users, and whether the database commits are not in the repository: they are interfaces with
-- their documented behaviour as laws, or arguments. But for the check in the middleware, every
-- command of Redis is taken to be answered, and its numbers to be read as they were written.
--
-- Not modelled: what fastapi-users does for login and the current user, password hashing, what a
-- connection of httpx does, what a start of the batch service does to a stop that is waiting, what
-- FastAPI and structlog make of their configuration, most of what is logged, the relationships of
-- the models, alembic/env.py, and the script under scripts.
pub mod Application
pub mod Common
pub mod Batch
pub mod Database
pub mod Errors
pub mod Limits
pub mod Redis
pub mod Schemas
pub mod Api
pub mod Auth
pub mod Middleware
