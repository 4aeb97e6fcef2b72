-- ===== src/Redis/Connection.antt =====
-- The connection of app/db/redis.py: the life of a `RedisClient` and of the module's client. The
-- library's connections are a parameter; where the source awaits it, what the library answers is an
-- argument.
use unitra_service_api.Common.{◌≡◌, refl, Bool, false, Option, none, some}
use unitra_service_api.Common.Text.{codes}
use unitra_service_api.Errors.Handlers.{Raised}
use unitra_service_api.Api.Action.{Outcome, returned, raised, Action}

-- A `RedisClient` is its `_client`, and `_redis_client` a client or nothing.
abbrev pub RedisClient : Type 0 → Type 0
RedisClient C = Option C

abbrev pub Global : Type 0 → Type 0
Global C = Option (RedisClient C)

module _ {C : Type 0} where
  -- `RedisClient.client`
  unfoldable pub client : RedisClient C → Outcome C
  client none = raised (Raised.unexpected (codes "Redis not initialized. Call connect() first."))
  client (some c) = returned c

  -- `RedisClient.connect`: `redis.from_url` makes a connection or raises.
  unfoldable pub connect : Outcome C → Action (RedisClient C) Unit
  connect (returned c) self = (returned tt, some c)
  connect (raised e) self = (raised e, self)

  abbrev closed : C → Outcome Unit → Outcome Unit × RedisClient C
  closed c (returned _) = (returned tt, none)
  closed c (raised e) = (raised e, some c)

  -- `RedisClient.close`: a close that raises leaves `_client` as it is.
  unfoldable pub close : (C → Outcome Unit) → Action (RedisClient C) Unit
  close close_connection none = (returned tt, none)
  close close_connection (some c) = closed c (close_connection c)

  -- `RedisClient.ping`
  unfoldable pub ping : (C → Outcome Bool) → RedisClient C → Bool
  ping ping_connection none = false
  ping ping_connection (some c) = elim (ping_connection c) [
    | returned answer ↦ answer
    | raised e ↦ false
  ]

  -- `init_redis`: the new client is set before it is connected.
  unfoldable pub init_redis : Outcome C → Action (Global C) Unit
  unfolding connect
  init_redis from_url global = let (o, self) = connect from_url none in (o, some self)

  abbrev unset : Outcome Unit × RedisClient C → Outcome Unit × Global C
  unset (returned _, self) = (returned tt, none)
  unset (raised e, self) = (raised e, some self)

  -- `close_redis`
  unfoldable pub close_redis : (C → Outcome Unit) → Action (Global C) Unit
  close_redis close_connection none = (returned tt, none)
  close_redis close_connection (some self) = unset (close close_connection self)

  -- `get_redis`, and `get_redis_client`, which yields it.
  unfoldable pub get_redis : Global C → Outcome (RedisClient C)
  get_redis none =
      raised (Raised.unexpected (codes "Redis not initialized. Call init_redis() first."))
  get_redis (some self) = returned self

  -- A connection that closes leaves the module without a client.
  pub close_redis_connected :
      (close_connection : C → Outcome Unit) (c : C)
      → close_connection c ≡ returned tt
      → close_redis close_connection (some (some c)) ≡ (returned tt, none)
  unfolding close_redis close
  close_redis_connected close_connection c h = rw h refl

  -- One that does not close leaves the client set, with its connection.
  pub close_redis_stuck :
      (close_connection : C → Outcome Unit) (c : C) (e : Raised)
      → close_connection c ≡ raised e
      → close_redis close_connection (some (some c)) ≡ (raised e, some (some c))
  unfolding close_redis close
  close_redis_stuck close_connection c e h = rw h refl
