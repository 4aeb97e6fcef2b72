-- ===== src/Redis.antt =====
-- app/db/redis.py: the operations of `RedisClient` over the commands of a Redis server. Each is one
-- step on the server's store, but `check_rate_limit`, which awaits two commands; `week` is `datetime.now().strftime("%Y-W%W")`.
mod Tests
pub mod Server
pub mod Connection
pub mod Keys
pub mod RateLimit
pub mod Races
pub mod Usage
pub mod Blacklist
use unitra_service_api.Common.{
  ℕ, zero, suc, ◌+◌, ◌-◌, Bool, true, false, Option, none, some, List, [], ◌∷◌, ◌++◌, leb, ltb,
  if◌then◌else◌,
}
use unitra_service_api.Common.Int.{ℤ, pos, negsuc, sub_ℕ}
use unitra_service_api.Common.Text.{Text, codes}
use Server.{RedisServer}

unfoldable pub usage_key : Text → Text → Text
usage_key user_id week = codes "usage:" ++ (user_id ++ (codes ":" ++ week))

unfoldable pub rate_limit_key : Text → Text → Text
rate_limit_key user_id endpoint = codes "ratelimit:" ++ (user_id ++ (codes ":" ++ endpoint))

unfoldable pub blacklist_key : Text → Text
blacklist_key jti = codes "blacklist:" ++ jti

unfoldable pub session_key : Text → Text
session_key user_id = codes "session:" ++ user_id

-- 8 days, in seconds
abbrev pub usage_ttl : ℕ
usage_ttl = 691200

module _ (R : RedisServer) where
  open R use {Store, get, setex, incrby, expire, ttl, exists, hset, hgetall, delete}

  -- No other client does anything between the commands of an operation.
  abbrev pub alone : Store → Store
  alone s = s

  -- the value of a counter, 0 without one
  abbrev pub counter : Text → Store → ℕ
  counter key s = elim (get key s) [ none ↦ 0 | some n ↦ n ]

  -- `increment_usage`: the new total and the store.
  unfoldable pub increment_usage : Text → Text → ℕ → Store → ℕ × Store
  increment_usage week user_id tokens s =
      let key = usage_key user_id week in
      let s' = incrby key tokens s in (counter key s', expire key usage_ttl s')

  unfoldable pub get_usage : Text → Text → Store → ℕ
  get_usage week user_id s = counter (usage_key user_id week) s

  -- What the count that GET has found means: whether the request is allowed, and the requests that
  -- remain.
  unfoldable pub rate_decision : ℕ → Option ℕ → Bool × ℤ
  rate_decision limit none = (true, sub_ℕ limit 1)
  rate_decision limit (some count) =
      if leb limit count then (false, pos 0) else (true, pos (limit - count - 1))

  -- The second command of a request that is allowed.
  unfoldable pub note_request : Text → ℕ → Option ℕ → Store → Store
  note_request key window none s = setex key window 1 s
  note_request key window (some count) s = incrby key 1 s

  -- `check_rate_limit`, with what `rate_decision` says and the store. Each of the two commands is awaited:
  -- `meanwhile` is what other clients do to the store between them.
  unfoldable pub check_rate_limit : Text → Text → ℕ → ℕ → (Store → Store) → Store → Bool × ℤ × Store
  unfolding rate_decision note_request
  check_rate_limit user_id endpoint limit window meanwhile s =
      let key = rate_limit_key user_id endpoint in
      let found = get key s in
      let (allowed, remaining) = rate_decision limit found in
      (allowed, remaining, if allowed then note_request key window found (meanwhile s) else s)

  -- `get_rate_limit_ttl`: `ttl if ttl > 0 else -1`.
  unfoldable pub get_rate_limit_ttl : Text → Text → Store → ℤ
  get_rate_limit_ttl user_id endpoint s = elim (ttl (rate_limit_key user_id endpoint) s) [
    | pos n ↦ if ltb 0 n then pos n else negsuc 0
    | negsuc _ ↦ negsuc 0
  ]

  unfoldable pub blacklist_token : Text → ℕ → Store → Store
  blacklist_token jti expires_in s = setex (blacklist_key jti) expires_in 1 s

  unfoldable pub is_token_blacklisted : Text → Store → Bool
  is_token_blacklisted jti s = ltb 0 (exists (blacklist_key jti) s)

  -- `set_session`, of data whose values are texts already.
  unfoldable pub set_session : Text → List (Text × Text) → ℕ → Store → Store
  set_session user_id fields seconds s =
      expire (session_key user_id) seconds (hset (session_key user_id) fields s)

  unfoldable pub get_session : Text → Store → Option (List (Text × Text))
  get_session user_id s = elim (hgetall (session_key user_id) s) [
    | [] ↦ none
    | f ∷ fs ↦ some (f ∷ fs)
  ]

  unfoldable pub delete_session : Text → Store → Store
  delete_session user_id s = delete (session_key user_id) s

  unfoldable pub update_session_field : Text → Text → Text → Store → Store
  update_session_field user_id field value s = hset (session_key user_id) ((field, value) ∷ []) s
