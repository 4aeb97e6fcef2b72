-- ===== src/Redis/Server.antt =====
-- The commands of a Redis server that `RedisClient` calls, as its documentation describes them. The
-- server is not in the repository, so it is a parameter: a store, the commands on it, and the laws
-- that the theorems use. A value is read by `int`, which all of its readers apply.
pub mod Memory
use unitra_service_api.Common.{
  ℕ, ◌+◌, ◌-◌, ◌<◌, ◌≤◌, ◌≡◌, false, Option, none, some, List, if◌then◌else◌,
}
use unitra_service_api.Common.Int.{ℤ, pos, negsuc}
use unitra_service_api.Common.Text.{Text, text_eq}

-- INCRBY takes a missing key for 0.
abbrev pub plus : ℕ → Option ℕ → ℕ
plus n none = n
plus n (some m) = m + n

pub record RedisServer : Type 1 where
  pub Store : Type 0
  pub get : Text → Store → Option ℕ
  -- key, seconds, value
  pub setex : Text → ℕ → ℕ → Store → Store
  pub incrby : Text → ℕ → Store → Store
  pub expire : Text → ℕ → Store → Store
  -- the seconds left, rounded to the nearest, -1 with no expiry, -2 with no key
  pub ttl : Text → Store → ℤ
  -- the number of keys found
  pub exists : Text → Store → ℕ
  pub delete : Text → Store → Store
  pub hset : Text → List (Text × Text) → Store → Store
  pub hgetall : Text → Store → List (Text × Text)
  -- some seconds pass
  pub after : ℕ → Store → Store
  pub get-setex :
      (k j : Text) (t v : ℕ) (s : Store)
      → 0 < t
      → get j (setex k t v s) ≡ (if text_eq k j then some v else get j s)
  pub get-incrby :
      (k j : Text) (n : ℕ) (s : Store)
      → get j (incrby k n s) ≡ (if text_eq k j then some (plus n (get k s)) else get j s)
  pub get-expire : (k j : Text) (t : ℕ) (s : Store) → 0 < t → get j (expire k t s) ≡ get j s
  pub ttl-setex :
      (k j : Text) (t v : ℕ) (s : Store)
      → 0 < t
      → ttl j (setex k t v s) ≡ (if text_eq k j then pos t else ttl j s)
  -- INCRBY leaves the expiry of a key alone.
  pub ttl-incrby :
      (k : Text) (n m : ℕ) (s : Store) → get k s ≡ some m → ttl k (incrby k n s) ≡ ttl k s
  pub exists-get : (k : Text) (n : ℕ) (s : Store) → get k s ≡ some n → exists k s ≡ 1
  pub get-delete :
      (k j : Text) (s : Store) → get j (delete k s) ≡ (if text_eq k j then none else get j s)
  pub ttl-delete : (k j : Text) (s : Store) → text_eq k j ≡ false → ttl j (delete k s) ≡ ttl j s
  -- A key lives until its expiry and no longer. TTL rounds: a key with `t` seconds left by TTL is
  -- there for all seconds before, may still be there after `t`, and is gone a second later.
  pub get-after_before :
      (k : Text) (t n : ℕ) (s : Store) → ttl k s ≡ pos t → n < t → get k (after n s) ≡ get k s
  pub get-after_expiry :
      (k : Text) (t n : ℕ) (s : Store) → ttl k s ≡ pos t → t < n → get k (after n s) ≡ none
  pub ttl-after :
      (k : Text) (t n : ℕ) (s : Store) → ttl k s ≡ pos t → n < t → ttl k (after n s) ≡ pos (t - n)
