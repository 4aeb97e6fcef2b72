-- ===== src/Redis/Keys.antt =====
-- The key schema of app/db/redis.py: which keys can coincide.
use unitra_service_api.Common.{◌≡◌, ◌≢◌, refl, [], ◌∷◌, ◌++◌, ap, All, append_assoc, arith}
use unitra_service_api.Common.Text.{Text, codes}
use unitra_service_api.Redis.{usage_key, rate_limit_key, blacklist_key, session_key}

-- A text with no colon, such as a UUID or a week.
abbrev pub HasNoColon : Text → Type 0
HasNoColon = All (λ c. c ≢ b':')

-- The colon after a text without one ends it.
colon_split :
    (u v e f : Text)
    → HasNoColon u
    → HasNoColon v
    → u ++ (b':' ∷ e) ≡ v ++ (b':' ∷ f)
    → (u ≡ v) × (e ≡ f)
colon_split [] [] e f hu hv p = (refl, cc)
colon_split [] (c ∷ v) e f hu hv p = absurd (hv.0 (cc))
colon_split (c ∷ u) [] e f hu hv p = absurd (hu.0 (cc))
colon_split (c ∷ u) (d ∷ v) e f hu hv p =
    let heads : c ≡ d = cc in
    let tails : u ++ (b':' ∷ e) ≡ v ++ (b':' ∷ f) = cc in
    let (same, rest) = colon_split u v e f hu.1 hv.1 tails in (cc, rest)

-- Rate limits of different users or endpoints are counted apart, if the users' ids have no colon.
pub rate_limit_key-injective :
    (u v e f : Text)
    → HasNoColon u
    → HasNoColon v
    → rate_limit_key u e ≡ rate_limit_key v f
    → (u ≡ v) × (e ≡ f)
unfolding rate_limit_key
rate_limit_key-injective u v e f hu hv p = colon_split u v e f hu hv (cc)

pub usage_key-injective :
    (u v e f : Text)
    → HasNoColon u
    → HasNoColon v
    → usage_key u e ≡ usage_key v f
    → (u ≡ v) × (e ≡ f)
unfolding usage_key
usage_key-injective u v e f hu hv p = colon_split u v e f hu hv (cc)

-- With a colon in an id, two different pairs of user and endpoint share one counter.
pub rate_limit_key_collision :
    (u v e : Text) → rate_limit_key (u ++ (b':' ∷ v)) e ≡ rate_limit_key u (v ++ (b':' ∷ e))
unfolding rate_limit_key
rate_limit_key_collision u v e =
    ap (λ t. codes "ratelimit:" ++ t) (append_assoc u (b':' ∷ v) (b':' ∷ e))

-- Keys of different kinds never coincide, whatever ids, weeks and endpoints they are made of.
pub keys_apart :
    (a b c d e f : Text)
    → (usage_key a b ≢ rate_limit_key c d)
      × (usage_key a b ≢ blacklist_key e)
      × (usage_key a b ≢ session_key f)
      × (rate_limit_key c d ≢ blacklist_key e)
      × (rate_limit_key c d ≢ session_key f)
      × (blacklist_key e ≢ session_key f)
unfolding usage_key rate_limit_key blacklist_key session_key
keys_apart a b c d e f = (
  λ p. ground arith,
  λ p. ground arith,
  λ p. ground arith,
  λ p. ground arith,
  λ p. ground arith,
  λ p. ground arith,
)
