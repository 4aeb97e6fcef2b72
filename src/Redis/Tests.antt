-- ===== src/Redis/Tests.antt =====
-- Runs of the Redis operations on a store in memory.
use unitra_service_api.Common.{
  ◌+◌, ◌-◌, ◌≤◌, ◌⊎◌, List, ◌≡◌, ◌≢◌, refl, true, false, none, [], ◌∷◌, arith,
}
use unitra_service_api.Common.Text.{Text, codes, text_eq, text_eq_iff}
use unitra_service_api.Redis.{rate_limit_key}
use unitra_service_api.Redis.Server.Memory.{memory}
use unitra_service_api.Redis.Races.Bounds.{admissions_interleaved}
use unitra_service_api.Redis.Races.{Event, Checks, begin, check_step, check_steps}
use unitra_service_api.Redis.Keys.{rate_limit_key-injective}

abbrev fresh : memory.Store
fresh = λ _. none

abbrev ann : Text
ann = codes "ann"

abbrev bob : Text
bob = codes "bob"

abbrev api : Text
api = codes "api"

abbrev week : Text
week = codes "2025-W51"

-- The counter of a limit of two stands at one, and two requests read it before either writes.
abbrev one_used : memory.Store
one_used = memory.setex (rate_limit_key ann api) 60 1 fresh

abbrev racing : List Event
racing =
    Event.arrives
    ∷ Event.arrives
    ∷ Event.passes 10
    ∷ Event.proceeds 1
    ∷ Event.proceeds 0
    ∷ Event.arrives
    ∷ []

abbrev raced : Checks memory ann api 2 60
raced = check_steps memory ann api 2 60 racing (begin memory ann api 2 60 one_used)

admissions_interleaved_example :
    (1 + raced.admitted ≤ 2 + (raced.peak - 1)) × ((raced.refused ≡ 0) ⊎ (2 ≤ 1 + raced.admitted))
unfolding text_eq rate_limit_key
admissions_interleaved_example =
    admissions_interleaved memory ann api 2 60 racing 1 60 one_used refl refl (omega arith)
      (omega arith)

-- Both are admitted, one over the limit, and the bound is reached.
one_too_many : (raced.admitted ≡ 2) × (raced.peak ≡ 2) × (raced.refused ≡ 1)
unfolding check_steps check_step begin text_eq rate_limit_key
one_too_many = (refl, refl, refl)

-- A counter at its limit, with half of its window left.
abbrev limited : memory.Store
limited = memory.setex (rate_limit_key ann api) 30 2 fresh

apart : text_eq (rate_limit_key ann api) (rate_limit_key bob api) ≡ false
unfolding text_eq rate_limit_key
apart = refl

ann_is_not_bob : ann ≢ bob
unfolding text_eq
ann_is_not_bob e = let same : false ≡ true = (text_eq_iff ann bob).1 e in cc

rate_limit_key-injective_example : (ann ≡ ann) × (api ≡ api)
rate_limit_key-injective_example =
    rate_limit_key-injective ann ann api api
      (λ e. omega arith, (λ e. omega arith, (λ e. omega arith, tt)))
      (λ e. omega arith, (λ e. omega arith, (λ e. omega arith, tt))) refl
