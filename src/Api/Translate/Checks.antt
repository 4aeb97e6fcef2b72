-- ===== src/Api/Translate/Checks.antt =====
-- What the usage checks of a translation establish, and that they only touch the rate limit.
use mathlib.Core.Path.{subst}
use unitra_service_api.Common.{
  ℕ, ◌+◌, ◌≤◌, ◌≡◌, refl, true, false, none, some, [], Option, sym, ltb, arith, inl, inr, ap,
  Bool-cases, Option-cases,
}
use unitra_service_api.Common.Text.{Text, codes, text_eq, text_eq_iff}
use unitra_service_api.Errors.{AppException}
use unitra_service_api.Errors.Handlers.{Raised}
use unitra_service_api.Limits.{Tier, tier_of_value, tier_limits}
use unitra_service_api.Redis.{
  usage_key, rate_limit_key, check_rate_limit, get_rate_limit_ttl, counter,
}
use unitra_service_api.Redis as Redis
use unitra_service_api.Redis.Keys.{keys_apart}
use unitra_service_api.Redis.RateLimit.{check_other}
use unitra_service_api.Redis.Server.{RedisServer}
use unitra_service_api.Api.Action.{Outcome, returned, raised, bind_returned, bind_raised}
use unitra_service_api.Api.Translate.{
  User, World, limits_of, limit_rate, check_quota, check_usage_limits,
}

module _ (R : RedisServer) (week : Text) (user : User) where
  -- The tokens that the user has used in this week.
  abbrev pub used : World R → ℕ
  used w = Redis.get_usage R week user.id w.redis

  -- Only the counter of the rate limit may have changed.
  abbrev pub Keeps : World R → World R → Type 0
  Keeps w w' =
      (used w' ≡ used w) × (w'.usage_logs ≡ w.usage_logs) × (w'.mt_requests ≡ w.mt_requests)

  -- A tier with cloud translation whose week has room for the tokens.
  abbrev pub HasRoom : ℕ → World R → Type 0
  HasRoom n w =
      (t : Tier) × (tier_of_value user.tier ≡ some t)
      × ((tier_limits t).cloud_mt_allowed ≡ true)
      × (used w + n ≤ (tier_limits t).tokens_per_week)

  abbrev pub Granted : ℕ → World R → Outcome (ℕ × ℕ) → Type 0
  Granted n w (returned _) = HasRoom n w
  Granted n w (raised _) = Unit

  limit_rate-Keeps : (n : ℕ) (w : World R) → Keeps w (limit_rate R user.id n w).1
  unfolding limit_rate Redis.get_usage
  limit_rate-Keeps n w =
      let other = usage_key user.id week in
      let apart : text_eq (rate_limit_key user.id (codes "translate")) other ≡ false =
        elim (Bool-cases (text_eq (rate_limit_key user.id (codes "translate")) other)) [
          | inl same ↦ absurd (
              (keys_apart user.id week user.id (codes "translate") [] []).0
                (sym ((text_eq_iff _ _).0 same)))
          | inr differ ↦ differ
        ] in
      (
        ap (λ (o : Option ℕ). elim o [ none ↦ 0 | some m ↦ m ]) {y = R.get other w.redis}
            (check_other R user.id (codes "translate") n 60 w.redis other apart (omega arith)),
        refl,
        refl,
      )

  refused_unknown :
      (n : ℕ) (w : World R)
      → tier_of_value user.tier ≡ none
      → check_usage_limits R week user n w ≡ (raised (Raised.unexpected (codes "ValueError")), w)
  unfolding check_usage_limits limits_of
  refused_unknown n w e = rw (e, check_usage_limits, limits_of) refl

  module _ (t : Tier) (n : ℕ) (w : World R) (e : tier_of_value user.tier ≡ some t) where
    -- A tier without cloud translation is refused before anything is counted.
    pub refused_tier :
        (tier_limits t).cloud_mt_allowed ≡ false
        → check_usage_limits R week user n w
          ≡ (raised (Raised.app (AppException.insufficient_tier (codes "BASIC"))), w)
    unfolding check_usage_limits limits_of
    refused_tier c = rw (e, check_usage_limits, limits_of) (rw c refl)

    module _ (c : (tier_limits t).cloud_mt_allowed ≡ true) where
      pub refused_rate :
          (x : Raised) (w' : World R)
          → limit_rate R user.id (tier_limits t).requests_per_minute w ≡ (raised x, w')
          → check_usage_limits R week user n w ≡ (raised x, w')
      unfolding check_usage_limits limits_of
      refused_rate x w' step =
          rw (e, check_usage_limits, limits_of)
            (rw c (
              bind_raised (limit_rate R user.id (tier_limits t).requests_per_minute)
                (λ _. check_quota R week user.id n (tier_limits t).tokens_per_week) w x w' step))

      passed_rate :
          (w' : World R)
          → limit_rate R user.id (tier_limits t).requests_per_minute w ≡ (returned tt, w')
          → check_usage_limits R week user n w
            ≡ check_quota R week user.id n (tier_limits t).tokens_per_week w'
      unfolding check_usage_limits limits_of
      passed_rate w' step =
          rw (e, check_usage_limits, limits_of)
            (rw c (
              bind_returned (limit_rate R user.id (tier_limits t).requests_per_minute)
                (λ _. check_quota R week user.id n (tier_limits t).tokens_per_week) w tt w' step))

      Granted-by_quota :
          (w' : World R)
          → Keeps w w'
          → let r = check_quota R week user.id n (tier_limits t).tokens_per_week w' in
            Keeps w r.1 × Granted n w r.0
      unfolding check_quota
      Granted-by_quota w' k =
          let tested = Bool-cases (ltb (tier_limits t).tokens_per_week (used w' + n)) in
          elim tested [
            | inl over ↦ rw over (k, tt)
            | inr room ↦ rw room (k, (t, e, c, ground (arith, k.0)))
          ]

      after_rate :
          (a : Outcome Unit) (w' : World R)
          → limit_rate R user.id (tier_limits t).requests_per_minute w ≡ (a, w')
          → let r = check_usage_limits R week user n w in Keeps w r.1 × Granted n w r.0
      after_rate (returned _) w' step =
          rw (passed_rate w' step)
            (Granted-by_quota w' (subst (λ z. Keeps w z.1) step (limit_rate-Keeps _ w)))
      after_rate (raised x) w' step =
          rw (refused_rate x w' step) (subst (λ z. Keeps w z.1) step (limit_rate-Keeps _ w), tt)

  pub check_usage_limits_effect :
      (n : ℕ) (w : World R)
      → let r = check_usage_limits R week user n w in Keeps w r.1 × Granted n w r.0
  check_usage_limits_effect n w = elim (Option-cases (tier_of_value user.tier)) [
    | inl unknown ↦ rw (refused_unknown n w unknown) ((refl, refl, refl), tt)
    | inr (t, e) ↦ elim (Bool-cases (tier_limits t).cloud_mt_allowed) [
      | inl allowed ↦ after_rate t n w e allowed _ _ refl
      | inr closed ↦ rw (refused_tier t n w e closed) ((refl, refl, refl), tt)
    ]
  ]
