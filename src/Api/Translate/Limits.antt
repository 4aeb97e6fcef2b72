-- ===== src/Api/Translate/Limits.antt =====
-- What the tiers and quotas mean for a translation, and what the usage endpoint tells of them.
use unitra_service_api.Common.{
  ℕ, ◌+◌, ◌-◌, ◌≤◌, ◌<◌, ◌≡◌, refl, max, ltb, lt→ltb, true, false, some, [], inl, inr, ◌⊎◌, arith,
  max, ap, ◌∙◌,
}
use unitra_service_api.Common.Int.{pos}
use unitra_service_api.Common.Text.{Text, codes}
use unitra_service_api.Errors.{AppException}
use unitra_service_api.Errors.Handlers.{Raised}
use unitra_service_api.Limits.{Tier, tier_of_value, tier_limits}
use unitra_service_api.Redis.{rate_limit_key, get_rate_limit_ttl}
use unitra_service_api.Redis.RateLimit.{check_full, window_resets}
use unitra_service_api.Redis.Server.{RedisServer}
use unitra_service_api.Api.Action.{
  Outcome, returned, raised, bind_returned, bind_raised, lift, Action, ◌>>=◌,
}
use unitra_service_api.Api.MtClient.{MtRequest, mt_translate}
use unitra_service_api.Api.Translate.{
  User, World, Surroundings, TranslateRequest, TranslateResponse, UsageResponse, languages,
  estimate, translate, get_usage, limits_of, limit_rate, check_usage_limits,
}
use unitra_service_api.Api.Translate.Checks.{used, HasRoom, refused_tier, refused_rate}
use unitra_service_api.Api.Translate.Served.{checking, posting, recording}
use unitra_service_api.Api.Translate.Effects.{TranslateServed, translate_effect, respond}

module _ (R : RedisServer) (env : Surroundings) (user : User) where
  usage_known :
      (w : World R) (t : Tier)
      → tier_of_value user.tier ≡ some t
      → (get_usage R env.week user w).0
        ≡ returned (record {
          tokens_used_this_week = used R env.week user w;
          tokens_limit = (tier_limits t).tokens_per_week;
          tokens_remaining = (tier_limits t).tokens_per_week - used R env.week user w;
          requests_per_minute_limit = (tier_limits t).requests_per_minute;
        })
  unfolding get_usage limits_of
  usage_known w t e = rw (e, get_usage, limits_of) refl

  -- Where there is room, the estimate is at most what the usage endpoint says remains.
  room_remains :
      (n : ℕ) (w : World R) (u : UsageResponse)
      → (get_usage R env.week user w).0 ≡ returned u
      → HasRoom R env.week user n w
      → n ≤ u.tokens_remaining
  room_remains n w u h (t, e, c, room) =
      let k = usage_known w t e in
      let same : u.tokens_remaining ≡ (tier_limits t).tokens_per_week - used R env.week user w =
        cc in
      omega arith

  beyond_served :
      (request : TranslateRequest) (w : World R) (u : UsageResponse)
      → (get_usage R env.week user w).0 ≡ returned u
      → u.tokens_remaining < estimate request.text
      → (o : Outcome TranslateResponse) (w' : World R)
      → TranslateServed R env user request w (o, w')
      → (e : Raised) × (o ≡ raised e) × (w'.mt_requests ≡ w.mt_requests)
  beyond_served request w u h beyond (returned r) w' (s, t, a, hl, ha, hr, room, charged, posted) =
      absurd (omega (arith, room_remains _ w u h room))
  beyond_served request w u h beyond (raised e) w' (uncharged, inl same) = (e, refl, same)
  beyond_served request w u h beyond (raised e) w' (uncharged, inr (s, t, hl, room, posted)) =
      absurd (omega (arith, room_remains _ w u h room))

  -- A request whose estimate is more than the usage endpoint says remains is refused, and it is not
  -- posted to the service.
  pub translate_beyond :
      (request : TranslateRequest) (w : World R) (u : UsageResponse)
      → (get_usage R env.week user w).0 ≡ returned u
      → u.tokens_remaining < estimate request.text
      → let r = translate R env request user w in
        (e : Raised) × (r.0 ≡ raised e) × (r.1.mt_requests ≡ w.mt_requests)
  translate_beyond request w u h beyond =
      beyond_served request w u h beyond _ _ (translate_effect R env user request w)

  module _ (request : TranslateRequest) (w : World R) where
    abbrev l : Outcome (Text × Text)
    l = languages env.lowering request.source_lang request.target_lang

    abbrev check : Text × Text → Action (World R) TranslateResponse
    check (s, t) =
        checking R env user l (estimate request.text) mt_translate (MtRequest.one request.text)
          (λ r. r.tokens_used) respond s t

    abbrev post : Text × Text → Action (World R) TranslateResponse
    post (s, t) =
        posting R env user l (estimate request.text) mt_translate (MtRequest.one request.text)
          (λ r. r.tokens_used) respond s t
        >>= recording R env user l (estimate request.text) mt_translate (MtRequest.one request.text)
            (λ r. r.tokens_used) respond s t

    -- What stops the user's checks stops the translation, unless its languages did.
    stopped :
        (x : Raised) (w' : World R)
        → check_usage_limits R env.week user (estimate request.text) w ≡ (raised x, w')
        → (o : Outcome (Text × Text)) → l ≡ o
        → (translate R env request user w ≡ (raised x, w'))
          ⊎ ((y : Raised) × (translate R env request user w ≡ (raised y, w)))
    unfolding translate
    stopped x w' stop (raised y) e = inr (y, bind_raised (lift l) check w y w (ap (λ z. (z, w)) e))
    stopped x w' stop (returned (s, t)) e = inl (
        bind_returned (lift l) check w (s, t) w (ap (λ z. (z, w)) e)
        ∙ bind_raised (check_usage_limits R env.week user (estimate request.text))
            (λ _. post (s, t)) w x w' stop)

  -- A user whose tier has no cloud translation is refused, and nothing changes.
  pub translate_closed :
      (t : Tier) (request : TranslateRequest) (w : World R)
      → tier_of_value user.tier ≡ some t
      → (tier_limits t).cloud_mt_allowed ≡ false
      → (x : Raised) × (translate R env request user w ≡ (raised x, w))
  translate_closed t request w e closed =
      elim (stopped request w _ w (refused_tier R env.week user t _ w e closed) _ refl) [
        | inl same ↦ (_, same)
        | inr other ↦ other
      ]

  -- What the limit has refused, with the seconds that TTL reports.
  refused_until :
      (t : Tier) (n c s : ℕ) (w : World R)
      → tier_of_value user.tier ≡ some t
      → (tier_limits t).cloud_mt_allowed ≡ true
      → R.get (rate_limit_key user.id (codes "translate")) w.redis ≡ some c
      → (tier_limits t).requests_per_minute ≤ c
      → R.ttl (rate_limit_key user.id (codes "translate")) w.redis ≡ pos s
      → 0 < s
      → check_usage_limits R env.week user n w
        ≡ (raised (Raised.app (AppException.rate_limit s [])), w)
  unfolding limit_rate get_rate_limit_ttl
  refused_until t n c s w e allowed counted full runs positive =
      let limit = (tier_limits t).requests_per_minute in
      let refused = check_full R user.id (codes "translate") limit 60 w.redis c counted full in
      let at_s : max s 1 ≡ s = omega arith in
      let running : ltb 0 s ≡ true = lt→ltb 0 s positive in
      refused_rate R env.week user t n w e allowed _ w
        (rw (limit_rate, refused, get_rate_limit_ttl, runs, running, at_s) refl)

  -- A user whose tier has cloud translation and who is over the rate limit, with `s` seconds left of
  -- the counter by TTL, is told to retry after `s` seconds. Whoever comes `d` seconds later, before that, is refused again, and told to retry
  -- after the `s - d` seconds that are then left. Whoever waits a second longer than `s` passes the
  -- rate limit. No other request of the user is counted in between.
  pub limited_retry_after :
      (t : Tier) (n c s d : ℕ) (w : World R)
      → tier_of_value user.tier ≡ some t
      → (tier_limits t).cloud_mt_allowed ≡ true
      → R.get (rate_limit_key user.id (codes "translate")) w.redis ≡ some c
      → (tier_limits t).requests_per_minute ≤ c
      → R.ttl (rate_limit_key user.id (codes "translate")) w.redis ≡ pos s
      → d < s
      → let later : World R = record w { redis = R.after d w.redis } in
        (check_usage_limits R env.week user n w
          ≡ (raised (Raised.app (AppException.rate_limit s [])), w))
        × (check_usage_limits R env.week user n later
            ≡ (raised (Raised.app (AppException.rate_limit (s - d) [])), later))
        × ((limit_rate R user.id
              (tier_limits t).requests_per_minute
              (record w { redis = R.after (s + 1) w.redis })).0
            ≡ returned tt)
  unfolding limit_rate
  limited_retry_after t n c s d w e allowed counted full runs early =
      let key = rate_limit_key user.id (codes "translate") in
      let limit = (tier_limits t).requests_per_minute in
      (
        refused_until t n c s w e allowed counted full runs (omega arith),
        refused_until t n c (s - d) (record w { redis = R.after d w.redis }) e allowed
            (R.get-after_before key s d w.redis runs early ∙ counted) full
            (R.ttl-after key s d w.redis runs early) (omega arith),
        rw
            (window_resets R user.id (codes "translate") limit 60 w.redis s (s + 1) runs
              (omega arith))
            refl,
      )
