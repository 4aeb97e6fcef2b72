-- ===== src/Api/Translate/Served.antt =====
-- The part that both translation endpoints share: languages, checks, post, record, response.
use unitra_service_api.Common.{ℕ, ◌+◌, ◌≡◌, refl, false, ◌∷◌, ◌⊎◌, inl, inr, ◌∙◌, ap, Bool-cases}
use unitra_service_api.Common.Text.{Text}
use unitra_service_api.Redis.Server.{RedisServer}
use unitra_service_api.Redis.Usage.{get_usage-increment_usage}
use unitra_service_api.Batch.Http.{HttpOutcome}
use unitra_service_api.Api.Action.{
  Outcome, returned, raised, Action, pure, lift, ◌>>=◌, ◌>>◌, bind_returned, bind_raised,
}
use unitra_service_api.Api.MtClient.{MtRequest}
use unitra_service_api.Api.Translate.{
  User, World, Surroundings, UsageLog, ProcessingLocation, check_usage_limits, record_usage,
}
use unitra_service_api.Api.Translate.Checks.{
  used, Keeps, HasRoom, Granted, check_usage_limits_effect,
}

module _ (R : RedisServer) (env : Surroundings) (user : User) where
  abbrev pub log_of : ℕ → Text → Text → UsageLog
  log_of n source target = record {
    user_id = user.id;
    tokens_used = n;
    source_lang = source;
    target_lang = target;
    processing_location = ProcessingLocation.cloud;
  }

  -- The tokens are counted and logged.
  abbrev pub Charged : ℕ → Text → Text → World R → World R → Type 0
  Charged n source target w w' =
      (used R env.week user w' ≡ used R env.week user w + n)
      × (w'.usage_logs ≡ log_of n source target ∷ w.usage_logs)

  abbrev Recorded : ℕ → Text → Text → World R → Outcome Unit × World R → Type 0
  Recorded n s t w (returned _, w') = Charged n s t w w' × (w'.mt_requests ≡ w.mt_requests)
  Recorded n s t w (raised e, w') =
      (env.commits ≡ false) × (w'.usage_logs ≡ w.usage_logs) × (w'.mt_requests ≡ w.mt_requests)

  record_usage_effect :
      (n : ℕ) (s t : Text) (w : World R) → Recorded n s t w (record_usage R env user.id n s t w)
  unfolding record_usage
  record_usage_effect n s t w = elim (Bool-cases env.commits) [
    | inl yes_ ↦ rw yes_ (((get_usage-increment_usage R env.week user.id n w.redis).0, refl), refl)
    | inr no_ ↦ rw no_ (refl, refl, refl)
  ]

  -- Nothing is charged, unless the commit failed.
  abbrev pub Uncharged : World R → World R → Type 0
  Uncharged w w' =
      (w'.usage_logs ≡ w.usage_logs)
      × ((used R env.week user w' ≡ used R env.week user w) ⊎ (env.commits ≡ false))

  -- One endpoint, by its validated languages, its estimate of the tokens, how it reads the outcome
  -- of its post, and how it responds.
  module _ {A B : Type 0} (l : Outcome (Text × Text)) (n : ℕ) (read : HttpOutcome → Outcome A)
      (request : Text → Text → MtRequest) (tokens : A → ℕ) (respond : A → Text → Text → B) where
    abbrev pub posting : Text → Text → Action (World R) A
    posting s t w =
        (read (env.post (request s t)), record w { mt_requests = request s t ∷ w.mt_requests })

    abbrev pub recording : Text → Text → A → Action (World R) B
    recording s t a = record_usage R env user.id (tokens a) s t >> pure (respond a s t)

    abbrev pub checking : Text → Text → Action (World R) B
    checking s t = check_usage_limits R env.week user n >> (posting s t >>= recording s t)

    abbrev pub served : Action (World R) B
    served = lift l >>= λ (s, t). checking s t

    -- A post is made only for a request with room, and at most once.
    abbrev pub Posted : World R → World R → Type 0
    Posted w w' =
        (w'.mt_requests ≡ w.mt_requests)
        ⊎ ((s : Text) × (t : Text) × (l ≡ returned (s, t))
            × HasRoom R env.week user n w
            × (w'.mt_requests ≡ request s t ∷ w.mt_requests))

    -- A response was charged for, with the tokens that the service reports. A request that raises
    -- is not charged, unless the commit failed.
    abbrev pub Served : World R → Outcome B × World R → Type 0
    Served w (returned b, w') =
        (s : Text) × (t : Text) × (a : A) × (l ≡ returned (s, t))
        × (read (env.post (request s t)) ≡ returned a)
        × (b ≡ respond a s t)
        × HasRoom R env.week user n w
        × Charged (tokens a) s t w w'
        × (w'.mt_requests ≡ request s t ∷ w.mt_requests)
    Served w (raised e, w') = Uncharged w w' × Posted w w'

    -- from the record on
    module _ (s t : Text) (hl : l ≡ returned (s, t)) (w : World R)
        (room : HasRoom R env.week user n w) (w1 : World R) (k : Keeps R env.week user w w1) where
      abbrev w2 : World R
      w2 = record w1 { mt_requests = request s t ∷ w1.mt_requests }

      Recorded-effect :
          (a : A)
          → read (env.post (request s t)) ≡ returned a
          → (o : Outcome Unit) (w' : World R) → Recorded (tokens a) s t w2 (o, w')
          → record_usage R env user.id (tokens a) s t w2 ≡ (o, w')
          → Served w (recording s t a w2)
      Recorded-effect a ha (returned _) w' h e =
          rw
            (bind_returned (record_usage R env user.id (tokens a) s t) (λ _. pure (respond a s t))
              w2 tt w' e)
            (
              s,
              t,
              a,
              hl,
              ha,
              refl,
              room,
              (h.0.0 ∙ ap (λ z. z + tokens a) k.0, h.0.1 ∙ ap (λ z. log_of (tokens a) s t ∷ z) k.1),
              h.1 ∙ ap (λ z. request s t ∷ z) k.2,
            )
      Recorded-effect a ha (raised x) w' h e =
          rw
            (bind_raised (record_usage R env user.id (tokens a) s t) (λ _. pure (respond a s t)) w2
              x w' e)
            ((h.1 ∙ k.1, inr h.0), inr (s, t, hl, room, h.2 ∙ ap (λ z. request s t ∷ z) k.2))

      posted_effect :
          (o : Outcome A)
          → read (env.post (request s t)) ≡ o
          → Served w ((posting s t >>= recording s t) w1)
      posted_effect (returned a) e =
          rw (bind_returned (posting s t) (recording s t) w1 a w2 (ap (λ z. (z, w2)) e))
            (Recorded-effect a e _ _ (record_usage_effect (tokens a) s t w2) refl)
      posted_effect (raised x) e =
          rw (bind_raised (posting s t) (recording s t) w1 x w2 (ap (λ z. (z, w2)) e))
            ((k.1, inl k.0), inr (s, t, hl, room, ap (λ z. request s t ∷ z) k.2))

    checked_effect :
        (s t : Text)
        → l ≡ returned (s, t)
        → (w : World R) → (o : Outcome (ℕ × ℕ)) (w1 : World R)
        → Keeps R env.week user w w1 × Granted R env.week user n w o
        → check_usage_limits R env.week user n w ≡ (o, w1)
        → Served w (checking s t w)
    checked_effect s t hl w (returned x) w1 (k, room) e =
        rw
          (bind_returned (check_usage_limits R env.week user n) (λ _. posting s t >>= recording s t)
            w x w1 e)
          (posted_effect s t hl w room w1 k _ refl)
    checked_effect s t hl w (raised x) w1 (k, _) e =
        rw
          (bind_raised (check_usage_limits R env.week user n) (λ _. posting s t >>= recording s t) w
            x w1 e)
          ((k.1, inl k.0), inl k.2)

    pub served_effect : (o : Outcome (Text × Text)) → l ≡ o → (w : World R) → Served w (served w)
    served_effect (raised x) e w =
        rw (bind_raised (lift l) (λ (s, t). checking s t) w x w (ap (λ z. (z, w)) e))
          ((refl, inl refl), inl refl)
    served_effect (returned (s, t)) e w =
        rw (bind_returned (lift l) (λ (s, t). checking s t) w (s, t) w (ap (λ z. (z, w)) e))
          (checked_effect s t e w _ _ (check_usage_limits_effect R env.week user n w) refl)
