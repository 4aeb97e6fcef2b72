-- ===== src/Api/Translate/Statuses/Checks.antt =====
-- The statuses of the errors of the checks before a translation: languages, texts and usage.
use unitra_service_api.Common.{
  ℕ, ◌≡◌, refl, Bool-cases, Option-cases, inl, inr, ◌⊎◌, List, [], ◌∷◌, suc, ltb, not, ◌+◌, ◌++◌,
  length,
}
use unitra_service_api.Common.Text.{Text, codes, text_eq}
use unitra_service_api.Common.Str.{str, Lowering, strip}
use unitra_service_api.Errors.{AppException, status_code}
use unitra_service_api.Errors.Handlers.{
  Raised, handle, app_exception_handler, generic_exception_handler,
}
use unitra_service_api.Limits.{TierLimits, tier_of_value}
use unitra_service_api.Redis as Redis
use unitra_service_api.Redis.Server.{RedisServer}
use unitra_service_api.Api.Action.{Outcome, returned, raised}
use unitra_service_api.Api.Action.Errors.{
  ErrorIs, ErrorIs-if_else, OnlyRaises, OnlyRaises-bind, OnlyRaises-raise_if, OnlyRaises-lift,
}
use unitra_service_api.Api.Languages.{
  normalize_language, contains, resolve_alias, supported_languages,
}
use unitra_service_api.Api.Translate.{
  User, languages, check_texts, invalid_language, limits_of, limit_rate, check_quota,
  check_usage_limits,
}

-- The statuses of what the endpoints raise.
abbrev pub IsExpected : ℕ → Type 0
IsExpected status =
    (status ≡ 403) ⊎ (status ≡ 422) ⊎ (status ≡ 429) ⊎ (status ≡ 500) ⊎ (status ≡ 502)

abbrev pub Answered : Raised → Type 0
Answered e = IsExpected (handle e).status

pub refused_input : (m : Text) → Answered (Raised.app (AppException.invalid_language m))
unfolding handle app_exception_handler status_code
refused_input m = inr (inl refl)

pub internal_error : (m : Text) → Answered (Raised.unexpected m)
unfolding handle generic_exception_handler
internal_error m = inr (inr (inr (inl refl)))

normalize_language-Answered :
    (L : Lowering) (code : Text) → ErrorIs Answered (normalize_language L code)
unfolding normalize_language
normalize_language-Answered L code =
    elim (Bool-cases (contains (resolve_alias (strip (L.lower code))) supported_languages)) [
      | inl known ↦ rw known tt
      | inr unknown ↦ rw unknown (refused_input code)
    ]

module _ (L : Lowering) (source target : Text) where
  languages-Answered_source :
      (s : Text)
      → normalize_language L source ≡ returned s
      → (o : Outcome Text) → normalize_language L target ≡ o
      → ErrorIs Answered (languages L source target)
  unfolding languages
  languages-Answered_source s e (raised x) f =
      rw (languages, e) (rw f (rw f at (normalize_language-Answered L target)))
  languages-Answered_source s e (returned t) f = elim (Bool-cases (text_eq s t)) [
    | inl same ↦ rw (languages, e) (rw f (rw same (refused_input _)))
    | inr differ ↦ rw (languages, e) (rw f (rw differ tt))
  ]

  languages-Answered_normalized :
      (o : Outcome Text)
      → normalize_language L source ≡ o
      → ErrorIs Answered (languages L source target)
  unfolding languages
  languages-Answered_normalized (raised x) e =
      rw (languages, e) (rw e at (normalize_language-Answered L source))
  languages-Answered_normalized (returned s) e = languages-Answered_source s e _ refl

  pub languages-Answered : ErrorIs Answered (languages L source target)
  languages-Answered = languages-Answered_normalized _ refl

pub check_texts-Answered : (i : ℕ) (texts : List Text) → ErrorIs Answered (check_texts i texts)
unfolding check_texts
check_texts-Answered i [] = tt
check_texts-Answered i (t ∷ texts) = elim (Bool-cases (ltb 512 (length t))) [
  | inl long ↦ rw (check_texts, long) (refused_input _)
  | inr short ↦ rw (check_texts, short) (stripped (strip t) (check_texts-Answered (suc i) texts))
]
  where
    stripped :
        (s : Text)
        → ErrorIs Answered (check_texts (suc i) texts)
        → ErrorIs Answered (elim s [
          | [] ↦ raised (invalid_language (codes "Text " ++ (str i ++ codes " is empty")))
          | _ ∷ _ ↦ check_texts (suc i) texts
        ])
    stripped [] h = refused_input _
    stripped (c ∷ s) h = h

module _ (R : RedisServer) (week : Text) (user : User) where
  limits_of-Answered : ErrorIs Answered (limits_of user)
  unfolding limits_of
  limits_of-Answered = elim (Option-cases (tier_of_value user.tier)) [
    | inl unknown ↦ rw (limits_of, unknown) (internal_error _)
    | inr (t, known) ↦ rw (limits_of, known) tt
  ]

  limit_rate-OnlyRaises : (n : ℕ) → OnlyRaises Answered (limit_rate R user.id n)
  unfolding limit_rate handle app_exception_handler status_code
  limit_rate-OnlyRaises n = record {
    error_is = λ w. ErrorIs-if_else Answered _ tt _ (inr (inr (inl refl)));
  }

  check_quota-OnlyRaises : (n limit : ℕ) → OnlyRaises Answered (check_quota R week user.id n limit)
  unfolding check_quota handle app_exception_handler status_code
  check_quota-OnlyRaises n limit = record {
    error_is = λ w. elim (Bool-cases (ltb limit (Redis.get_usage R week user.id w.redis + n))) [
      | inl over ↦ rw over (inr (inr (inl refl)))
      | inr room ↦ rw room tt
    ];
  }

  pub check_usage_limits-OnlyRaises :
      (n : ℕ) → OnlyRaises Answered (check_usage_limits R week user n)
  unfolding check_usage_limits handle app_exception_handler status_code
  check_usage_limits-OnlyRaises n =
      OnlyRaises-bind (OnlyRaises-lift limits_of-Answered) (λ (limits : TierLimits).
        OnlyRaises-bind (OnlyRaises-raise_if (not limits.cloud_mt_allowed) _ (inl refl)) (λ _.
          OnlyRaises-bind (limit_rate-OnlyRaises limits.requests_per_minute)
            (λ _. check_quota-OnlyRaises n limits.tokens_per_week)))
