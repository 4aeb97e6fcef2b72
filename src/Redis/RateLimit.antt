-- ===== src/Redis/RateLimit.antt =====
-- The fixed window of `check_rate_limit`, for requests of which no two are checked at the same time.
use native.Mathlib.Decide.{dec_lt}
use unitra_service_api.Common.{
  ℕ, ◌+◌, ◌-◌, ◌≤◌, ◌<◌, ◌≡◌, refl, Bool, true, false, none, some, List, [], ◌∷◌, leb, sum, length,
  min, arith, Option-cases, inl, inr, ◌∙◌,
}
use unitra_service_api.Common.Int.{ℤ, pos, sub_ℕ}
use unitra_service_api.Common.Text.{Text, text_eq, text_eq_refl}
use unitra_service_api.Redis.{rate_limit_key, alone, check_rate_limit}
use unitra_service_api.Redis.Server.{RedisServer}

module _ (R : RedisServer) (user endpoint : Text) (limit window : ℕ) where
  open R use {Store, get, setex, incrby, ttl, after}

  abbrev check : Store → Bool × ℤ × Store
  check = check_rate_limit R user endpoint limit window (alone R)

  abbrev key : Text
  key = rate_limit_key user endpoint

  -- The three outcomes of a check.
  pub check_fresh :
      (s : Store) → get key s ≡ none → check s ≡ (true, sub_ℕ limit 1, setex key window 1 s)
  unfolding check_rate_limit
  check_fresh s e = rw (e, check_rate_limit) refl

  pub check_full :
      (s : Store) (c : ℕ) → get key s ≡ some c → limit ≤ c → check s ≡ (false, pos 0, s)
  unfolding check_rate_limit
  check_full s c e h =
      let full : leb limit c ≡ true = ground arith in simp (e, check_rate_limit, full)

  pub check_room :
      (s : Store) (c : ℕ)
      → get key s ≡ some c
      → c < limit
      → check s ≡ (true, pos (limit - c - 1), incrby key 1 s)
  unfolding check_rate_limit
  check_room s c e h =
      let room : leb limit c ≡ false = ground arith in rw (e, check_rate_limit) (rw room refl)

  abbrev pub admitted : Bool → ℕ
  admitted true = 1
  admitted false = 0

  -- How many requests are admitted of those that come each after a delay in seconds.
  unfoldable pub admissions : List ℕ → Store → ℕ
  admissions [] s = 0
  admissions (d ∷ ds) s =
      let (allowed, _, s') = check (after d s) in admitted allowed + admissions ds s'

  incrby_self : (s : Store) (c : ℕ) → get key s ≡ some c → get key (incrby key 1 s) ≡ some (c + 1)
  incrby_self s c e = R.get-incrby key key 1 s ∙ rw (text_eq_refl key, e) refl

  -- Within a running window whose counter stands at `c`.
  admissions_running :
      (ds : List ℕ) (c t : ℕ) (s : Store)
      → get key s ≡ some c
      → ttl key s ≡ pos t
      → sum ds < t
      → admissions ds s ≡ min (length ds) (limit - c)
  unfolding admissions
  admissions_running [] c t s e l h = omega arith
  admissions_running (d ∷ ds) c t s e l h =
      let e' = R.get-after_before key t d s l (omega arith) ∙ e in
      let l' = R.ttl-after key t d s l (omega arith) in
      elim (dec_lt c limit) [
        | yes room ↦
            let step = check_room (after d s) c e' room in
            rw step (
              omega (
                arith,
                admissions_running ds (c + 1) (t - d) (incrby key 1 (after d s))
                    (incrby_self (after d s) c e') (R.ttl-incrby key 1 c (after d s) e' ∙ l')
                    (omega arith),
              ))
        | no full ↦
            let step = check_full (after d s) c e' (omega arith) in
            rw step (omega (arith, admissions_running ds c (t - d) (after d s) e' l' (omega arith)))
      ]

  -- Of a request on a fresh counter and those that follow it within the window, one after the other,
  -- exactly the first `limit` are admitted, however they are spread over the window. Requests at the
  -- same time are in Redis.Races.
  admissions_window :
      (ds : List ℕ) (s : Store)
      → get key s ≡ none
      → 1 ≤ limit
      → sum ds < window
      → let (allowed, _, s') = check s in
        admitted allowed + admissions ds s' ≡ min (length ds + 1) limit
  admissions_window ds s e one h =
      let fresh = check_fresh s e in
      let s' = setex key window 1 s in
      let counted : get key s' ≡ some 1 =
        R.get-setex key key window 1 s (omega arith) ∙ rw (text_eq_refl key) refl in
      let runs : ttl key s' ≡ pos window =
        R.ttl-setex key key window 1 s (omega arith) ∙ rw (text_eq_refl key) refl in
      rw fresh (omega (arith, admissions_running ds 1 window s' counted runs h))

  -- Once the window has passed, the next request is admitted, whatever was counted in it. TTL
  -- rounds, so that is certain only a second after the time that it reported.
  pub window_resets :
      (s : Store) (t n : ℕ) → ttl key s ≡ pos t → t < n → (check (after n s)).0 ≡ true
  window_resets s t n l h = rw (check_fresh (after n s) (R.get-after_expiry key t n s l h)) refl

  -- A check with a positive window leaves the value of every other key as it was.
  pub check_other :
      (s : Store) (other : Text)
      → text_eq key other ≡ false
      → 0 < window
      → get other (check s).2 ≡ get other s
  check_other s other ne w = elim (Option-cases (get key s)) [
    | inl e ↦ rw (check_fresh s e) (R.get-setex key other window 1 s w ∙ rw ne refl)
    | inr (c, e) ↦ elim (dec_lt c limit) [
      | yes room ↦ rw (check_room s c e room) (R.get-incrby key other 1 s ∙ rw ne refl)
      | no full ↦ rw (check_full s c e (omega arith)) refl
    ]
  ]
