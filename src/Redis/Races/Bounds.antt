-- ===== src/Redis/Races/Bounds.antt =====
-- How many requests are admitted that are checked at the same time.
use unitra_service_api.Common.{
  ℕ, zero, suc, ◌+◌, ◌-◌, ◌≤◌, ◌<◌, ◌≡◌, refl, Option, none, some, List, [], ◌∷◌, length, leb,
  arith, All, ◌⊎◌, inl, inr, ◌∙◌, ap, Bool-cases,
}
use unitra_service_api.Common.Int.{pos}
use unitra_service_api.Common.Text.{Text, text_eq_refl}
use unitra_service_api.Redis.{rate_limit_key, rate_decision, note_request}
use unitra_service_api.Redis.Server.{RedisServer}
use unitra_service_api.Redis.Races.{
  Event, arrives, proceeds, passes, Picked, with_other, pick, duration, Checks, begin, proceeded,
  check_step, check_steps,
}

-- Requests that have all read a count.
abbrev Known : List (Option ℕ) → Type 0
Known = All (λ o. (m : ℕ) × (o ≡ some m))

abbrev IsPickOf : List (Option ℕ) → Picked → Type 0
IsPickOf os none = Unit
IsPickOf os (some (o, others)) =
    ((m : ℕ) × (o ≡ some m)) × Known others × (length os ≡ length others + 1)

with_other-IsPickOf :
    (x : Option ℕ) (xs : List (Option ℕ)) (r : Picked)
    → Known (x ∷ xs)
    → IsPickOf xs r
    → IsPickOf (x ∷ xs) (with_other x r)
with_other-IsPickOf x xs none k h = tt
with_other-IsPickOf x xs (some (y, ys)) k (m, others, one) = (m, (k.0, others), omega (arith, one))

pick-IsPickOf : (i : ℕ) (os : List (Option ℕ)) → Known os → IsPickOf os (pick i os)
unfolding pick
pick-IsPickOf i [] k = tt
pick-IsPickOf zero (x ∷ xs) k = (k.0, k.1, omega arith)
pick-IsPickOf (suc i) (x ∷ xs) k = with_other-IsPickOf x xs (pick i xs) k (pick-IsPickOf i xs k.1)

module _ (R : RedisServer) (user endpoint : Text) (limit window : ℕ) where
  open R use {Store, get, ttl, after}

  abbrev key : Text
  key = rate_limit_key user endpoint

  abbrev Run : Type 0
  Run = Checks R user endpoint limit window

  abbrev next : Event → Run → Run
  next = check_step R user endpoint limit window

  abbrev start : Store → Run
  start = begin R user endpoint limit window

  -- In a window whose counter stood at `c`, with `t` seconds left.
  record IsRunning (c t : ℕ) (k : Run) : Type 0 where
    counted : get key k.store ≡ some (c + k.admitted)
    running : ttl key k.store ≡ pos t
    known : Known k.pending
    most : length k.pending ≤ k.peak
    bounded : c + k.admitted + length k.pending ≤ limit + (k.peak - 1)
    full : (k.refused ≡ 0) ⊎ (limit ≤ c + k.admitted)

  arrives-IsRunning : (c t : ℕ) (k : Run) → IsRunning c t k → IsRunning c t (next arrives k)
  unfolding check_step rate_decision
  arrives-IsRunning c t k r = elim (Bool-cases (leb limit (c + k.admitted))) [
    | inl reached ↦
        rw (r.counted, reached)
          (record {
            counted = r.counted;
            running = r.running;
            known = r.known;
            most = r.most;
            bounded = r.bounded;
            full = inr (ground arith);
          })
    | inr room ↦
        rw (r.counted, room)
          (record {
            counted = r.counted;
            running = r.running;
            known = ((c + k.admitted, refl), r.known);
            most = omega (arith, r.most);
            bounded = grind arith;
            full = r.full;
          })
  ]

  proceeded-IsRunning :
      (c t : ℕ) (k : Run) (p : Picked)
      → IsRunning c t k
      → IsPickOf k.pending p
      → IsRunning c t (proceeded R user endpoint limit window p k)
  unfolding note_request
  proceeded-IsRunning c t k none r h = r
  proceeded-IsRunning c t k (some (none, others)) r ((m, e), rest, one) = cc
  proceeded-IsRunning c t k (some (some n, others)) r (m, rest, one) = record {
    counted =
        R.get-incrby key key 1 k.store ∙ rw (text_eq_refl key, r.counted) (ap some (omega arith));
    running = R.ttl-incrby key 1 (c + k.admitted) k.store r.counted ∙ r.running;
    known = rest;
    most = omega (arith, r.most, one);
    bounded = omega (arith, r.bounded, one);
    full = ground (arith, r.full);
  }

  passes-IsRunning :
      (c t d : ℕ) (k : Run) → IsRunning c t k → d < t → IsRunning c (t - d) (next (passes d) k)
  unfolding check_step
  passes-IsRunning c t d k r h = record {
    counted = R.get-after_before key t d k.store r.running h ∙ r.counted;
    running = R.ttl-after key t d k.store r.running h;
    known = r.known;
    most = r.most;
    bounded = r.bounded;
    full = r.full;
  }

  check_steps-IsRunning :
      (es : List Event) (c t : ℕ) (k : Run)
      → IsRunning c t k
      → duration es < t
      → (u : ℕ) × IsRunning c u (check_steps R user endpoint limit window es k)
  unfolding check_steps check_step
  check_steps-IsRunning [] c t k r h = (t, r)
  check_steps-IsRunning (arrives ∷ es) c t k r h =
      check_steps-IsRunning es c t (next arrives k) (arrives-IsRunning c t k r) h
  check_steps-IsRunning (proceeds i ∷ es) c t k r h =
      check_steps-IsRunning es c t (next (proceeds i) k)
        (proceeded-IsRunning c t k (pick i k.pending) r (pick-IsPickOf i k.pending r.known)) h
  check_steps-IsRunning (passes d ∷ es) c t k r h =
      check_steps-IsRunning es c (t - d) (next (passes d) k)
        (passes-IsRunning c t d k r (omega arith)) (omega arith)

  -- Requests come in a window whose counter stands at `c`, at most the limit, with `t` seconds left
  -- by TTL, in any order of their reads and writes over less than `t` seconds; at the start none is
  -- between its two commands. If at most `peak` of them are ever between their commands at once, the
  -- requests admitted are at most the `limit - c` that were left and `peak - 1` more, so none more if
  -- they are checked one after another; and none is refused before the limit is reached.
  pub admissions_interleaved :
      (es : List Event) (c t : ℕ) (s : Store)
      → get key s ≡ some c
      → ttl key s ≡ pos t
      → c ≤ limit
      → duration es < t
      → let k = check_steps R user endpoint limit window es (start s) in
        (c + k.admitted ≤ limit + (k.peak - 1)) × ((k.refused ≡ 0) ⊎ (limit ≤ c + k.admitted))
  unfolding begin
  admissions_interleaved es c t s e l room h =
      let (u, r) =
        check_steps-IsRunning es c t (start s)
          (record {
            counted = e ∙ ap some (omega arith);
            running = l;
            known = tt;
            most = omega arith;
            bounded = omega arith;
            full = inl refl;
          })
          h in
      (omega (arith, r.bounded), r.full)
