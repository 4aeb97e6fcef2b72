-- ===== src/Batch/Processor/Retries.antt =====
-- How often `translate_batch` posts, what it counts, and how its result depends on the first
-- attempt that settles it.
use native.Mathlib.Nat.{pow-suc, pow-le-pow_right}
use unitra_service_api.Common.{
  ℕ, zero, suc, ◌+◌, ◌-◌, ◌^◌, ◌≤◌, ◌<◌, ◌≡◌, refl, Option, none, some, List, [], ◌∷◌, ltb, ltb→lt,
  if◌then◌else◌, arith, min, Bool-cases, inl, inr,
}
use unitra_service_api.Common.Text.{Text}
use unitra_service_api.Batch.Http.{HttpOutcome, answered, status_error, request_error, undecodable}
use unitra_service_api.Batch.Processor.{
  Failure, BatchProcessor, Exchange, Run, is_client_error, attempts, count_error, count_retry,
  translate_batch,
}

-- The limits that the rest of a call keeps, from attempt number `attempt` on.
record IsBounded (p : BatchProcessor) (attempt : ℕ) (r : Run) : Type 0 where
  posts : r.posts ≤ p.max_retries + 1
  sleeps : r.slept + 1 ≤ 2 ^ p.max_retries
  retries : r.processor.total_retries ≤ p.total_retries + (p.max_retries - attempt)
  errors : r.processor.total_errors + attempt ≤ p.total_errors + r.posts

-- The processor after a failed attempt.
abbrev pub after_failure : ℕ → BatchProcessor → BatchProcessor
after_failure attempt p =
    if ltb attempt p.max_retries then count_retry (count_error p) else count_error p

pub after_failure-max_retries :
    (attempt : ℕ) (p : BatchProcessor) → (after_failure attempt p).max_retries ≡ p.max_retries
unfolding count_retry count_error
after_failure-max_retries attempt p = elim (Bool-cases (ltb attempt p.max_retries)) [
  | inl again ↦ rw again
  | inr done ↦ rw done
]

low : (attempt most slept : ℕ) → slept + 1 ≡ 2 ^ min attempt most → slept + 1 ≤ 2 ^ most
low attempt most slept s =
    rw s (pow-le-pow_right {n = 2} (omega arith) {i = min attempt most} {j = most} (omega arith))

-- A failed attempt and what follows it stay within the limits if what follows does.
retry-IsBounded :
    (attempt : ℕ) (p : BatchProcessor) (r : Run)
    → attempt ≤ p.max_retries
    → IsBounded (after_failure attempt p) (attempt + 1) r
    → IsBounded p attempt r
unfolding count_retry count_error
retry-IsBounded attempt p r h b = elim (Bool-cases (ltb attempt p.max_retries)) [
  | inl again ↦
      let b' = rw again at b in
      omega (arith, b'.posts, b'.sleeps, b'.retries, b'.errors, ltb→lt _ _ again)
  | inr done ↦ let b' = rw done at b in omega (arith, b'.posts, b'.sleeps, b'.retries, b'.errors)
]

pow_min :
    (slept attempt most : ℕ)
    → slept + 1 ≡ 2 ^ min attempt most
    → (if ltb attempt most then slept + 2 ^ attempt else slept) + 1 ≡ 2 ^ min (attempt + 1) most
pow_min slept attempt most s = elim (Bool-cases (ltb attempt most)) [
  | inl again ↦
      let now : min attempt most ≡ attempt = omega (arith, ltb→lt _ _ again) in
      let next : min (attempt + 1) most ≡ suc attempt = omega (arith, ltb→lt _ _ again) in
      rw (again, next) (omega (arith, rw now at s, pow-suc 2 attempt))
  | inr done ↦
      let over : most ≤ attempt = ground (arith, done) in
      let now : min attempt most ≡ most = omega arith in
      let next : min (attempt + 1) most ≡ most = omega arith in rw (done, next) (rw now at s)
]

module _ (x : Exchange) (texts : List Text) (start : ℕ) where
  -- One round, by the outcome of its post, given that the rounds after a failure are bounded.
  step-IsBounded :
      (rounds attempt : ℕ) (last : Option Failure) (slept : ℕ) (p : BatchProcessor)
      → attempt ≤ p.max_retries
      → slept + 1 ≤ 2 ^ p.max_retries
      → (o : HttpOutcome) → x.post attempt ≡ o
      → ((f : Failure)
          → IsBounded (after_failure attempt p) (attempt + 1) (
              attempts x texts start rounds
                (attempt + 1)
                (some f)
                (if ltb attempt p.max_retries then slept + 2 ^ attempt else slept)
                (after_failure attempt p)))
      → IsBounded p attempt (attempts x texts start (suc rounds) attempt last slept p)
  unfolding attempts
  step-IsBounded rounds attempt last slept p h s (answered reply) o ih =
      rw (o, attempts) (omega arith)
  step-IsBounded rounds attempt last slept p h s undecodable o ih = rw (o, attempts) (omega arith)
  step-IsBounded rounds attempt last slept p h s (request_error m) o ih =
      rw (o, attempts) (retry-IsBounded attempt p _ h (ih (Failure.request_failure m)))
  step-IsBounded rounds attempt last slept p h s (status_error c) o ih =
      elim (Bool-cases (is_client_error c)) [
        | inl client ↦ rw (o, attempts) (rw client (omega arith))
        | inr server ↦
            rw (o, attempts)
              (rw server (retry-IsBounded attempt p _ h (ih (Failure.status_failure c))))
      ]

  attempts-IsBounded :
      (rounds attempt : ℕ) (last : Option Failure) (slept : ℕ) (p : BatchProcessor)
      → attempt + rounds ≡ p.max_retries + 1
      → slept + 1 ≡ 2 ^ min attempt p.max_retries
      → IsBounded p attempt (attempts x texts start rounds attempt last slept p)
  unfolding attempts
  attempts-IsBounded zero attempt last slept p e s =
      let over : min attempt p.max_retries ≡ p.max_retries = omega arith in
      omega (arith, rw over at s)
  attempts-IsBounded (suc rounds) attempt last slept p e s =
      step-IsBounded rounds attempt last slept p (omega arith) (low attempt p.max_retries slept s)
        (x.post attempt) refl
        λ f.
          attempts-IsBounded rounds (attempt + 1) (some f) _ (after_failure attempt p)
            (rw after_failure-max_retries (omega arith))
            (rw after_failure-max_retries (pow_min slept attempt p.max_retries s))

-- A call posts at most `max_retries + 1` times, sleeps less than `2 ^ max_retries` tenths of a
-- second in all, counts at most `max_retries` retries and no more errors than it makes posts.
translate_batch_bounds :
    (x : Exchange) (texts : List Text) (start : ℕ) (p : BatchProcessor)
    → let r = translate_batch x texts start p in
      (r.posts ≤ p.max_retries + 1)
      × (r.slept < 2 ^ p.max_retries)
      × (r.processor.total_retries ≤ p.total_retries + p.max_retries)
      × (r.processor.total_errors ≤ p.total_errors + r.posts)
unfolding translate_batch
translate_batch_bounds x [] start p =
    omega (arith, pow-le-pow_right {n = 2} (omega arith) {i = 0} {j = p.max_retries} (omega arith))
translate_batch_bounds x (t ∷ texts) start p =
    let z : min 0 p.max_retries ≡ 0 = omega arith in
    let b =
      attempts-IsBounded x (t ∷ texts) start (suc p.max_retries) 0 none 0 p (omega arith)
        (rw z (omega arith)) in
    omega (arith, b.posts, b.sleeps, b.retries, b.errors)
