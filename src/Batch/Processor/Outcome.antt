-- ===== src/Batch/Processor/Outcome.antt =====
-- The result of `translate_batch`, from the first attempt that settles it.
use unitra_service_api.Common.{
  ℕ, zero, suc, ◌+◌, ◌^◌, ◌≤◌, ◌<◌, ◌≡◌, refl, true, false, Option, none, some, List, ◌∷◌, ltb,
  if◌then◌else◌, arith, ap,
}
use unitra_service_api.Common.Text.{Text}
use unitra_service_api.Batch.Http.{HttpOutcome, answered, status_error, request_error, undecodable}
use unitra_service_api.Batch.Processor.{
  Failure, BatchException, Result, BatchProcessor, Exchange, Run, retryable, attempts,
  translate_batch,
}
use unitra_service_api.Batch.Processor.Retries.{after_failure, after_failure-max_retries}
use unitra_service_api.Batch.Processor.Attempts.{
  settles, verdict, failure_of, is_answered, is_status_error, after_failure_counts, attempts-retry,
}

module _ (x : Exchange) (texts : List Text) (start : ℕ) where
  -- The result and the counters of a run that attempt `k` settles.
  record IsSettledBy (k : ℕ) (p : BatchProcessor) (attempt : ℕ) (r : Run) : Type 0 where
    result : r.result ≡ verdict texts (x.post k)
    posts : r.posts ≡ k + 1
    batches : r.processor.total_batches ≡ p.total_batches + is_answered (x.post k)
    errors : r.processor.total_errors + attempt ≡ p.total_errors + k + is_status_error (x.post k)
    retries : r.processor.total_retries + attempt ≡ p.total_retries + k

  settled_now :
      (rounds k : ℕ) (last : Option Failure) (slept : ℕ) (p : BatchProcessor) (o : HttpOutcome)
      → x.post k ≡ o
      → settles o ≡ true
      → IsSettledBy k p k (attempts x texts start (suc rounds) k last slept p)
  unfolding attempts
  settled_now rounds k last slept p (answered reply) e s = rw (e, attempts) (ground arith)
  settled_now rounds k last slept p undecodable e s = rw (e, attempts) (ground arith)
  settled_now rounds k last slept p (request_error m) e s = cc
  settled_now rounds k last slept p (status_error c) e s = rw (e, attempts) (rw s (ground arith))

  settled_later :
      (k attempt : ℕ) (p : BatchProcessor) (r : Run)
      → attempt < p.max_retries
      → IsSettledBy k (after_failure attempt p) (attempt + 1) r
      → IsSettledBy k p attempt r
  settled_later k attempt p r h s =
      let (errors, retries, batches) = after_failure_counts attempt p h in
      record {
        result = s.result;
        posts = s.posts;
        batches = omega (arith, s.batches, batches);
        errors = omega (arith, s.errors, errors);
        retries = omega (arith, s.retries, retries);
      }

  attempts-IsSettledBy :
      (d rounds attempt k : ℕ) (last : Option Failure) (slept : ℕ) (p : BatchProcessor)
      → attempt + d ≡ k
      → k ≤ p.max_retries
      → d < rounds
      → ((i : ℕ) → attempt ≤ i → i < k → settles (x.post i) ≡ false)
      → settles (x.post k) ≡ true
      → IsSettledBy k p attempt (attempts x texts start rounds attempt last slept p)
  attempts-IsSettledBy d zero attempt k last slept p e m h f s = absurd (omega arith)
  attempts-IsSettledBy zero (suc rounds) attempt k last slept p e m h f s =
      let same : attempt ≡ k = omega arith in
      rw same (settled_now rounds k last slept p (x.post k) refl s)
  attempts-IsSettledBy (suc d) (suc rounds) attempt k last slept p e m h f s =
      let failed = f attempt (omega arith) (omega arith) in
      rw (attempts-retry x texts start rounds attempt last slept p (x.post attempt) refl failed) (
        settled_later k attempt p _ (omega arith) (
          attempts-IsSettledBy d rounds (attempt + 1) k _ _ (after_failure attempt p) (omega arith)
            (rw after_failure-max_retries m) (omega arith) (λ i a b. f i (omega arith) b) s))

  -- The result and the counters of a run whose attempts all failed, `o` being the last.
  record IsExhausted (o : HttpOutcome) (p : BatchProcessor) (attempt : ℕ) (r : Run) : Type 0 where
    result : r.result ≡ Result.err (BatchException.retries_exhausted (failure_of o))
    posts : r.posts ≡ p.max_retries + 1
    batches : r.processor.total_batches ≡ p.total_batches
    errors : r.processor.total_errors + attempt ≡ p.total_errors + p.max_retries + 1
    retries : r.processor.total_retries + attempt ≡ p.total_retries + p.max_retries

  IsExhausted-later :
      (o : HttpOutcome) (attempt : ℕ) (p : BatchProcessor) (r : Run)
      → attempt < p.max_retries
      → IsExhausted o (after_failure attempt p) (attempt + 1) r
      → IsExhausted o p attempt r
  IsExhausted-later o attempt p r h s =
      let (errors, retries, batches) = after_failure_counts attempt p h in
      let most = after_failure-max_retries attempt p in
      record {
        result = s.result;
        posts = omega (arith, s.posts, most);
        batches = omega (arith, s.batches, batches);
        errors = omega (arith, s.errors, errors, most);
        retries = omega (arith, s.retries, retries, most);
      }

  gave_up :
      (attempt slept : ℕ) (p : BatchProcessor) (o : HttpOutcome)
      → attempt ≡ p.max_retries
      → IsExhausted o p attempt (
          attempts x texts start 0
            (attempt + 1)
            (failure_of o)
            (if ltb attempt p.max_retries then slept + 2 ^ attempt else slept)
            (after_failure attempt p))
  unfolding attempts
  gave_up attempt slept p o h = ground arith

  IsExhausted-now :
      (attempt : ℕ) (last : Option Failure) (slept : ℕ) (p : BatchProcessor) (o : HttpOutcome)
      → x.post attempt ≡ o
      → settles o ≡ false
      → attempt ≡ p.max_retries
      → IsExhausted o p attempt (attempts x texts start 1 attempt last slept p)
  IsExhausted-now attempt last slept p o e s h =
      rw (attempts-retry x texts start 0 attempt last slept p o e s) (gave_up attempt slept p o h)

  attempts-IsExhausted :
      (rounds attempt m : ℕ) (last : Option Failure) (slept : ℕ) (p : BatchProcessor)
      → p.max_retries ≡ m
      → attempt + rounds ≡ m
      → ((i : ℕ) → i ≤ m → settles (x.post i) ≡ false)
      → IsExhausted (x.post m) p attempt (attempts x texts start (suc rounds) attempt last slept p)
  attempts-IsExhausted zero attempt m last slept p most e f =
      let last_one : attempt ≡ m = omega arith in
      IsExhausted-now attempt last slept p (x.post m) (ap x.post last_one) (f m (omega arith))
        (omega arith)
  attempts-IsExhausted (suc rounds) attempt m last slept p most e f =
      rw
        (attempts-retry x texts start (suc rounds) attempt last slept p (x.post attempt) refl
          (f attempt (omega arith)))
        (IsExhausted-later (x.post m) attempt p _ (omega arith) (
          attempts-IsExhausted rounds (attempt + 1) m _ _ (after_failure attempt p)
            (omega (arith, after_failure-max_retries attempt p)) (omega arith) f))

-- If every attempt before number `k` ends in a server error or a request error, and attempt `k`
-- does not, then the call makes `k + 1` posts, counts `k` retries and one error for each failed
-- post, and its result is that of attempt `k`: the translations of the reply, or at once the error
-- of a client error status, never repeated. A reply counts as a batch also where it lacks the
-- translations.
pub translate_batch_settled :
    (x : Exchange) (t : Text) (texts : List Text) (start : ℕ) (p : BatchProcessor) (k : ℕ)
    → k ≤ p.max_retries
    → ((i : ℕ) → i < k → settles (x.post i) ≡ false)
    → settles (x.post k) ≡ true
    → let r = translate_batch x (t ∷ texts) start p in
      (r.result ≡ verdict (t ∷ texts) (x.post k))
      × (r.posts ≡ k + 1)
      × (r.processor.total_retries ≡ p.total_retries + k)
      × (r.processor.total_errors ≡ p.total_errors + k + is_status_error (x.post k))
      × (r.processor.total_batches ≡ p.total_batches + is_answered (x.post k))
unfolding translate_batch
translate_batch_settled x t texts start p k h f s =
    let b =
      attempts-IsSettledBy x (t ∷ texts) start k (suc p.max_retries) 0 k none 0 p (omega arith) h
        (omega arith) (λ i _ l. f i l) s in
    (b.result, b.posts, omega (arith, b.retries), omega (arith, b.errors), b.batches)

-- If every attempt ends in a server error or a request error, the call raises a retryable error
-- that carries the last failure, after `max_retries + 1` posts, all counted as errors, and
-- `max_retries` retries; no batch is counted.
pub translate_batch_exhausted :
    (x : Exchange) (t : Text) (texts : List Text) (start : ℕ) (p : BatchProcessor)
    → ((i : ℕ) → i ≤ p.max_retries → settles (x.post i) ≡ false)
    → let r = translate_batch x (t ∷ texts) start p in
      let e = BatchException.retries_exhausted (failure_of (x.post p.max_retries)) in
      (r.result ≡ Result.err e)
      × (retryable e ≡ some true)
      × (r.posts ≡ p.max_retries + 1)
      × (r.processor.total_retries ≡ p.total_retries + p.max_retries)
      × (r.processor.total_errors ≡ p.total_errors + p.max_retries + 1)
      × (r.processor.total_batches ≡ p.total_batches)
unfolding translate_batch
translate_batch_exhausted x t texts start p f =
    let b =
      attempts-IsExhausted x (t ∷ texts) start p.max_retries 0 p.max_retries none 0 p refl
        (omega arith) f in
    (b.result, refl, b.posts, omega (arith, b.retries), omega (arith, b.errors), b.batches)
