-- ===== src/Batch/Processor/Attempts.antt =====
-- The outcomes that end the attempts of `translate_batch`, and the attempts that do not.
use unitra_service_api.Common.{
  ℕ, suc, ◌+◌, ◌^◌, ◌<◌, ◌≡◌, refl, Bool, true, false, Option, none, some, List, ltb, if◌then◌else◌,
  arith,
}
use unitra_service_api.Common.Text.{Text}
use unitra_service_api.Batch.Http.{HttpOutcome, answered, status_error, request_error, undecodable}
use unitra_service_api.Batch.Processor.{
  Failure, BatchException, Result, BatchProcessor, Exchange, extract, is_client_error, attempts,
  count_error, count_retry,
}
use unitra_service_api.Batch.Processor.Retries.{after_failure}

-- Whether no further attempt follows an outcome: all but server errors and request errors.
abbrev pub settles : HttpOutcome → Bool
settles (answered _) = true
settles undecodable = true
settles (status_error status) = is_client_error status
settles (request_error _) = false

-- What a settling outcome makes the call return.
abbrev pub verdict : List Text → HttpOutcome → Result (List Text)
verdict texts (answered reply) = extract texts reply
verdict texts undecodable = Result.err BatchException.decode_error
verdict texts (status_error status) = Result.err (BatchException.client_error status)
verdict texts (request_error _) = Result.err (BatchException.retries_exhausted none)

-- `last_error` after an outcome that settles nothing.
abbrev pub failure_of : HttpOutcome → Option Failure
failure_of (answered _) = none
failure_of undecodable = none
failure_of (status_error status) = some (Failure.status_failure status)
failure_of (request_error message) = some (Failure.request_failure message)

abbrev pub is_answered : HttpOutcome → ℕ
is_answered (answered _) = 1
is_answered _ = 0

abbrev pub is_status_error : HttpOutcome → ℕ
is_status_error (status_error _) = 1
is_status_error _ = 0

pub after_failure_counts :
    (attempt : ℕ) (p : BatchProcessor)
    → attempt < p.max_retries
    → ((after_failure attempt p).total_errors ≡ p.total_errors + 1)
      × ((after_failure attempt p).total_retries ≡ p.total_retries + 1)
      × ((after_failure attempt p).total_batches ≡ p.total_batches)
unfolding count_error count_retry
after_failure_counts attempt p h = ground arith

module _ (x : Exchange) (texts : List Text) (start : ℕ) where
  -- A failed attempt goes on to the next.
  pub attempts-retry :
      (rounds attempt : ℕ) (last : Option Failure) (slept : ℕ) (p : BatchProcessor)
      (o : HttpOutcome)
      → x.post attempt ≡ o
      → settles o ≡ false
      → attempts x texts start (suc rounds) attempt last slept p
        ≡ attempts x texts start rounds
            (attempt + 1)
            (failure_of o)
            (if ltb attempt p.max_retries then slept + 2 ^ attempt else slept)
            (after_failure attempt p)
  unfolding attempts
  attempts-retry rounds attempt last slept p (answered _) e s = cc
  attempts-retry rounds attempt last slept p undecodable e s = cc
  attempts-retry rounds attempt last slept p (request_error m) e s = rw (e, attempts) refl
  attempts-retry rounds attempt last slept p (status_error c) e s = rw (e, attempts) (rw s refl)
