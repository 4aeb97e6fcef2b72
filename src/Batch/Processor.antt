-- ===== src/Batch/Processor.antt =====
-- app/services/batch/processor.py: `BatchProcessor`, its retries and its counters. Times are in
-- microseconds, sleeps in tenths of a second.
pub mod Retries
pub mod Attempts
pub mod Outcome
pub mod Client
use unitra_service_api.Common.{
  ℕ, zero, suc, ◌+◌, ◌^◌, Bool, true, false, ◌&&◌, Option, none, some, List, [], ◌∷◌, leb, ltb,
  ◌==◌, if◌then◌else◌, length,
}
use unitra_service_api.Common.Int.{ℤ, pos, sub_ℕ, ◌+ℤ◌}
use unitra_service_api.Common.Text.{Text, codes}
use unitra_service_api.Batch.Http.{
  Reply, HttpOutcome, answered, status_error, request_error, undecodable,
}

-- `last_error`
pub data Failure : Type 0 where
  status_failure : ℕ → Failure
  request_failure : Text → Failure

-- The exceptions of the batch service.
pub data BatchException : Type 0 where
  -- `TranslationError(f"Translation failed: {status}", retryable=False)`
  client_error : ℕ → BatchException
  -- `TranslationError(f"Batch translation failed: {last_error}")`
  retries_exhausted : Option Failure → BatchException
  -- `KeyError` of a missing member of the reply
  key_error : Text → BatchException
  -- `JSONDecodeError`
  decode_error : BatchException
  -- `ValueError("Cannot process empty batch")`
  empty_batch : BatchException
  -- `ValueError` of `zip(..., strict=True)`
  length_mismatch : BatchException

-- `TranslationError.retryable`; `none` for another exception.
abbrev pub retryable : BatchException → Option Bool
retryable (BatchException.client_error _) = some false
retryable (BatchException.retries_exhausted _) = some true
retryable (BatchException.key_error _) = none
retryable BatchException.decode_error = none
retryable BatchException.empty_batch = none
retryable BatchException.length_mismatch = none

pub data Result {ℓ} (A : Type ℓ) : Type ℓ where
  ok : A → Result A
  err : BatchException → Result A

pub record BatchProcessor : Type 0 where
  pub max_retries : ℕ
  pub total_batches : ℕ
  pub total_requests : ℕ
  pub total_tokens : ℕ
  pub total_errors : ℕ
  pub total_retries : ℕ
  pub total_process_time : ℤ

-- `__init__`
unfoldable pub new_processor : ℕ → BatchProcessor
new_processor max_retries = record {
  max_retries = max_retries;
  total_batches = 0;
  total_requests = 0;
  total_tokens = 0;
  total_errors = 0;
  total_retries = 0;
  total_process_time = pos 0;
}

-- `reset_metrics`
unfoldable pub reset_metrics : BatchProcessor → BatchProcessor
reset_metrics p = record p {
  total_batches = 0;
  total_requests = 0;
  total_tokens = 0;
  total_errors = 0;
  total_retries = 0;
  total_process_time = pos 0;
}

-- The service on the other side of the posts of one call: the outcome of each attempt, and the
-- clock when it has arrived.
pub record Exchange : Type 0 where
  pub post : ℕ → HttpOutcome
  pub replied_at : ℕ → ℕ

-- A finished call: its result, the processor after it, the posts made and the time slept.
pub record Run : Type 0 where
  pub result : Result (List Text)
  pub processor : BatchProcessor
  pub posts : ℕ
  pub slept : ℕ

-- `d.get(key, 0)`
abbrev get_or_zero : Option ℕ → ℕ
get_or_zero none = 0
get_or_zero (some n) = n

-- `result.get("tokens_used", 0) or result.get("total_tokens", 0)`
unfoldable pub tokens_of : Reply → ℕ
tokens_of reply =
    if get_or_zero reply.tokens_used == 0
    then get_or_zero reply.total_tokens
    else get_or_zero reply.tokens_used

-- The translations of a reply: `result["translation"]` for one text, else `result["translations"]`.
unfoldable pub extract : List Text → Reply → Result (List Text)
extract (t ∷ []) reply = elim reply.translation [
  | none ↦ Result.err (BatchException.key_error (codes "translation"))
  | some translation ↦ Result.ok (translation ∷ [])
]
extract texts reply = elim reply.translations [
  | none ↦ Result.err (BatchException.key_error (codes "translations"))
  | some translations ↦ Result.ok translations
]

-- The counters after a reply, which are updated before the translations are read from it.
unfoldable pub count_reply : List Text → Reply → ℤ → BatchProcessor → BatchProcessor
unfolding tokens_of
count_reply texts reply process_time p = record p {
  total_batches = p.total_batches + 1;
  total_requests = p.total_requests + length texts;
  total_tokens = p.total_tokens + tokens_of reply;
  total_process_time = p.total_process_time +ℤ process_time;
}

unfoldable pub count_error : BatchProcessor → BatchProcessor
count_error p = record p { total_errors = p.total_errors + 1 }

unfoldable pub count_retry : BatchProcessor → BatchProcessor
count_retry p = record p { total_retries = p.total_retries + 1 }

abbrev pub is_client_error : ℕ → Bool
is_client_error status = leb 400 status && ltb status 500

module _ (x : Exchange) (texts : List Text) (start : ℕ) where
  -- The `for` loop, with the rounds left, the attempt, `last_error` and the time slept so far.
  -- A failed attempt is followed by a sleep and another one while attempts remain.
  unfoldable pub attempts : ℕ → ℕ → Option Failure → ℕ → BatchProcessor → Run
  unfolding count_reply extract count_error count_retry
  attempts zero attempt last slept p = record {
    result = Result.err (BatchException.retries_exhausted last);
    processor = p;
    posts = attempt;
    slept = slept;
  }
  attempts (suc rounds) attempt last slept p =
      let failed = count_error p in
      let again = ltb attempt p.max_retries in
      let retry = λ (e : Failure).
        attempts rounds (attempt + 1) (some e) (if again then slept + 2 ^ attempt else slept)
          (if again then count_retry failed else failed) in
      elim (x.post attempt) [
        | answered reply ↦ record {
          result = extract texts reply;
          processor = count_reply texts reply (sub_ℕ (x.replied_at attempt) start) p;
          posts = attempt + 1;
          slept = slept;
        }
        | undecodable ↦ record {
          result = Result.err BatchException.decode_error;
          processor = p;
          posts = attempt + 1;
          slept = slept;
        }
        | status_error status ↦
            if is_client_error status
            then record {
              result = Result.err (BatchException.client_error status);
              processor = failed;
              posts = attempt + 1;
              slept = slept;
            }
            else retry (Failure.status_failure status)
        | request_error message ↦ retry (Failure.request_failure message)
      ]

-- `translate_batch`. Languages go into the payload alone, which the exchange stands for.
unfoldable pub translate_batch : Exchange → List Text → ℕ → BatchProcessor → Run
unfolding attempts
translate_batch x [] start p = record { result = Result.ok []; processor = p; posts = 0; slept = 0 }
translate_batch x (t ∷ texts) start p = attempts x (t ∷ texts) start (suc p.max_retries) 0 none 0 p
