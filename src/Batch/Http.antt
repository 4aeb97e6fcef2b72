-- ===== src/Batch/Http.antt =====
-- What the program gets from httpx when it posts to the machine translation service and calls
-- `raise_for_status` and `json` on the response. httpx and the service are not in the repository:
-- an exchange with them is a parameter, this type lists its outcomes.
use unitra_service_api.Common.{ℕ, Option, List}
use unitra_service_api.Common.Text.{Text}

-- The members that the program reads from the JSON object of a reply; `none` for a missing key.
-- Latencies are in microseconds.
pub record Reply : Type 0 where
  pub translation : Option Text
  pub translations : Option (List Text)
  pub source_lang : Option Text
  pub target_lang : Option Text
  pub tokens_used : Option ℕ
  pub total_tokens : Option ℕ
  pub latency_ms : Option ℕ
  pub processing_mode : Option Text

pub data HttpOutcome : Type 0 where
  -- a success status and a JSON object
  answered : Reply → HttpOutcome
  -- `httpx.HTTPStatusError` with the status code
  status_error : ℕ → HttpOutcome
  -- `httpx.RequestError`: connection failures and timeouts
  request_error : Text → HttpOutcome
  -- a success status, and a body that `json` cannot decode
  undecodable : HttpOutcome
