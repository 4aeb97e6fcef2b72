-- ===== src/Api/Payloads.antt =====
-- app/api/v1/translate.py: what its endpoints take and answer, and the row of app/models/usage.py
-- that they write.
use unitra_service_api.Common.{ℕ, Bool, ◌&&◌, List, length, leb}
use unitra_service_api.Common.Text.{Text}

pub record TranslateRequest : Type 0 where
  pub text : Text
  pub source_lang : Text
  pub target_lang : Text

-- The bounds of the fields, which FastAPI checks before it calls the endpoint.
unfoldable pub accepts : TranslateRequest → Bool
accepts request = leb 1 (length request.text) && leb (length request.text) 512

pub record TranslateResponse : Type 0 where
  pub translated_text : Text
  pub source_lang : Text
  pub target_lang : Text
  pub tokens_used : ℕ
  pub latency_ms : ℕ
  pub processing_mode : Text

pub record BatchTranslateRequest : Type 0 where
  pub texts : List Text
  pub source_lang : Text
  pub target_lang : Text

unfoldable pub accepts_batch : BatchTranslateRequest → Bool
accepts_batch request = leb 1 (length request.texts) && leb (length request.texts) 16

pub record BatchTranslateResponse : Type 0 where
  pub translations : List Text
  pub source_lang : Text
  pub target_lang : Text
  pub total_tokens : ℕ
  pub total_latency_ms : ℕ
  pub processing_mode : Text

pub record UsageResponse : Type 0 where
  pub tokens_used_this_week : ℕ
  pub tokens_limit : ℕ
  pub tokens_remaining : ℕ
  pub requests_per_minute_limit : ℕ

pub data ProcessingLocation : Type 0 where
  local cloud : ProcessingLocation

-- app/models/usage.py: a row without the columns that the database fills in.
pub record UsageLog : Type 0 where
  pub user_id : Text
  pub tokens_used : ℕ
  pub source_lang : Text
  pub target_lang : Text
  pub processing_location : ProcessingLocation
