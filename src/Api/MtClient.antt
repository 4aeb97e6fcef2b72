-- ===== src/Api/MtClient.antt =====
-- app/services/mt_client.py: what `MTClient` makes of a reply of the translation service.
pub mod Health
pub mod Connection
use unitra_service_api.Common.{ℕ, Option, none, some, List, ◌++◌}
use unitra_service_api.Common.Text.{Text, codes}
use unitra_service_api.Common.Str.{str}
use unitra_service_api.Batch.Http.{
  Reply, HttpOutcome, answered, status_error, request_error, undecodable,
}
use unitra_service_api.Errors.{AppException}
use unitra_service_api.Errors.Handlers.{Raised}
use unitra_service_api.Api.Action.{Outcome, returned, raised}

-- Latencies are in microseconds.
pub record TranslationResult : Type 0 where
  pub translation : Text
  pub source_lang : Text
  pub target_lang : Text
  pub tokens_used : ℕ
  pub latency_ms : ℕ
  pub processing_mode : Text

pub record BatchTranslationResult : Type 0 where
  pub translations : List Text
  pub source_lang : Text
  pub target_lang : Text
  pub total_tokens : ℕ
  pub latency_ms : ℕ
  pub processing_mode : Text

-- A post to `/translate`: a text or a list of texts, and the languages.
pub data MtRequest : Type 0 where
  one : Text → Text → Text → MtRequest
  many : List Text → Text → Text → MtRequest

-- `data[key]`
abbrev pub member : {A : Type 0} → Text → Option A → Outcome A
member key none = raised (Raised.unexpected (codes "KeyError: " ++ key))
member key (some a) = returned a

-- `data.get(key, default)`
abbrev get_or : {A : Type 0} → A → Option A → A
get_or d none = d
get_or d (some a) = a

infixl 5 ◌>>=◌
abbrev pub ◌>>=◌ : {A B : Type 0} → Outcome A → (A → Outcome B) → Outcome B
returned a >>= f = f a
raised e >>= f = raised e

unfoldable pub translation_result : Reply → Outcome TranslationResult
translation_result data_ = do
  translation ← member (codes "translation") data_.translation
  source_lang ← member (codes "source_lang") data_.source_lang
  target_lang ← member (codes "target_lang") data_.target_lang
  tokens_used ← member (codes "tokens_used") data_.tokens_used
  latency_ms ← member (codes "latency_ms") data_.latency_ms
  returned (record {
    translation = translation;
    source_lang = source_lang;
    target_lang = target_lang;
    tokens_used = tokens_used;
    latency_ms = latency_ms;
    processing_mode = get_or (codes "cloud") data_.processing_mode;
  })

unfoldable pub batch_translation_result : Reply → Outcome BatchTranslationResult
batch_translation_result data_ = do
  translations ← member (codes "translations") data_.translations
  source_lang ← member (codes "source_lang") data_.source_lang
  target_lang ← member (codes "target_lang") data_.target_lang
  total_tokens ← member (codes "total_tokens") data_.total_tokens
  latency_ms ← member (codes "latency_ms") data_.latency_ms
  returned (record {
    translations = translations;
    source_lang = source_lang;
    target_lang = target_lang;
    total_tokens = total_tokens;
    latency_ms = latency_ms;
    processing_mode = get_or (codes "cloud") data_.processing_mode;
  })

abbrev pub ml_service_error : {A : Type 0} → Text → Outcome A
ml_service_error m = raised (Raised.app (AppException.ml_service m))

-- `MTClient.translate`, of the outcome of its post.
unfoldable pub mt_translate : HttpOutcome → Outcome TranslationResult
unfolding translation_result str
mt_translate (answered reply) = translation_result reply
mt_translate (status_error status) =
    ml_service_error (codes "Translation failed with status " ++ str status)
mt_translate (request_error e) = ml_service_error (codes "Translation request failed: " ++ e)
mt_translate undecodable = raised (Raised.unexpected (codes "JSONDecodeError"))

-- `MTClient.translate_batch`, of the outcome of its post.
unfoldable pub mt_translate_batch : HttpOutcome → Outcome BatchTranslationResult
unfolding batch_translation_result str
mt_translate_batch (answered reply) = batch_translation_result reply
mt_translate_batch (status_error status) =
    ml_service_error (codes "Batch translation failed with status " ++ str status)
mt_translate_batch (request_error e) =
    ml_service_error (codes "Batch translation request failed: " ++ e)
mt_translate_batch undecodable = raised (Raised.unexpected (codes "JSONDecodeError"))
