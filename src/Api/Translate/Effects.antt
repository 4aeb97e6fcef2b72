-- ===== src/Api/Translate/Effects.antt =====
-- What a call of each translation endpoint does, on every branch.
use unitra_service_api.Common.{◌≡◌, refl, false, ltb, inl, inr, length, if◌then◌else◌, Bool-cases}
use unitra_service_api.Common.Text.{Text, codes}
use unitra_service_api.Redis.Server.{RedisServer}
use unitra_service_api.Api.Action.{Outcome, returned, raised}
use unitra_service_api.Api.MtClient.{
  MtRequest, TranslationResult, BatchTranslationResult, mt_translate, mt_translate_batch,
}
use unitra_service_api.Api.Translate.{
  User, World, Surroundings, TranslateRequest, TranslateResponse, BatchTranslateRequest,
  BatchTranslateResponse, languages, check_texts, invalid_language, estimate, estimate_batch,
  translate, translate_batch,
}
use unitra_service_api.Api.Translate.Served.{Served, served, served_effect}

abbrev pub respond : TranslationResult → Text → Text → TranslateResponse
respond result source_lang target_lang = record {
  translated_text = result.translation;
  source_lang = source_lang;
  target_lang = target_lang;
  tokens_used = result.tokens_used;
  latency_ms = result.latency_ms;
  processing_mode = result.processing_mode;
}

abbrev pub respond_batch : BatchTranslationResult → Text → Text → BatchTranslateResponse
respond_batch result source_lang target_lang = record {
  translations = result.translations;
  source_lang = source_lang;
  target_lang = target_lang;
  total_tokens = result.total_tokens;
  total_latency_ms = result.latency_ms;
  processing_mode = result.processing_mode;
}

-- All that a batch request is checked for before its user is.
abbrev pub batch_languages : Surroundings → BatchTranslateRequest → Outcome (Text × Text)
batch_languages env request =
    if ltb 16 (length request.texts)
    then raised (invalid_language (codes "Maximum 16 texts per batch"))
    else elim (check_texts 0 request.texts) [
      | raised e ↦ raised e
      | returned _ ↦ languages env.lowering request.source_lang request.target_lang
    ]

module _ (R : RedisServer) (env : Surroundings) (user : User) where
  abbrev pub TranslateServed :
      TranslateRequest → World R → Outcome TranslateResponse × World R → Type 0
  TranslateServed request =
      Served R env user (languages env.lowering request.source_lang request.target_lang)
        (estimate request.text) mt_translate (MtRequest.one request.text) (λ r. r.tokens_used)
        respond

  abbrev pub BatchServed :
      BatchTranslateRequest → World R → Outcome BatchTranslateResponse × World R → Type 0
  BatchServed request =
      Served R env user (batch_languages env request) (estimate_batch request.texts)
        mt_translate_batch (MtRequest.many request.texts) (λ r. r.total_tokens) respond_batch

  -- `translate` answers only if it accepts the languages, the tier has cloud translation and the
  -- week has room for the estimate. It then has posted once, and the tokens that the service reports
  -- are counted in Redis and logged once. If it raises, it logs nothing, has posted at most once and
  -- only for a user with room, and counts nothing, unless the commit failed.
  pub translate_effect :
      (request : TranslateRequest) (w : World R)
      → TranslateServed request w (translate R env request user w)
  unfolding translate
  translate_effect request w =
      served_effect R env user (languages env.lowering request.source_lang request.target_lang)
        (estimate request.text) mt_translate (MtRequest.one request.text) (λ r. r.tokens_used)
        respond _ refl w

  abbrev pub batch_served :
      BatchTranslateRequest → World R → Outcome BatchTranslateResponse × World R
  batch_served request =
      served R env user (batch_languages env request) (estimate_batch request.texts)
        mt_translate_batch (MtRequest.many request.texts) (λ r. r.total_tokens) respond_batch

  batch_served_checked :
      (request : BatchTranslateRequest) (w : World R)
      → ltb 16 (length request.texts) ≡ false
      → (o : Outcome Unit) → check_texts 0 request.texts ≡ o
      → translate_batch R env request user w ≡ batch_served request w
  unfolding translate_batch
  batch_served_checked request w few (returned _) e = rw few (rw e refl)
  batch_served_checked request w few (raised x) e = rw few (rw e refl)

  pub translate_batch_served :
      (request : BatchTranslateRequest) (w : World R)
      → translate_batch R env request user w ≡ batch_served request w
  unfolding translate_batch
  translate_batch_served request w = elim (Bool-cases (ltb 16 (length request.texts))) [
    | inl many ↦ rw many refl
    | inr few ↦ batch_served_checked request w few _ refl
  ]

  -- The same for `translate_batch`, which answers only if it accepts the number of texts and each
  -- text as well: it answers only for a tier with cloud translation and a week with room for the
  -- estimate, posts once, and counts and logs the total tokens that the service reports. If it
  -- raises, it logs nothing, has posted at most once and only for a user with room, and counts
  -- nothing, unless the commit failed.
  pub translate_batch_effect :
      (request : BatchTranslateRequest) (w : World R)
      → BatchServed request w (translate_batch R env request user w)
  translate_batch_effect request w = rw (translate_batch_served request w) (
      served_effect R env user (batch_languages env request) (estimate_batch request.texts)
        mt_translate_batch (MtRequest.many request.texts) (λ r. r.total_tokens) respond_batch _ refl
        w)
