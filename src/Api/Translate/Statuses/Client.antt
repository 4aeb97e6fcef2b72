-- ===== src/Api/Translate/Statuses/Client.antt =====
-- The statuses of the errors of `MTClient`.
use unitra_service_api.Common.{refl, inr, Option, none, some}
use unitra_service_api.Common.Text.{Text, codes}
use unitra_service_api.Errors.{AppException, status_code}
use unitra_service_api.Errors.Handlers.{Raised, handle, app_exception_handler}
use unitra_service_api.Batch.Http.{
  HttpOutcome, answered, status_error, request_error, undecodable, Reply,
}
use unitra_service_api.Api.Action.{Outcome, returned, raised}
use unitra_service_api.Api.Action.Errors.{ErrorIs}
use unitra_service_api.Api.MtClient as MtClient
use unitra_service_api.Api.MtClient.{
  mt_translate, mt_translate_batch, MtRequest, translation_result, batch_translation_result, member,
}
use unitra_service_api.Api.Translate.Statuses.Checks.{Answered, internal_error}

member-Answered : {A : Type 0} (k : Text) (o : Option A) → ErrorIs Answered (member k o)
member-Answered k none = internal_error _
member-Answered k (some a) = tt

ErrorIs-then :
    {A B : Type 0} (o : Outcome A) (f : A → Outcome B)
    → ErrorIs Answered o
    → ((a : A) → ErrorIs Answered (f a))
    → ErrorIs Answered (MtClient.◌>>=◌ o f)
ErrorIs-then (returned a) f h k = k a
ErrorIs-then (raised e) f h k = h

-- A key that is missing is an unexpected error.
then_member :
    {A B : Type 0} (key : Text) (o : Option A) (f : A → Outcome B)
    → ((a : A) → ErrorIs Answered (f a))
    → ErrorIs Answered (MtClient.◌>>=◌ (member key o) f)
then_member key o f k = ErrorIs-then (member key o) f (member-Answered key o) k

translation_result-Answered : (r : Reply) → ErrorIs Answered (translation_result r)
unfolding translation_result
translation_result-Answered r = then_member _ r.translation _ (λ a.
    then_member _ r.source_lang _ (λ b.
      then_member _ r.target_lang _
        (λ c. then_member _ r.tokens_used _ (λ d. then_member _ r.latency_ms _ (λ e. tt)))))

batch_translation_result-Answered : (r : Reply) → ErrorIs Answered (batch_translation_result r)
unfolding batch_translation_result
batch_translation_result-Answered r = then_member _ r.translations _ (λ a.
    then_member _ r.source_lang _ (λ b.
      then_member _ r.target_lang _
        (λ c. then_member _ r.total_tokens _ (λ d. then_member _ r.latency_ms _ (λ e. tt)))))

bad_gateway : (m : Text) → Answered (Raised.app (AppException.ml_service m))
unfolding handle app_exception_handler status_code
bad_gateway m = inr (inr (inr (inr refl)))

pub mt_translate-Answered : (o : HttpOutcome) → ErrorIs Answered (mt_translate o)
unfolding mt_translate
mt_translate-Answered (answered r) = translation_result-Answered r
mt_translate-Answered (status_error n) = bad_gateway _
mt_translate-Answered (request_error e) = bad_gateway _
mt_translate-Answered undecodable = internal_error (codes "JSONDecodeError")

pub mt_translate_batch-Answered : (o : HttpOutcome) → ErrorIs Answered (mt_translate_batch o)
unfolding mt_translate_batch
mt_translate_batch-Answered (answered r) = batch_translation_result-Answered r
mt_translate_batch-Answered (status_error n) = bad_gateway _
mt_translate_batch-Answered (request_error e) = bad_gateway _
mt_translate_batch-Answered undecodable = internal_error (codes "JSONDecodeError")
