-- ===== src/Batch/Process.antt =====
-- app/services/batch/batcher.py: `SmartBatcher` from `process_batch` on. The futures of the
-- requests are a store that requests point into; what a task reads and writes in it between two
-- awaits is one step. Times are in microseconds.
pub mod Settling
pub mod Delivery
pub mod Others
use unitra_service_api.Common.{
  ℕ, ◌+◌, Bool, true, false, Option, none, some, List, [], ◌∷◌, ◌==◌, if◌then◌else◌, length, map,
}
use unitra_service_api.Common.Int.{ℤ, pos, sub_ℕ, ◌+ℤ◌}
use unitra_service_api.Common.Text.{Text}
use unitra_service_api.Batch.Config.{UserTier}
use unitra_service_api.Batch.Request.{TranslationRequest}
use unitra_service_api.Batch.Queue.{TranslationQueue, Heap, same_tier}
use unitra_service_api.Batch.Collect.{FirstWait, Tick, collect_batch}
use unitra_service_api.Batch.Processor.{
  BatchException, Result, BatchProcessor, Exchange, translate_batch,
}

pub record BatchResult : Type 0 where
  pub requests : List TranslationRequest
  pub translations : List Text
  pub batch_size : ℕ
  pub collect_time : ℤ
  pub process_time : ℤ
  pub total_time : ℤ
  pub tier_breakdown : List (UserTier × ℕ)

-- The dictionary that a waiting `translate` receives.
pub record Response : Type 0 where
  pub translation : Text
  pub source_lang : Text
  pub target_lang : Text
  pub latency : ℤ
  pub batch_size : ℕ
  pub request_id : Text

pub data Future : Type 0 where
  pending : Future
  result : Response → Future
  exception : BatchException → Future
  -- by a `wait_for` that timed out
  cancelled : Future

abbrev pub is_done : Future → Bool
is_done Future.pending = false
is_done _ = true

abbrev pub Futures : Type 0
Futures = ℕ → Future

-- `if not request.future.done(): request.future.set_…`
unfoldable pub settle : ℕ → Future → Futures → Futures
settle a value futures b =
    if a == b then if is_done (futures b) then futures b else value else futures b

pub record SmartBatcher : Type 0 where
  pub queue : TranslationQueue
  pub processor : BatchProcessor
  pub adaptive_sizing : Bool
  pub batches_processed : ℕ
  pub total_requests_processed : ℕ
  -- a fraction: `_total_requests_processed / _batches_processed`
  pub avg_batch_size : ℕ × ℕ
  pub total_collect_time : ℤ
  pub total_process_time : ℤ

-- `__init__`
unfoldable pub new_batcher : TranslationQueue → BatchProcessor → Bool → SmartBatcher
new_batcher queue processor adaptive_sizing = record {
  queue = queue;
  processor = processor;
  adaptive_sizing = adaptive_sizing;
  batches_processed = 0;
  total_requests_processed = 0;
  avg_batch_size = (0, 1);
  total_collect_time = pos 0;
  total_process_time = pos 0;
}

unfoldable pub reset_metrics : SmartBatcher → SmartBatcher
reset_metrics b = record b {
  batches_processed = 0;
  total_requests_processed = 0;
  avg_batch_size = (0, 1);
  total_collect_time = pos 0;
  total_process_time = pos 0;
}

-- `d[tier] = d.get(tier, 0) + 1`, on a dict in insertion order
unfoldable pub count_in : UserTier → List (UserTier × ℕ) → List (UserTier × ℕ)
count_in t [] = (t, 1) ∷ []
count_in t ((u, n) ∷ d) = if same_tier t u then (u, n + 1) ∷ d else (u, n) ∷ count_in t d

unfoldable pub breakdown : List (UserTier × ℕ) → List TranslationRequest → List (UserTier × ℕ)
unfolding count_in
breakdown d [] = d
breakdown d (r ∷ rs) = breakdown (count_in r.tier d) rs

-- The clocks that one processing reads, and the exchange that its call of the processor has.
pub record Timing : Type 0 where
  pub collect_end : ℕ
  pub process_start : ℕ
  pub call_start : ℕ
  pub process_end : ℕ
  pub exchange : Exchange

-- the metrics after a processed batch
unfoldable pub count_batch : BatchResult → SmartBatcher → SmartBatcher
count_batch r b = record b {
  batches_processed = b.batches_processed + 1;
  total_requests_processed = b.total_requests_processed + r.batch_size;
  avg_batch_size = (b.total_requests_processed + r.batch_size, b.batches_processed + 1);
  total_collect_time = b.total_collect_time +ℤ r.collect_time;
  total_process_time = b.total_process_time +ℤ r.process_time;
}

unfoldable pub process_batch :
    Timing → List TranslationRequest → SmartBatcher → Result BatchResult × SmartBatcher
unfolding breakdown count_batch
process_batch t [] b = (Result.err BatchException.empty_batch, b)
process_batch t (first ∷ rest) b =
    let batch = first ∷ rest in
    let run = translate_batch t.exchange (map (λ r. r.text) batch) t.call_start b.processor in
    let b' = record b { processor = run.processor } in
    elim run.result [
      | Result.err e ↦ (Result.err e, b')
      | Result.ok translations ↦
          let r : BatchResult = record {
            requests = batch;
            translations = translations;
            batch_size = length batch;
            collect_time = sub_ℕ t.collect_end first.timestamp;
            process_time = sub_ℕ t.process_end t.process_start;
            total_time = sub_ℕ t.process_end first.timestamp;
            tier_breakdown = breakdown [] batch;
          } in
          (Result.ok r, count_batch r b')
    ]

abbrev pub response : BatchResult → TranslationRequest → Text → Response
response r request translation = record {
  translation = translation;
  source_lang = request.source_lang;
  target_lang = request.target_lang;
  latency = r.total_time;
  batch_size = r.batch_size;
  request_id = request.request_id;
}

-- The `zip(..., strict=True)` loop over what is left of both lists; `false` if it raises.
unfoldable pub distribute :
    BatchResult → List TranslationRequest → List Text → Futures → Bool × Futures
distribute r [] [] futures = (true, futures)
distribute r [] (t ∷ ts) futures = (false, futures)
distribute r (q ∷ qs) [] futures = (false, futures)
distribute r (q ∷ qs) (t ∷ ts) futures =
    distribute r qs ts (settle q.future (Future.result (response r q t)) futures)

-- The loop of the exception handler.
unfoldable pub fail_all : BatchException → List TranslationRequest → Futures → Futures
fail_all e [] futures = futures
fail_all e (q ∷ qs) futures = fail_all e qs (settle q.future (Future.exception e) futures)

-- What follows `process_batch`, with its exception handler: the outcome and the futures.
unfoldable pub finish :
    List TranslationRequest → Result BatchResult → Futures → Result (Option BatchResult) × Futures
unfolding distribute fail_all
finish batch (Result.err e) futures = (Result.err e, fail_all e batch futures)
finish batch (Result.ok r) futures =
    let (complete, futures') = distribute r r.requests r.translations futures in
    if complete then (Result.ok (some r), futures') else (
      Result.err BatchException.length_mismatch,
      fail_all BatchException.length_mismatch batch futures',
    )

-- `collect_and_process` once the collection has ended.
unfoldable pub process_collected :
    Timing
    → List TranslationRequest
    → SmartBatcher
    → Futures
    → Result (Option BatchResult) × SmartBatcher × Futures
unfolding process_batch finish
process_collected t [] b futures = (Result.ok none, b, futures)
process_collected t (first ∷ rest) b futures =
    let (processed, b') = process_batch t (first ∷ rest) b in
    let (outcome, futures') = finish (first ∷ rest) processed futures in (outcome, b', futures')

module _ ⦃H : Heap⦄ where
  -- `collect_and_process`; `none` while the collection goes on. `others` is what other tasks do to
  -- the futures up to the time that the results are handed out: submitters add and cancel some. The
  -- queue of the new state is the one that the collection left.
  unfoldable pub collect_and_process :
      FirstWait
      → List Tick
      → Timing
      → (Futures → Futures)
      → SmartBatcher
      → Futures
      → Option (Result (Option BatchResult) × SmartBatcher × Futures)
  unfolding process_collected
  collect_and_process w ts t others b futures =
      elim (collect_batch b.adaptive_sizing w ts b.queue) [
        | none ↦ none
        | some (batch, q) ↦
            some (process_collected t batch (record b { queue = q }) (others futures))
      ]
