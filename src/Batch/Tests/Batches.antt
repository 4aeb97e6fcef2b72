-- ===== src/Batch/Tests/Batches.antt =====
-- Runs of the collection, the processor and the delivery on small inputs.
use unitra_service_api.Common.{
  ℕ, zero, suc, ◌+◌, ◌<◌, ◌≡◌, refl, true, false, Option, none, some, List, [], ◌∷◌, ◌⊎◌, arith,
  get_elem?,
}
use unitra_service_api.Common.Int.{pos, neg_ℤ, ◌+ℤ◌, ◌*ℕ◌, ◌-ℤ◌}
use unitra_service_api.Common.Text.{Text, codes, text_eq}
use unitra_service_api.Batch.Config.{tier_configs}
use unitra_service_api.Batch.Request.{TranslationRequest, get_priority}
use unitra_service_api.Batch.Queue.{TranslationQueue, new_queue, put, get}
use unitra_service_api.Batch.Tests.{heapq, slow, quick, both}
use unitra_service_api.Batch.Http.{HttpOutcome, Reply, answered, status_error, request_error}
use unitra_service_api.Batch.Collect.{FirstWait, Tick, collect_batch}
use unitra_service_api.Batch.Collect.Shape.{IsBatch, collect_batch_shape}
use unitra_service_api.Batch.Collect.Deadline.{Ends, collect_batch-Ends}
use unitra_service_api.Batch.Processor.{
  Exchange, BatchProcessor, Result, BatchException, new_processor, translate_batch, retryable,
}
use unitra_service_api.Batch.Processor.Attempts.{
  settles, verdict, is_status_error, is_answered, failure_of,
}
use unitra_service_api.Batch.Processor.Outcome.{translate_batch_settled, translate_batch_exhausted}
use unitra_service_api.Batch.Process.{
  BatchResult, Future, Futures, SmartBatcher, Timing, new_batcher, process_collected, response,
}
use unitra_service_api.Batch.Process.Delivery.{
  AllDone, process_collected-AllDone, process_collected_delivers,
}

-- A batch of the two requests: one round takes the second, the next finds the time up.
abbrev first_wait : FirstWait
first_wait = record { wakes = []; now = 1000000; start = 1000000 }

abbrev pub tick_at : ℕ → Tick
tick_at now = record {
  checked_at = now;
  peeked_at = now;
  compared_at = now;
  wakes = [];
  got_at = now;
  put_at = now;
  others = λ q. q;
}

abbrev ticks : List Tick
ticks = tick_at 1000000 ∷ tick_at 2000000 ∷ []

abbrev rest : TranslationQueue
rest = elim (collect_batch true first_wait ticks both) [ none ↦ both | some (_, q) ↦ q ]

collected : collect_batch true first_wait ticks both ≡ some (quick ∷ slow ∷ [], rest)
unfolding collect_batch get put new_queue get_priority neg_ℤ ◌+ℤ◌ ◌*ℕ◌ ◌-ℤ◌ text_eq
collected = refl

collect_batch_shape_example :
    ((quick ∷ slow ∷ []) ≡ [])
    ⊎ ((first : TranslationRequest) × IsBatch first
          (tier_configs first.tier).max_batch_size
          (quick ∷ slow ∷ []))
collect_batch_shape_example =
    collect_batch_shape true first_wait ticks both rest (quick ∷ slow ∷ []) collected

collect_batch-Ends_example : Ends (collect_batch true first_wait ticks both)
collect_batch-Ends_example =
    collect_batch-Ends true first_wait ticks both 1 (tick_at 2000000) refl (omega arith)

-- A service that fails once and then answers.
abbrev pub reply : Reply
reply = record {
  translation = some (codes "hallo");
  translations = some (codes "hallo" ∷ codes "welt" ∷ []);
  source_lang = some (codes "en");
  target_lang = some (codes "de");
  tokens_used = some 7;
  total_tokens = none;
  latency_ms = some 1;
  processing_mode = none;
}

abbrev fails_first : ℕ → HttpOutcome
fails_first zero = status_error 503
fails_first (suc _) = answered reply

abbrev recovering : Exchange
recovering = record { post = fails_first; replied_at = λ n. n }

abbrev down : Exchange
down = record { post = λ _. request_error (codes "timeout"); replied_at = λ n. n }

abbrev processor : BatchProcessor
processor = new_processor 3

abbrev texts : List Text
texts = codes "hello" ∷ []

fails_before : (i : ℕ) → i < 1 → settles (fails_first i) ≡ false
fails_before zero h = ground arith
fails_before (suc i) h = absurd (omega arith)

translate_batch_settled_example :
    let r = translate_batch recovering texts 0 processor in
    (r.result ≡ verdict texts (answered reply))
    × (r.posts ≡ 2)
    × (r.processor.total_retries ≡ processor.total_retries + 1)
    × (r.processor.total_errors ≡ processor.total_errors + 1 + is_status_error (answered reply))
    × (r.processor.total_batches ≡ processor.total_batches + is_answered (answered reply))
unfolding new_processor
translate_batch_settled_example =
    translate_batch_settled recovering (codes "hello") [] 0 processor 1 (omega arith) fails_before
      refl

translate_batch_exhausted_example :
    let r = translate_batch down texts 0 processor in
    let e = BatchException.retries_exhausted (failure_of (down.post processor.max_retries)) in
    (r.result ≡ Result.err e)
    × (retryable e ≡ some true)
    × (r.posts ≡ processor.max_retries + 1)
    × (r.processor.total_retries ≡ processor.total_retries + processor.max_retries)
    × (r.processor.total_errors ≡ processor.total_errors + processor.max_retries + 1)
    × (r.processor.total_batches ≡ processor.total_batches)
translate_batch_exhausted_example =
    translate_batch_exhausted down (codes "hello") [] 0 processor (λ i h. refl)

-- The batch of both requests, answered, while the second submitter has given up.
abbrev timing : Timing
timing = record {
  collect_end = 2000000;
  process_start = 2000000;
  call_start = 2000000;
  process_end = 2100000;
  exchange = recovering;
}

abbrev batcher : SmartBatcher
batcher = new_batcher rest processor true

abbrev futures : Futures
futures zero = Future.cancelled
futures (suc _) = Future.pending

abbrev batch : List TranslationRequest
batch = quick ∷ slow ∷ []

process_collected-AllDone_example : AllDone batch (process_collected timing batch batcher futures).2
process_collected-AllDone_example = process_collected-AllDone timing batch batcher futures

abbrev outcome_of : Result (Option BatchResult) → BatchResult → BatchResult
outcome_of (Result.ok (some r)) d = r
outcome_of _ d = d

abbrev no_batch : BatchResult
no_batch = record {
  requests = [];
  translations = [];
  batch_size = 0;
  collect_time = pos 0;
  process_time = pos 0;
  total_time = pos 0;
  tier_breakdown = [];
}

abbrev processed : BatchResult
processed = outcome_of (process_collected timing batch batcher futures).0 no_batch

processing_succeeds :
    (process_collected timing batch batcher futures).0 ≡ Result.ok (some processed)
unfolding process_collected translate_batch new_batcher new_processor
processing_succeeds = refl

given : get_elem? processed.translations 0 ≡ some (codes "hallo")
unfolding process_collected translate_batch new_batcher new_processor
given = refl

process_collected_delivers_example :
    (process_collected timing batch batcher futures).2 1
    ≡ Future.result (response processed quick (codes "hallo"))
process_collected_delivers_example =
    process_collected_delivers timing batch batcher futures processed 0 quick (codes "hallo")
      ((λ e. omega arith, tt), (tt, tt)) processing_succeeds refl given refl
