-- ===== src/Batch/Service.antt =====
-- app/services/batch/__init__.py, `BatchTranslationService`: what each method does to the service
-- between two awaits. The worker tasks are values that say where in `_worker_loop` they wait; their
-- steps are in the child Steps.
pub mod Steps
pub mod Places
pub mod Workers
pub mod Evolution
pub mod Invariant
pub mod Cancelled
pub mod Submit
pub mod Collection
pub mod Progress
pub mod Report
use unitra_service_api.Common.{
  ℕ, zero, suc, ◌+◌, Bool, true, false, Option, none, some, List, [], ◌∷◌, ◌++◌, if◌then◌else◌,
}
use unitra_service_api.Common.Text.{Text}
use unitra_service_api.Batch.Config.{UserTier, tier_from_lower}
use unitra_service_api.Batch.Request.{TranslationRequest, default_boost}
use unitra_service_api.Batch.Queue.{TranslationQueue, Heap, new_queue, put, qsize}
use unitra_service_api.Batch.Collect.{Tick}
use unitra_service_api.Batch.Processor.{BatchException, BatchProcessor, new_processor}
use unitra_service_api.Batch.Process.{
  BatchResult, Response, Future, Futures, SmartBatcher, new_batcher, settle,
}
use unitra_service_api.Batch.Metrics.{
  BatchMetricsCollector, new_collector, record_request, record_batch,
}

-- Where a worker waits or is about to go on.
pub data Task : Type 0 where
  -- before the test of `while self._running`
  ready : Task
  -- in the `get` for the first request of a batch
  waiting_first : Task
  -- at the head of the loop of `collect_batch`: the first request, its start time, `effective_max`
  -- and the batch
  collecting : TranslationRequest → ℕ → ℕ → List TranslationRequest → Task
  -- in the `get` of that loop, with the clocks of the round
  getting : TranslationRequest → ℕ → ℕ → List TranslationRequest → Tick → Task
  -- in the call of the processor
  processing : List TranslationRequest → Task
  -- in the pause after an exception
  pausing : Task
  finished : Task

-- `queue` and `processor` are the batcher's.
pub record BatchTranslationService : Type 0 where
  pub num_workers : ℕ
  pub batcher : SmartBatcher
  pub metrics : BatchMetricsCollector
  pub workers : List Task
  pub running : Bool
  pub shutdown_event : Bool

-- `__init__`, with the window of the collector.
unfoldable pub new_service : ℕ → ℕ → ℕ → BatchTranslationService
new_service num_workers max_retries window = record {
  num_workers = num_workers;
  batcher = new_batcher (new_queue default_boost) (new_processor max_retries) true;
  metrics = new_collector window;
  workers = [];
  running = false;
  shutdown_event = false;
}

-- the loop of `start`
unfoldable pub create_tasks : ℕ → List Task → List Task
create_tasks zero workers = workers
create_tasks (suc n) workers = create_tasks n (workers ++ Task.ready ∷ [])

unfoldable pub start : BatchTranslationService → BatchTranslationService
start s = if s.running then s else record s {
  running = true;
  shutdown_event = false;
  workers = create_tasks s.num_workers s.workers;
}

-- `stop` up to its wait for the workers.
unfoldable pub stop : BatchTranslationService → BatchTranslationService
stop s = if s.running then record s { running = false; shutdown_event = true } else s

-- `self._workers.clear()`, after that wait. Workers that were cancelled are gone with what they
-- held.
unfoldable pub clear_workers : BatchTranslationService → BatchTranslationService
clear_workers s = record s { workers = [] }

-- The test of the worker's loop.
unfoldable pub next_test : BatchTranslationService → Task
next_test s = if s.running then Task.waiting_first else Task.finished

-- The loop over the requests of a result; the i-th reads the clock as `clock i`.
unfoldable pub record_requests :
    (ℕ → ℕ)
    → BatchResult
    → ℕ
    → List TranslationRequest
    → BatchMetricsCollector
    → BatchMetricsCollector
record_requests clock r depth [] c = c
record_requests clock r depth (q ∷ qs) c =
    record_requests (λ i. clock (suc i)) r depth qs
      (record_request
        (record {
          tier = q.tier;
          latency = r.total_time;
          batch_size = r.batch_size;
          queue_depth = depth;
          now = clock 0;
        })
        c)

-- What a worker does with the result of `collect_and_process`.
unfoldable pub record_result :
    (ℕ → ℕ) → BatchResult → BatchTranslationService → BatchTranslationService
unfolding record_requests qsize
record_result clock r s = record s {
  metrics = record_batch (record_requests clock r (qsize s.batcher.queue) r.requests s.metrics);
}

-- The `tier` argument of `translate`: a member of the enum, or a string, given lowered.
pub data TierArgument : Type 0 where
  member : UserTier → TierArgument
  lowered : Text → TierArgument

unfoldable pub normalize_tier : TierArgument → UserTier
normalize_tier (TierArgument.member tier) = tier
normalize_tier (TierArgument.lowered s) = tier_from_lower s

-- The arguments of a call of `translate`, the new request's id and the clocks read for it.
pub record Submission : Type 0 where
  pub text : Text
  pub source_lang : Text
  pub target_lang : Text
  pub user_id : Text
  pub tier : TierArgument
  pub request_id : Text
  pub created_at : ℕ
  pub put_at : ℕ

abbrev pub request_of : Submission → ℕ → TranslationRequest
request_of c future = record {
  text = c.text;
  source_lang = c.source_lang;
  target_lang = c.target_lang;
  user_id = c.user_id;
  tier = normalize_tier c.tier;
  request_id = c.request_id;
  timestamp = c.created_at;
  future = future;
}

abbrev pub with_queue : TranslationQueue → BatchTranslationService → BatchTranslationService
with_queue q s = record s { batcher = record s.batcher { queue = q } }

-- The service, the futures that were made, and the address of the next one.
pub record System : Type 0 where
  pub service : BatchTranslationService
  pub futures : Futures
  pub next : ℕ

-- The further submissions of a `translate_batch` after one of them.
abbrev pub after_submit :
    (System → Bool × List ℕ × System) → Option ℕ × System → Bool × List ℕ × System
after_submit rest (none, s) = (false, [], s)
after_submit rest (some a, s) = let (complete, made, s') = rest s in (complete, a ∷ made, s')

module _ ⦃H : Heap⦄ where
  -- The new request with its future, in the queue.
  unfoldable pub accept : Submission → System → System
  accept c s =
      let q = put c.put_at (request_of c s.next) s.service.batcher.queue in
      record s { service = with_queue q s.service; next = s.next + 1 }

  -- `translate` up to its wait: the address of the request's future, or `none` for the RuntimeError
  -- of a service that is not running.
  unfoldable pub submit : Submission → System → Option ℕ × System
  submit c s = if s.service.running then (some s.next, accept c s) else (none, s)

  -- The submissions of `translate_batch`, in the order in which `gather` starts them; `false` if
  -- one raises.
  unfoldable pub submit_all : List Submission → System → Bool × List ℕ × System
  submit_all [] s = (true, [], s)
  submit_all (c ∷ cs) s = after_submit (submit_all cs) (submit c s)

-- What `translate` returns or raises when its wait is over.
pub data Answer : Type 0 where
  returned : Response → Answer
  raised : BatchException → Answer
  timed_out : Answer

-- What the end of the wait makes of the future's state.
abbrev pub awaited : ℕ → Future → Futures → Answer × Futures
awaited a Future.pending futures = (Answer.timed_out, settle a Future.cancelled futures)
awaited a (Future.result r) futures = (Answer.returned r, futures)
awaited a (Future.exception e) futures = (Answer.raised e, futures)
awaited a Future.cancelled futures = (Answer.timed_out, futures)

-- The wait of `translate`: the future's outcome, or the timeout, which cancels the future.
unfoldable pub await_future : ℕ → Futures → Answer × Futures
await_future a futures = awaited a (futures a) futures
