-- ===== src/Batch/Service/Report.antt =====
-- What `BatchTranslationService` reports about itself, its reset, and the module's singleton.
-- Averages are fractions, without the rounding for display.
use unitra_service_api.Common.{
  ℕ, suc, ◌≡◌, refl, Bool, true, false, ◌&&◌, Option, none, some, List, [], ◌∷◌, ltb, if◌then◌else◌,
}
use unitra_service_api.Common.Int.{ℤ, pos}
use unitra_service_api.Common.Text.{Text, codes, text_eq}
use unitra_service_api.Batch.Queue.{QueueMetrics, qsize}
use unitra_service_api.Batch.Queue as Queue
use unitra_service_api.Batch.Process as Process
use unitra_service_api.Batch.Process.{SmartBatcher}
use unitra_service_api.Batch.Processor.{BatchProcessor}
use unitra_service_api.Batch.Processor as Processor
use unitra_service_api.Batch.Metrics.{reset}
use unitra_service_api.Batch.Metrics.Stats.{SlaStatus}
use unitra_service_api.Batch.Metrics.Summary.{Summary, check_sla, get_summary}
use unitra_service_api.Batch.Service.{
  Task, BatchTranslationService, new_service, start, stop, clear_workers,
}

-- The average of a total, or 0 of nothing.
abbrev average : ℤ → ℕ → ℤ × ℕ
average total n = if ltb 0 n then (total, n) else (pos 0, 1)

pub record ProcessorMetrics : Type 0 where
  pub total_batches : ℕ
  pub total_requests : ℕ
  pub total_tokens : ℕ
  pub total_errors : ℕ
  pub total_retries : ℕ
  pub avg_process_time : ℤ × ℕ
  pub avg_batch_size : ℤ × ℕ
  pub error_rate : ℤ × ℕ

-- `BatchProcessor.get_metrics`
unfoldable pub processor_metrics : BatchProcessor → ProcessorMetrics
processor_metrics p = record {
  total_batches = p.total_batches;
  total_requests = p.total_requests;
  total_tokens = p.total_tokens;
  total_errors = p.total_errors;
  total_retries = p.total_retries;
  avg_process_time = average p.total_process_time p.total_batches;
  avg_batch_size = average (pos p.total_requests) p.total_batches;
  error_rate = average (pos p.total_errors) p.total_batches;
}

pub record BatcherMetrics : Type 0 where
  pub batches_processed : ℕ
  pub total_requests_processed : ℕ
  pub avg_batch_size : ℕ × ℕ
  pub avg_collect_time : ℤ × ℕ
  pub avg_process_time : ℤ × ℕ

-- `SmartBatcher.get_metrics`
unfoldable pub batcher_metrics : SmartBatcher → BatcherMetrics
batcher_metrics b = record {
  batches_processed = b.batches_processed;
  total_requests_processed = b.total_requests_processed;
  avg_batch_size = b.avg_batch_size;
  avg_collect_time = average b.total_collect_time b.batches_processed;
  avg_process_time = average b.total_process_time b.batches_processed;
}

abbrev is_finished : Task → Bool
is_finished Task.finished = true
is_finished _ = false

-- `len([w for w in self._workers if not w.done()])`
unfoldable pub workers_active : List Task → ℕ
workers_active [] = 0
workers_active (w ∷ ws) = let rest = workers_active ws in if is_finished w then rest else suc rest

-- The answer to `health_check`; the status is true for "healthy".
pub record ServiceHealth : Type 0 where
  pub healthy : Bool
  pub running : Bool
  pub workers_active : ℕ
  pub queue_size : ℕ

-- `modal_status` is the status in the answer of the translation service's health endpoint.
unfoldable pub health_check : Option Text → BatchTranslationService → ServiceHealth
unfolding workers_active
health_check modal_status s = record {
  healthy =
      s.running
      && elim modal_status [ none ↦ false | some status ↦ text_eq status (codes "healthy") ];
  running = s.running;
  workers_active = workers_active s.workers;
  queue_size = qsize s.batcher.queue;
}

-- `get_metrics`
pub record ServiceMetrics : Type 0 where
  pub running : Bool
  pub workers_active : ℕ
  pub queue : QueueMetrics
  pub batcher : BatcherMetrics
  pub processor : ProcessorMetrics
  pub performance : Summary
  pub sla : Option (List (Text × SlaStatus))

unfoldable pub get_metrics : ℕ → BatchTranslationService → ServiceMetrics
unfolding workers_active
get_metrics now s = record {
  running = s.running;
  workers_active = workers_active s.workers;
  queue = Queue.get_metrics s.batcher.queue;
  batcher = batcher_metrics s.batcher;
  processor = processor_metrics s.batcher.processor;
  performance = get_summary now s.metrics;
  sla = check_sla s.metrics;
}

unfoldable pub reset_metrics : BatchTranslationService → BatchTranslationService
reset_metrics s =
    let b = record s.batcher { queue = Queue.reset_metrics s.batcher.queue } in
    let b' = Process.reset_metrics b in
    record s {
      batcher = record b' { processor = Processor.reset_metrics b'.processor };
      metrics = reset s.metrics;
    }

-- `get_batch_service` on the singleton: the instance and the singleton afterwards. The defaults of
-- the service are two workers, two retries and a window of 1000.
unfoldable pub get_batch_service :
    Option BatchTranslationService → BatchTranslationService × Option BatchTranslationService
unfolding start new_service
get_batch_service (some s) = (s, some s)
get_batch_service none = let s = start (new_service 2 2 1000) in (s, some s)

-- The whole of `stop`, with workers that finish or are cancelled.
unfoldable pub stopped : BatchTranslationService → BatchTranslationService
stopped s = if s.running then clear_workers (stop s) else s

-- `shutdown_batch_service` on the singleton: the instance that was stopped, and the singleton
-- afterwards.
unfoldable pub shutdown_batch_service :
    Option BatchTranslationService → Option BatchTranslationService × Option BatchTranslationService
unfolding stopped
shutdown_batch_service none = (none, none)
shutdown_batch_service (some s) = (some (stopped s), none)

-- A service that was shut down does not run and has no workers, and the next one that is asked for
-- is a new one that runs.
pub shutdown_restart :
    (s : BatchTranslationService)
    → s.running ≡ true
    → ((stopped s).running ≡ false)
      × ((stopped s).workers ≡ [])
      × ((get_batch_service (shutdown_batch_service (some s)).1).0.running ≡ true)
unfolding stopped shutdown_batch_service get_batch_service stop clear_workers start new_service
shutdown_restart s running = simp running (refl, refl, refl)
