-- ===== src/Batch/Metrics.antt =====
-- app/services/batch/metrics.py, what `BatchMetricsCollector` records. Latencies and times are in
-- microseconds.
pub mod Windows
pub mod Stats
pub mod Summary
pub mod Percentiles
use unitra_service_api.Common.{ℕ, ◌+◌, ◌*◌, List, [], ◌∷◌, ◌++◌, length, ltb, if◌then◌else◌}
use unitra_service_api.Common.Int.{ℤ, pos, ltb_ℤ}
use unitra_service_api.Batch.Config.{UserTier, tier_configs}
use unitra_service_api.Batch.Queue.{same_tier, count_tier}

pub record BatchMetricsCollector : Type 0 where
  pub window_size : ℕ
  pub latencies : UserTier → List ℤ
  pub batch_sizes : List ℕ
  pub queue_depths : List ℕ
  pub request_times : List ℕ
  pub sla_violations : UserTier → ℕ
  pub total_requests : ℕ
  pub total_batches : ℕ

-- `__init__`
unfoldable pub new_collector : ℕ → BatchMetricsCollector
new_collector window_size = record {
  window_size = window_size;
  latencies = λ _. [];
  batch_sizes = [];
  queue_depths = [];
  request_times = [];
  sla_violations = λ _. 0;
  total_requests = 0;
  total_batches = 0;
}

-- `l.pop(0)`, of a list that is not empty
abbrev pub pop_oldest {ℓ} : {A : Type ℓ} → List A → List A
pop_oldest [] = []
pop_oldest (x ∷ xs) = xs

-- `l.append(x)`, then `l.pop(0)` if the list is longer than the window
unfoldable pub push {ℓ} : {A : Type ℓ} → ℕ → A → List A → List A
push window_size x l =
    let longer = l ++ x ∷ [] in
    if ltb window_size (length longer) then pop_oldest longer else longer

-- The arguments of `record_request`, and the clock that it reads.
pub record Sample : Type 0 where
  pub tier : UserTier
  pub latency : ℤ
  pub batch_size : ℕ
  pub queue_depth : ℕ
  pub now : ℕ

unfoldable pub record_request : Sample → BatchMetricsCollector → BatchMetricsCollector
unfolding push
record_request s c = record c {
  latencies = λ t.
      if same_tier s.tier t then push c.window_size s.latency (c.latencies t) else c.latencies t;
  sla_violations =
      if ltb_ℤ (pos ((tier_configs s.tier).target_latency_ms * 1200)) s.latency
      then count_tier s.tier c.sla_violations
      else c.sla_violations;
  batch_sizes = push c.window_size s.batch_size c.batch_sizes;
  queue_depths = push c.window_size s.queue_depth c.queue_depths;
  request_times = push c.window_size s.now c.request_times;
  total_requests = c.total_requests + 1;
}

unfoldable pub record_batch : BatchMetricsCollector → BatchMetricsCollector
record_batch c = record c { total_batches = c.total_batches + 1 }

unfoldable pub reset : BatchMetricsCollector → BatchMetricsCollector
reset c = record c {
  latencies = λ _. [];
  batch_sizes = [];
  queue_depths = [];
  request_times = [];
  sla_violations = λ _. 0;
  total_requests = 0;
  total_batches = 0;
}
