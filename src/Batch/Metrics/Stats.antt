-- ===== src/Batch/Metrics/Stats.antt =====
-- app/services/batch/metrics.py, the statistics that are read from `BatchMetricsCollector`.
-- Averages and rates are fractions, without the rounding for display. An index is taken in whole
-- numbers: for every n up to the window of 1000, `int(n * 0.95)` is `n * 95 / 100`, and so for 0.50
-- and 0.99. `none` is an IndexError.
use unitra_service_api.Common.{
  ℕ, ◌+◌, ◌-◌, ◌*◌, ◌/◌, Bool, Option, none, some, List, [], ◌∷◌, sum, length, ltb, leb,
  if◌then◌else◌, get_elem?,
}
use unitra_service_api.Common.Int.{ℤ, pos, ◌+ℤ◌, leb_ℤ}
use unitra_service_api.Common.Text.{Text}
use unitra_service_api.Batch.Config.{UserTier}
use unitra_service_api.Batch.Heapq.Sorted.{insert_sorted}
use unitra_service_api.Batch.Metrics.{BatchMetricsCollector}

pub record LatencyMetrics : Type 0 where
  pub p50 : ℤ
  pub p95 : ℤ
  pub p99 : ℤ
  -- the sum and the number of the latencies
  pub avg : ℤ × ℕ
  pub min : ℤ
  pub max : ℤ
  pub count : ℕ

pub record SlaStatus : Type 0 where
  pub tier : Text
  pub target_ms : ℕ
  pub actual_p95 : ℤ
  pub sla_met : Bool
  pub sample_count : ℕ
  pub violation_count : ℕ

-- Python's `sorted`, `min`, `max` and `sum` of numbers
unfoldable pub sorted : List ℤ → List ℤ
sorted [] = []
sorted (x ∷ xs) = insert_sorted (λ z. z) (sorted xs) x

unfoldable pub min_of : ℤ → List ℤ → ℤ
min_of x [] = x
min_of x (y ∷ ys) = let rest = min_of y ys in if leb_ℤ x rest then x else rest

unfoldable pub max_of : ℤ → List ℤ → ℤ
max_of x [] = x
max_of x (y ∷ ys) = let rest = max_of y ys in if leb_ℤ rest x then x else rest

unfoldable pub sum_ℤ : List ℤ → ℤ
sum_ℤ [] = pos 0
sum_ℤ (x ∷ xs) = x +ℤ sum_ℤ xs

-- `l[-1]`
abbrev pub last_of {ℓ} : {A : Type ℓ} → List A → Option A
last_of l = get_elem? l (length l - 1)

-- `LatencyMetrics()`
abbrev pub no_latencies : LatencyMetrics
no_latencies = record {
  p50 = pos 0;
  p95 = pos 0;
  p99 = pos 0;
  avg = (pos 0, 1);
  min = pos 0;
  max = pos 0;
  count = 0;
}

-- The statistics of latencies that are not empty.
unfoldable pub latency_metrics : ℤ → List ℤ → Option LatencyMetrics
latency_metrics x xs =
    let latencies = x ∷ xs in
    let sorted_lat = sorted latencies in
    let n = length sorted_lat in
    elim (get_elem? sorted_lat (n * 50 / 100)) [
      | none ↦ none
      | some p50 ↦
          elim (if leb 20 n then get_elem? sorted_lat (n * 95 / 100) else last_of sorted_lat) [
            | none ↦ none
            | some p95 ↦
                elim (if leb 100 n
                  then get_elem? sorted_lat (n * 99 / 100)
                  else last_of sorted_lat) [
                    | none ↦ none
                    | some p99 ↦ some (record {
                      p50 = p50;
                      p95 = p95;
                      p99 = p99;
                      avg = (sum_ℤ latencies, length latencies);
                      min = min_of x xs;
                      max = max_of x xs;
                      count = n;
                    })
                  ]
          ]
    ]

unfoldable pub latencies_metrics : List ℤ → Option LatencyMetrics
unfolding latency_metrics
latencies_metrics [] = some no_latencies
latencies_metrics (x ∷ xs) = latency_metrics x xs

unfoldable pub get_latency_by_tier : UserTier → BatchMetricsCollector → Option LatencyMetrics
unfolding latencies_metrics
get_latency_by_tier tier c = latencies_metrics (c.latencies tier)

-- `get_batch_size_stats` and `get_queue_depth_stats`
pub record SizeStats : Type 0 where
  pub avg : ℕ × ℕ
  pub min : ℕ
  pub max : ℕ
  pub count : ℕ

unfoldable pub min_ℕ : ℕ → List ℕ → ℕ
min_ℕ x [] = x
min_ℕ x (y ∷ ys) = let rest = min_ℕ y ys in if leb x rest then x else rest

unfoldable pub max_ℕ : ℕ → List ℕ → ℕ
max_ℕ x [] = x
max_ℕ x (y ∷ ys) = let rest = max_ℕ y ys in if leb rest x then x else rest

unfoldable pub size_stats : List ℕ → SizeStats
unfolding min_ℕ max_ℕ
size_stats [] = record { avg = (0, 1); min = 0; max = 0; count = 0 }
size_stats (x ∷ xs) = record {
  avg = (sum (x ∷ xs), length (x ∷ xs));
  min = min_ℕ x xs;
  max = max_ℕ x xs;
  count = length (x ∷ xs);
}

unfoldable pub get_batch_size_stats : BatchMetricsCollector → SizeStats
unfolding size_stats
get_batch_size_stats c = size_stats c.batch_sizes

-- The source's result has no count.
unfoldable pub get_queue_depth_stats : BatchMetricsCollector → SizeStats
unfolding size_stats
get_queue_depth_stats c = size_stats c.queue_depths

-- `[t for t in self._request_times if t > cutoff]`
unfoldable pub recent_times : ℕ → ℕ → List ℕ → List ℕ
recent_times now window [] = []
recent_times now window (t ∷ ts) =
    let rest = recent_times now window ts in if ltb now (t + window) then t ∷ rest else rest

-- Requests per microsecond, as a fraction.
unfoldable pub throughput_of : List ℕ → ℕ × ℕ
throughput_of recent = if ltb (length recent) 2 then (0, 1) else elim (get_elem? recent 0) [
  | none ↦ (0, 1)
  | some oldest ↦ elim (last_of recent) [
    | none ↦ (0, 1)
    | some newest ↦ if leb newest oldest then (0, 1) else (length recent, newest - oldest)
  ]
]

unfoldable pub get_throughput : ℕ → ℕ → BatchMetricsCollector → ℕ × ℕ
unfolding recent_times throughput_of
get_throughput now window c = throughput_of (recent_times now window c.request_times)
