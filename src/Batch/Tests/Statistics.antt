-- ===== src/Batch/Tests/Statistics.antt =====
-- The statistics of a small window.
use unitra_service_api.Common.{◌≤◌, ◌≡◌, refl, some, [], ◌∷◌}
use unitra_service_api.Common.Int.{pos, ◌+ℤ◌}
use unitra_service_api.Batch.Config.{UserTier}
use unitra_service_api.Batch.Metrics.{BatchMetricsCollector, new_collector}
use unitra_service_api.Batch.Metrics.Stats.{
  LatencyMetrics, get_latency_by_tier, sorted, sum_ℤ, min_of, max_of,
}
use unitra_service_api.Batch.Metrics.Percentiles.{IsOrdered, get_latency_by_tier-IsOrdered}

abbrev collector : BatchMetricsCollector
collector = record (new_collector 1000) { latencies = λ t. pos 30 ∷ pos 10 ∷ pos 20 ∷ pos 40 ∷ [] }

get_latency_by_tier-IsOrdered_example :
    (m : LatencyMetrics) × (get_latency_by_tier UserTier.pro collector ≡ some m)
    × (1 ≤ 4 → IsOrdered (pos 30 ∷ pos 10 ∷ pos 20 ∷ pos 40 ∷ []) m)
get_latency_by_tier-IsOrdered_example = get_latency_by_tier-IsOrdered UserTier.pro collector

median_of_four :
    get_latency_by_tier UserTier.pro collector
    ≡ some (record {
      p50 = pos 30;
      p95 = pos 40;
      p99 = pos 40;
      avg = (pos 100, 4);
      min = pos 10;
      max = pos 40;
      count = 4;
    })
unfolding get_latency_by_tier sorted sum_ℤ ◌+ℤ◌ min_of max_of
median_of_four = refl
