-- ===== src/Batch/Metrics/Summary.antt =====
-- app/services/batch/metrics.py, the SLA statuses and the summary of `BatchMetricsCollector`.
use mathlib.Core.Option as Option
use unitra_service_api.Common.{ℕ, ◌*◌, true, Option, none, some, List, [], ◌∷◌, ltb, if◌then◌else◌}
use unitra_service_api.Common.Int.{pos, leb_ℤ}
use unitra_service_api.Common.Text.{Text}
use unitra_service_api.Batch.Config.{UserTier, user_tiers, value, tier_configs}
use unitra_service_api.Batch.Metrics.{BatchMetricsCollector}
use unitra_service_api.Batch.Metrics.Stats.{
  LatencyMetrics, SlaStatus, SizeStats, get_latency_by_tier, get_batch_size_stats,
  get_queue_depth_stats, get_throughput,
}

-- The status of one tier; a target with its tolerance of 20% in microseconds.
unfoldable pub sla_status : UserTier → LatencyMetrics → BatchMetricsCollector → SlaStatus
sla_status tier metrics c = record {
  tier = value tier;
  target_ms = (tier_configs tier).target_latency_ms;
  actual_p95 = metrics.p95;
  sla_met =
      if ltb 0 metrics.count
      then leb_ℤ metrics.p95 (pos ((tier_configs tier).target_latency_ms * 1200))
      else true;
  sample_count = metrics.count;
  violation_count = c.sla_violations tier;
}

-- The loop over the tiers.
unfoldable pub check_tiers :
    List UserTier → BatchMetricsCollector → Option (List (Text × SlaStatus))
unfolding get_latency_by_tier sla_status
check_tiers [] c = some []
check_tiers (tier ∷ tiers) c =
    let rest = check_tiers tiers c in
    elim (get_latency_by_tier tier c) [
      | none ↦ none
      | some metrics ↦ elim rest [
        | none ↦ none
        | some results ↦ some ((value tier, sla_status tier metrics c) ∷ results)
      ]
    ]

unfoldable pub check_sla : BatchMetricsCollector → Option (List (Text × SlaStatus))
unfolding check_tiers
check_sla c = check_tiers user_tiers c

-- `get_all_tier_latencies`, along the tiers.
unfoldable pub tier_latencies :
    List UserTier → BatchMetricsCollector → Option (List (UserTier × LatencyMetrics))
unfolding get_latency_by_tier
tier_latencies [] c = some []
tier_latencies (tier ∷ tiers) c =
    let rest = tier_latencies tiers c in
    elim (get_latency_by_tier tier c) [
      | none ↦ none
      | some metrics ↦ elim rest [ none ↦ none | some results ↦ some ((tier, metrics) ∷ results) ]
    ]

unfoldable pub get_all_tier_latencies :
    BatchMetricsCollector → Option (List (UserTier × LatencyMetrics))
unfolding tier_latencies
get_all_tier_latencies c = tier_latencies user_tiers c

-- The tiers that have a sample, and the statuses that have one.
unfoldable pub sampled_tiers : List (UserTier × LatencyMetrics) → List (UserTier × LatencyMetrics)
sampled_tiers [] = []
sampled_tiers ((tier, m) ∷ ms) =
    let rest = sampled_tiers ms in if ltb 0 m.count then (tier, m) ∷ rest else rest

unfoldable pub sampled_statuses : List (Text × SlaStatus) → List (Text × SlaStatus)
sampled_statuses [] = []
sampled_statuses ((tier, v) ∷ vs) =
    let rest = sampled_statuses vs in if ltb 0 v.sample_count then (tier, v) ∷ rest else rest

pub record Summary : Type 0 where
  pub total_requests : ℕ
  pub total_batches : ℕ
  pub throughput : ℕ × ℕ
  pub batch_sizes : SizeStats
  pub queue_depth : SizeStats
  pub latency_by_tier : Option (List (UserTier × LatencyMetrics))
  pub sla_status : Option (List (Text × SlaStatus))

-- `get_summary`, with a throughput over the default window of a minute.
unfoldable pub get_summary : ℕ → BatchMetricsCollector → Summary
unfolding get_throughput get_batch_size_stats get_queue_depth_stats get_all_tier_latencies check_sla
get_summary now c = record {
  total_requests = c.total_requests;
  total_batches = c.total_batches;
  throughput = get_throughput now 60000000 c;
  batch_sizes = get_batch_size_stats c;
  queue_depth = get_queue_depth_stats c;
  latency_by_tier = Option.map sampled_tiers (get_all_tier_latencies c);
  sla_status = Option.map sampled_statuses (check_sla c);
}
