-- ===== src/Batch/Metrics/Percentiles.antt =====
-- The latency statistics are defined, ordered, and taken from the window.
use mathlib.Core.List.{Mem, Perm, mem-cons, mem-cons_self, mem-cons_of_mem, not-mem-nil}
use mathlib.Core.List.Perm
use mathlib.Core.Logic.Or
use native.Mathlib.Bridge.{le_prop}
use unitra_service_api.Common.{
  ℕ, zero, suc, ◌-◌, ◌*◌, ◌/◌, ◌≤◌, ◌<◌, ◌≡◌, refl, some, List, [], ◌∷◌, length, leb, if◌then◌else◌,
  get_elem?, arith, Bool-cases, inl, inr,
}
use unitra_service_api.Common.Perms.{Perm-length}
use unitra_service_api.Common.Int.{ℤ, ◌≤ℤ◌, leb_ℤ}
use unitra_service_api.Batch.Config.{UserTier}
use unitra_service_api.Batch.Heapq.Sorted.{insert_sorted-perm, insert_sorted-IsSorted, IsSorted}
use unitra_service_api.Batch.Metrics.{BatchMetricsCollector}
use unitra_service_api.Batch.Metrics.Stats.{
  LatencyMetrics, no_latencies, sorted, min_of, max_of, last_of, sum_ℤ, latency_metrics,
  latencies_metrics, get_latency_by_tier,
}

abbrev IsAscending : List ℤ → Type 0
IsAscending l = IsSorted (λ (z : ℤ). z) l

sorted-perm : (l : List ℤ) → Perm (sorted l) l
unfolding sorted
sorted-perm [] = Perm.refl []
sorted-perm (x ∷ xs) =
    Perm.trans (insert_sorted-perm (λ z. z) (sorted xs) x) (Perm.cons x (sorted-perm xs))

sorted-IsAscending : (l : List ℤ) → IsAscending (sorted l)
unfolding sorted
sorted-IsAscending [] = tt
sorted-IsAscending (x ∷ xs) = insert_sorted-IsSorted (λ z. z) (sorted xs) x (sorted-IsAscending xs)

pub get_elem?_defined {ℓ} :
    {A : Type ℓ} (l : List A) (i : ℕ) → i < length l → (x : A) × (get_elem? l i ≡ some x)
get_elem?_defined [] i h = absurd (omega arith)
get_elem?_defined (x ∷ l) zero h = (x, refl)
get_elem?_defined (x ∷ l) (suc i) h = get_elem?_defined l i (omega arith)

get_elem?-Mem : (l : List ℤ) (i : ℕ) (x : ℤ) → get_elem? l i ≡ some x → Mem x l
get_elem?-Mem [] i x e = cc
get_elem?-Mem (y ∷ l) zero x e = let same : y ≡ x = cc in rw same mem-cons_self
get_elem?-Mem (y ∷ l) (suc i) x e = mem-cons_of_mem y (get_elem?-Mem l i x e)

ascending_le :
    (l : List ℤ) (i j : ℕ) (x y : ℤ)
    → IsAscending l
    → i ≤ j
    → get_elem? l i ≡ some x
    → get_elem? l j ≡ some y
    → x ≤ℤ y
ascending_le [] i j x y a h e f = cc
ascending_le (z ∷ l) zero zero x y a h e f = let same : x ≡ y = cc in rw same (omega arith)
ascending_le (z ∷ l) zero (suc j) x y a h e f =
    let same : z ≡ x = cc in rw (← same) (a.0 y (get_elem?-Mem l j y f))
ascending_le (z ∷ l) (suc i) zero x y a h e f = absurd (omega arith)
ascending_le (z ∷ l) (suc i) (suc j) x y a h e f = ascending_le l i j x y a.1 (omega arith) e f

min_of_le : (x : ℤ) (xs : List ℤ) (z : ℤ) → Mem z (x ∷ xs) → min_of x xs ≤ℤ z
unfolding min_of
min_of_le x [] z m =
    Or.elim le_prop (mem-cons.0 m) (λ f. rw f (omega arith)) λ f. absurd (not-mem-nil f)
min_of_le x (y ∷ ys) z m = elim (Bool-cases (leb_ℤ x (min_of y ys))) [
  | inl e ↦ rw e (
      Or.elim le_prop (mem-cons.0 m) (λ f. rw f (omega arith))
        λ f. ground (arith, e, min_of_le y ys z f))
  | inr e ↦
      rw e (Or.elim le_prop (mem-cons.0 m) (λ f. rw f (ground (arith, e))) λ f. min_of_le y ys z f)
]

max_of_le : (x : ℤ) (xs : List ℤ) (z : ℤ) → Mem z (x ∷ xs) → z ≤ℤ max_of x xs
unfolding max_of
max_of_le x [] z m =
    Or.elim le_prop (mem-cons.0 m) (λ f. rw f (omega arith)) λ f. absurd (not-mem-nil f)
max_of_le x (y ∷ ys) z m = elim (Bool-cases (leb_ℤ (max_of y ys) x)) [
  | inl e ↦ rw e (
      Or.elim le_prop (mem-cons.0 m) (λ f. rw f (omega arith))
        λ f. ground (arith, e, max_of_le y ys z f))
  | inr e ↦
      rw e (Or.elim le_prop (mem-cons.0 m) (λ f. rw f (ground (arith, e))) λ f. max_of_le y ys z f)
]

-- One of the latencies at a place of the sorted list, by the index that the code uses.
chosen :
    (latencies : List ℤ) (many n low : ℕ)
    → n ≡ length (sorted latencies)
    → low < n
    → (v : ℤ) × ((if leb many n
          then get_elem? (sorted latencies) low
          else last_of (sorted latencies))
        ≡ some v)
      × (get_elem? (sorted latencies) (if leb many n then low else n - 1) ≡ some v)
chosen latencies many n low size l = elim (Bool-cases (leb many n)) [
  | inl e ↦
      let (v, f) = get_elem?_defined (sorted latencies) low (omega arith) in (v, rw e f, rw e f)
  | inr e ↦
      let (v, f) = get_elem?_defined (sorted latencies) (n - 1) (omega arith) in
      (v, rw (e, ← size) f, rw e f)
]

-- The statistics of some latencies: each percentile is one of them, and they are in order.
pub record IsOrdered (latencies : List ℤ) (m : LatencyMetrics) : Type 0 where
  pub low : m.min ≤ℤ m.p50
  pub middle : m.p50 ≤ℤ m.p95
  pub high : m.p95 ≤ℤ m.p99
  pub top : m.p99 ≤ℤ m.max
  pub from_window : Mem m.p50 latencies × Mem m.p95 latencies × Mem m.p99 latencies

indices_50_95 : (n : ℕ) → n * 50 / 100 ≤ (if leb 20 n then n * 95 / 100 else n - 1)
indices_50_95 n = ground arith

indices_95_99 :
    (n : ℕ)
    → (if leb 20 n then n * 95 / 100 else n - 1) ≤ (if leb 100 n then n * 99 / 100 else n - 1)
indices_95_99 n = ground arith

abbrev metrics_at : ℤ → List ℤ → ℤ → ℤ → ℤ → LatencyMetrics
metrics_at x xs p50 p95 p99 = record {
  p50 = p50;
  p95 = p95;
  p99 = p99;
  avg = (sum_ℤ (x ∷ xs), length (x ∷ xs));
  min = min_of x xs;
  max = max_of x xs;
  count = length (sorted (x ∷ xs));
}

latency_metrics-some :
    (x : ℤ) (xs : List ℤ) (p50 p95 p99 : ℤ)
    → let s = sorted (x ∷ xs) in
      let n = length s in
      get_elem? s (n * 50 / 100) ≡ some p50
      → (if leb 20 n then get_elem? s (n * 95 / 100) else last_of s) ≡ some p95
      → (if leb 100 n then get_elem? s (n * 99 / 100) else last_of s) ≡ some p99
      → latency_metrics x xs ≡ some (metrics_at x xs p50 p95 p99)
unfolding latency_metrics
latency_metrics-some x xs p50 p95 p99 e50 e95 e99 = rw (latency_metrics, e50, e95, e99) refl

latency_metrics-IsOrdered :
    (x : ℤ) (xs : List ℤ)
    → (m : LatencyMetrics) × (latency_metrics x xs ≡ some m) × IsOrdered (x ∷ xs) m
latency_metrics-IsOrdered x xs =
    let s = sorted (x ∷ xs) in
    let n = length s in
    let size : length (sorted (x ∷ xs)) ≡ suc (length xs) = Perm-length (sorted-perm (x ∷ xs)) in
    let (p50, e50) = get_elem?_defined s (n * 50 / 100) (omega arith) in
    let (p95, e95, i95) = chosen (x ∷ xs) 20 n (n * 95 / 100) refl (omega arith) in
    let (p99, e99, i99) = chosen (x ∷ xs) 100 n (n * 99 / 100) refl (omega arith) in
    let sorted_now = sorted-IsAscending (x ∷ xs) in
    let in_window : (i : ℕ) (v : ℤ) → get_elem? s i ≡ some v → Mem v (x ∷ xs) =
      λ i v e. (Perm.mem_iff (sorted-perm (x ∷ xs))).0 (get_elem?-Mem s i v e) in
    let in99 = in_window _ p99 i99 in
    (
      metrics_at x xs p50 p95 p99,
      latency_metrics-some x xs p50 p95 p99 e50 e95 e99,
      record {
        low = min_of_le x xs p50 (in_window _ p50 e50);
        middle = ascending_le s _ _ p50 p95 sorted_now (indices_50_95 n) e50 i95;
        high = ascending_le s _ _ p95 p99 sorted_now (indices_95_99 n) i95 i99;
        top = max_of_le x xs p99 in99;
        from_window = (in_window _ p50 e50, in_window _ p95 i95, in99);
      },
    )

latencies_metrics-IsOrdered :
    (l : List ℤ)
    → (m : LatencyMetrics) × (latencies_metrics l ≡ some m) × (1 ≤ length l → IsOrdered l m)
unfolding latencies_metrics
latencies_metrics-IsOrdered [] = (no_latencies, refl, λ h. absurd (omega arith))
latencies_metrics-IsOrdered (x ∷ xs) =
    let (m, e, ordered) = latency_metrics-IsOrdered x xs in (m, e, λ h. ordered)

-- The latency statistics of a tier are always defined: no percentile index is out of range. If the
-- window of the tier is not empty, the 50th, 95th and 99th percentile are latencies of the window
-- and lie in this order between its minimum and its maximum.
pub get_latency_by_tier-IsOrdered :
    (tier : UserTier) (c : BatchMetricsCollector)
    → (m : LatencyMetrics) × (get_latency_by_tier tier c ≡ some m)
      × (1 ≤ length (c.latencies tier) → IsOrdered (c.latencies tier) m)
unfolding get_latency_by_tier
get_latency_by_tier-IsOrdered tier c = latencies_metrics-IsOrdered (c.latencies tier)
