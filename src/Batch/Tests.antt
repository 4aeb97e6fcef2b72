-- ===== src/Batch/Tests.antt =====
-- Runs of the queue and of the metrics collector on small inputs.
mod Batches
mod Services
mod Statistics
use mathlib.Core.List.{Mem, Perm, mem-cons_self}
use unitra_service_api.Common.{
  ℕ, ◌+◌, ◌≤◌, ◌<◌, ◌≡◌, ◌≢◌, ◌^◌, refl, Bool, true, false, Option, none, some, List, [], ◌∷◌, ◌++◌,
  ◌⊎◌, arith, All,
}
use unitra_service_api.Common.Int.{pos, ◌≤ℤ◌, neg_ℤ, ◌+ℤ◌, ◌*ℕ◌}
use unitra_service_api.Common.Text.{Text, codes, text_eq}
use unitra_service_api.Batch.Config.{UserTier, tier_configs}
use unitra_service_api.Batch.Request.{
  TranslationRequest, PrioritizedRequest, priority_of, get_priority, default_boost,
}
use unitra_service_api.Batch.Heapq.Sorted.{sorted_heapq}
use unitra_service_api.Batch.Queue.{
  TranslationQueue, Heap, Wake, new_queue, put, get, Poll, get_batch, get_locked, waiting, qsize,
}
use unitra_service_api.Batch.Queue.Bag.{Takes, add, bag, count, view, queue_bag}
use unitra_service_api.Batch.Queue.Fairness.{get_locked_most_urgent, get_locked_overtaking_bound}
use unitra_service_api.Batch.Metrics.{Sample, new_collector, record_request}
use unitra_service_api.Batch.Metrics.Windows.{Tracks, record_all, record_all-Tracks}
use unitra_service_api.Batch.Queue.Polling.{get_batch-IsValid}
use unitra_service_api.Batch.Queue.Invariant.{IsValid, new_queue-IsValid, put-IsValid, get-IsValid}

instance abbrev pub heapq : Heap
heapq = sorted_heapq priority_of

abbrev pub request : UserTier → ℕ → ℕ → TranslationRequest
request tier timestamp future = record {
  text = codes "hello";
  source_lang = codes "en";
  target_lang = codes "de";
  user_id = codes "u";
  tier = tier;
  request_id = codes "r";
  timestamp = timestamp;
  future = future;
}

-- A free request, and an enterprise one that comes a second later.
abbrev pub slow : TranslationRequest
slow = request UserTier.free 0 0

abbrev pub quick : TranslationRequest
quick = request UserTier.enterprise 1000000 1

abbrev pub both : TranslationQueue
both = put 1000000 quick (put 0 slow (new_queue default_boost))

both-IsValid : IsValid both
both-IsValid = put-IsValid 1000000 quick _ (put-IsValid 0 slow _ (new_queue-IsValid default_boost))

abbrev left : TranslationQueue
left = (get_locked 1000000 both).1

taken : get_locked 1000000 both ≡ (some quick, left)
unfolding get_locked put new_queue get_priority neg_ℤ ◌+ℤ◌ ◌*ℕ◌
taken = refl

slow_left : Mem slow (waiting left)
unfolding get_locked put new_queue get_priority neg_ℤ ◌+ℤ◌ ◌*ℕ◌
slow_left = mem-cons_self

get_locked_overtaking_bound_example : quick.timestamp ≤ slow.timestamp + 6000000
unfolding put new_queue
get_locked_overtaking_bound_example =
    get_locked_overtaking_bound 1000000 both left quick slow refl taken slow_left

get_locked_most_urgent_example :
    Perm (quick ∷ waiting left) (waiting both)
    × (get_priority both.starvation_boost 1000000 quick
        ≤ℤ get_priority both.starvation_boost 1000000 slow)
get_locked_most_urgent_example = get_locked_most_urgent 1000000 both left quick slow taken slow_left

-- Another task enqueues while `get` waits.
abbrev wake : Wake
wake = record { timed_out = false; others = λ q. put 5 slow q; now = 5 }

wake-IsValid : (q : TranslationQueue) → IsValid q → IsValid (put 5 slow q)
wake-IsValid q v = put-IsValid 5 slow q v

get-IsValid_example : IsValid (get (wake ∷ []) 0 (new_queue default_boost)).1
get-IsValid_example =
    get-IsValid (wake ∷ []) 0 (new_queue default_boost) (wake-IsValid, tt)
      (new_queue-IsValid default_boost)

-- The wait times out as another task enqueues: the request stays.
abbrev late : Wake
late = record { timed_out = true; others = λ q. put 5 slow q; now = 5 }

timed_out_late :
    get (late ∷ []) 0 (new_queue default_boost) ≡ (none, put 5 slow (new_queue default_boost))
unfolding get new_queue
timed_out_late = refl

-- One round of `get_batch`, which fills a batch of one.
abbrev one_poll : Poll
one_poll = record { checked_at = 0; wakes = []; got_at = 1000000 }

polled_one : get_batch 0 1 1000 (one_poll ∷ []) both ≡ some (quick ∷ [], left)
unfolding get_batch get get_locked put new_queue get_priority neg_ℤ ◌+ℤ◌ ◌*ℕ◌
polled_one = refl

-- Three requests on a window of two.
abbrev sample : UserTier → ℕ → Sample
sample tier n = record { tier = tier; latency = pos n; batch_size = n; queue_depth = n; now = n }

abbrev samples : List Sample
samples = sample UserTier.free 1 ∷ sample UserTier.pro 2 ∷ sample UserTier.free 3 ∷ []

record_all-Tracks_example : Tracks 2 samples (record_all samples (new_collector 2))
record_all-Tracks_example = record_all-Tracks 2 samples

window_of_two : (record_all samples (new_collector 2)).batch_sizes ≡ 2 ∷ 3 ∷ []
unfolding record_request new_collector
window_of_two = refl

queue_bag_example :
    (view (put 2000000 slow both) ≡ add slow (view both))
    × Takes (view both) (get_locked 2000000 both).0 (view (get_locked 2000000 both).1)
    × (qsize both ≡ count (view both))
queue_bag_example = queue_bag 2000000 slow both both-IsValid
