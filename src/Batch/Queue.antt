-- ===== src/Batch/Queue.antt =====
-- app/services/batch/queue.py, `TranslationQueue`. The lock is never contended across an await,
-- so each critical section is one step. `now` is the time that the step reads. Waiting in `get` is
-- driven by a list of wake-ups: what other tasks have made of the queue by then, and the time.
pub mod Priority
pub mod Content
pub mod Fairness
pub mod Invariant
pub mod Polling
pub mod Bag
use unitra_service_api.Common.{
  ℕ, ◌+◌, ◌-◌, Bool, true, false, Option, none, some, List, [], ◌∷◌, ◌==◌, if◌then◌else◌, map, ◌++◌,
  length, ltb, leb,
}
use unitra_service_api.Common.Int.{ℤ}
use unitra_service_api.Common.Text.{Text}
use unitra_service_api.Batch.Config.{UserTier, user_tiers, value}
use unitra_service_api.Batch.Request.{
  TranslationRequest, PrioritizedRequest, get_priority, priority_of,
}
use unitra_service_api.Batch.Heapq.{Heapq}

pub record TranslationQueue : Type 0 where
  pub heap : List PrioritizedRequest
  pub not_empty : Bool
  pub size : ℕ
  pub starvation_boost : ℕ
  pub total_enqueued : ℕ
  pub total_dequeued : ℕ
  pub tier_counts : UserTier → ℕ

-- `__init__`
unfoldable pub new_queue : ℕ → TranslationQueue
new_queue boost = record {
  heap = [];
  not_empty = false;
  size = 0;
  starvation_boost = boost;
  total_enqueued = 0;
  total_dequeued = 0;
  tier_counts = λ _. 0;
}

abbrev pub same_tier : UserTier → UserTier → Bool
same_tier UserTier.free UserTier.free = true
same_tier UserTier.basic UserTier.basic = true
same_tier UserTier.pro UserTier.pro = true
same_tier UserTier.enterprise UserTier.enterprise = true
same_tier _ _ = false

-- `counts[tier] += 1`
abbrev pub count_tier : UserTier → (UserTier → ℕ) → UserTier → ℕ
count_tier tier counts t = if same_tier tier t then counts t + 1 else counts t

abbrev pub Heap : Type 1
Heap = Heapq PrioritizedRequest priority_of

-- What a waiting `get` finds when the event loop runs it again: whether the wait has timed out, what
-- the other tasks have made of the queue by then, and the time.
pub record Wake : Type 0 where
  pub timed_out : Bool
  pub others : TranslationQueue → TranslationQueue
  pub now : ℕ

module _ ⦃H : Heap⦄ where
  unfoldable pub put : ℕ → TranslationRequest → TranslationQueue → TranslationQueue
  put now request q =
      let priority = get_priority q.starvation_boost now request in
      record q {
        heap = H.heappush q.heap (record { priority = priority; request = request });
        size = q.size + 1;
        total_enqueued = q.total_enqueued + 1;
        tier_counts = count_tier request.tier q.tier_counts;
        not_empty = true;
      }

  -- the list comprehension of `_reheapify`
  unfoldable pub updated : ℕ → ℕ → List PrioritizedRequest → List PrioritizedRequest
  updated boost now [] = []
  updated boost now (p ∷ ps) =
      record { priority = get_priority boost now p.request; request = p.request }
      ∷ updated boost now ps

  -- its loop of `heappush`
  unfoldable pub push_all :
      List PrioritizedRequest → List PrioritizedRequest → List PrioritizedRequest
  push_all h [] = h
  push_all h (p ∷ ps) = push_all (H.heappush h p) ps

  unfoldable pub reheapify : ℕ → TranslationQueue → TranslationQueue
  unfolding updated push_all
  reheapify now q = record q { heap = push_all [] (updated q.starvation_boost now q.heap) }

  -- the state after `heappop` left `rest`
  unfoldable pub popped : List PrioritizedRequest → TranslationQueue → TranslationQueue
  popped rest q = record q {
    heap = rest;
    size = q.size - 1;
    total_dequeued = q.total_dequeued + 1;
    not_empty = if q.size - 1 == 0 then false else q.not_empty;
  }

  -- the critical section of `get`
  unfoldable pub get_locked : ℕ → TranslationQueue → Option TranslationRequest × TranslationQueue
  unfolding reheapify popped
  get_locked now q = elim q.heap [
    | [] ↦ (none, q)
    | _ ∷ _ ↦ elim (H.heappop (reheapify now q).heap) [
      | none ↦ (none, q)
      | some (item, rest) ↦ (some item.request, popped rest (reheapify now q))
    ]
  ]

  -- `get`: a wait that times out returns `None`, without a look at what the queue holds by then; with
  -- no wake-up left it times out and nothing else has run. After any other wake-up the test of `_size`
  -- is made again; `not_empty.wait()` on an event that is set returns at once.
  unfoldable pub get :
      List Wake → ℕ → TranslationQueue → Option TranslationRequest × TranslationQueue
  unfolding get_locked
  get [] now q = if q.size == 0 then (none, q) else get_locked now q
  get (w ∷ ws) now q =
      let woken = get ws w.now (w.others q) in
      if q.size == 0 then if w.timed_out then (none, w.others q) else woken else get_locked now q

-- One round of `get_batch`: the clock that it reads, and the wait of its `get`.
pub record Poll : Type 0 where
  pub checked_at : ℕ
  pub wakes : List Wake
  pub got_at : ℕ

module _ ⦃H : Heap⦄ (start max_size max_wait : ℕ) where
  -- The loop of `get_batch`, with the longest wait in microseconds; `none` while it would still go
  -- on. `min_size` decides nothing.
  unfoldable pub poll :
      List Poll
      → List TranslationRequest
      → TranslationQueue
      → Option (List TranslationRequest × TranslationQueue)
  unfolding get
  poll [] batch q = if ltb (length batch) max_size then none else some (batch, q)
  poll (p ∷ ps) batch q =
      let (request, q') = get p.wakes p.got_at q in
      if ltb (length batch) max_size
      then if leb (start + max_wait) p.checked_at
        then some (batch, q)
        else elim request [ none ↦ some (batch, q') | some r ↦ poll ps (batch ++ r ∷ []) q' ]
      else some (batch, q)

  unfoldable pub get_batch :
      List Poll → TranslationQueue → Option (List TranslationRequest × TranslationQueue)
  unfolding poll
  get_batch ps q = poll ps [] q

unfoldable pub peek_priority : ℕ → TranslationQueue → Option ℤ
peek_priority now q = elim q.heap [
  | [] ↦ none
  | p ∷ _ ↦ some (get_priority q.starvation_boost now p.request)
]

unfoldable pub peek_tier : TranslationQueue → Option UserTier
peek_tier q = elim q.heap [ [] ↦ none | p ∷ _ ↦ some p.request.tier ]

unfoldable pub qsize : TranslationQueue → ℕ
qsize q = q.size

unfoldable pub empty : TranslationQueue → Bool
empty q = q.size == 0

pub record QueueMetrics : Type 0 where
  pub size : ℕ
  pub total_enqueued : ℕ
  pub total_dequeued : ℕ
  pub tier_distribution : List (Text × ℕ)

unfoldable pub get_metrics : TranslationQueue → QueueMetrics
get_metrics q = record {
  size = q.size;
  total_enqueued = q.total_enqueued;
  total_dequeued = q.total_dequeued;
  tier_distribution = map (λ t. (value t, q.tier_counts t)) user_tiers;
}

unfoldable pub reset_metrics : TranslationQueue → TranslationQueue
reset_metrics q = record q { total_enqueued = 0; total_dequeued = 0; tier_counts = λ _. 0 }

-- The requests that wait, in heap order.
abbrev pub waiting : TranslationQueue → List TranslationRequest
waiting q = map (λ p. p.request) q.heap
