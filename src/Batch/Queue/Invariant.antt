-- ===== src/Batch/Queue/Invariant.antt =====
-- The invariant of the queue: the counters agree with the heap.
use unitra_service_api.Common.{
  ℕ, ◌+◌, ◌≡◌, refl, false, true, some, List, [], ◌∷◌, ◌==◌, map, sum, if◌then◌else◌, arith, length,
  length-map, All, Bool-cases, inl, inr,
}
use unitra_service_api.Common.Perms.{Perm-length}
use unitra_service_api.Batch.Config.{UserTier, user_tiers}
use unitra_service_api.Batch.Request.{TranslationRequest, PrioritizedRequest}
use unitra_service_api.Batch.Queue.{
  TranslationQueue, Heap, Wake, new_queue, put, reheapify, popped, get_locked, get, count_tier,
  reset_metrics,
}
use unitra_service_api.Batch.Queue.Content.{Got, get_locked-Got, reheapify-IsHeap, taken-perm}

-- the sum of `_tier_counts.values()`
abbrev pub counted : (UserTier → ℕ) → ℕ
counted counts = sum (map counts user_tiers)

module _ ⦃H : Heap⦄ where
  -- `_size` is the number of entries, the event is set exactly while there are some, every enqueued
  -- request is counted for its tier, and the list is a heap.
  pub record IsValid (q : TranslationQueue) : Type 0 where
    pub sized : q.size ≡ length q.heap
    pub signalled : q.not_empty ≡ (if q.size == 0 then false else true)
    pub tiers : counted q.tier_counts ≡ q.total_enqueued
    pub is_heap : H.IsHeap q.heap

  pub new_queue-IsValid : (boost : ℕ) → IsValid (new_queue boost)
  unfolding new_queue
  new_queue-IsValid boost = record {
    sized = refl;
    signalled = refl;
    tiers = refl;
    is_heap = H.nil-IsHeap;
  }

  counted-count_tier :
      (t : UserTier) (counts : UserTier → ℕ) → counted (count_tier t counts) ≡ counted counts + 1
  counted-count_tier UserTier.free counts = omega arith
  counted-count_tier UserTier.basic counts = omega arith
  counted-count_tier UserTier.pro counts = omega arith
  counted-count_tier UserTier.enterprise counts = omega arith

  -- Enqueuing a request keeps the invariant.
  pub put-IsValid :
      (now : ℕ) (r : TranslationRequest) (q : TranslationQueue) → IsValid q → IsValid (put now r q)
  unfolding put
  put-IsValid now r q v = record {
    sized = omega (arith, v.sized, Perm-length (H.heappush-perm q.heap _));
    signalled = ground arith;
    tiers = omega (arith, v.tiers, counted-count_tier r.tier q.tier_counts);
    is_heap = H.heappush-IsHeap q.heap _ v.is_heap;
  }

  popped-IsValid :
      (now : ℕ) (q : TranslationQueue) (item : PrioritizedRequest) (rest : List PrioritizedRequest)
      → H.heappop (reheapify now q).heap ≡ some (item, rest)
      → IsValid q
      → IsValid (popped rest (reheapify now q))
  unfolding popped reheapify
  popped-IsValid now q item rest pop v =
      let shorter = Perm-length (taken-perm now q item rest pop) in
      let left = length-map (λ (p : PrioritizedRequest). p.request) rest in
      let all = length-map (λ (p : PrioritizedRequest). p.request) q.heap in
      let sized : q.size ≡ length rest + 1 = omega (arith, v.sized, shorter, left, all) in
      record {
        sized = omega (arith, sized);
        signalled = ground (arith, sized, v.signalled);
        tiers = v.tiers;
        is_heap = H.heappop-IsHeap _ (reheapify-IsHeap now q) pop;
      }

  pub get_locked-IsValid :
      (now : ℕ) (q : TranslationQueue) → IsValid q → IsValid (get_locked now q).1
  get_locked-IsValid now q v = elim (get_locked-Got now q) [
    | Got.nothing _ e ↦ rw e v
    | Got.taken item rest pop e ↦ rw e (popped-IsValid now q item rest pop v)
  ]

  -- What the other tasks do while `get` waits keeps the invariant.
  abbrev pub AreValid : List Wake → Type 0
  AreValid = All (λ w. (q : TranslationQueue) → IsValid q → IsValid (w.others q))

  -- Whatever valid changes other tasks make while it waits, `get` keeps the invariant.
  pub get-IsValid :
      (ws : List Wake) (now : ℕ) (q : TranslationQueue)
      → AreValid ws
      → IsValid q
      → IsValid (get ws now q).1
  unfolding get
  get-IsValid [] now q a v = elim (Bool-cases (q.size == 0)) [
    | inl none_left ↦ rw none_left v
    | inr some_left ↦ rw some_left (get_locked-IsValid now q v)
  ]
  get-IsValid (w ∷ ws) now q a v = elim (Bool-cases (q.size == 0)) [
    | inl none_left ↦ elim (Bool-cases w.timed_out) [
      | inl late ↦ rw (none_left, late) (a.0 q v)
      | inr woken ↦ rw (none_left, woken) (get-IsValid ws w.now (w.others q) a.1 (a.0 q v))
    ]
    | inr some_left ↦ rw some_left (get_locked-IsValid now q v)
  ]

  pub reset_metrics-IsValid : (q : TranslationQueue) → IsValid q → IsValid (reset_metrics q)
  unfolding reset_metrics
  reset_metrics-IsValid q v = record {
    sized = v.sized;
    signalled = v.signalled;
    tiers = refl;
    is_heap = v.is_heap;
  }
