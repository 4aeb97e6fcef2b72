-- ===== src/Batch/Queue/Fairness.antt =====
-- What the caller of `get` can rely on: the request it receives, what stays, and for how long a
-- request can be passed over.
use mathlib.Core.List.{Mem, Perm}
use unitra_service_api.Common.{ℕ, ◌+◌, ◌≤◌, ◌≡◌, some, List, ◌∷◌}
use unitra_service_api.Common.Int.{◌≤ℤ◌}
use unitra_service_api.Batch.Request.{
  TranslationRequest, PrioritizedRequest, get_priority, default_boost,
}
use unitra_service_api.Batch.Queue.{TranslationQueue, Heap, reheapify, popped, get_locked, waiting}
use unitra_service_api.Batch.Queue.Priority.{overtaking_bound}
use unitra_service_api.Batch.Queue.Content.{Got, get_locked-Got, taken-perm, taken-least}

module _ ⦃H : Heap⦄ where
  -- The parts of a successful `get`.
  pub get_locked-some :
      (now : ℕ) (q q' : TranslationQueue) (r : TranslationRequest)
      → get_locked now q ≡ (some r, q')
      → (item : PrioritizedRequest) × (rest : List PrioritizedRequest) × (H.heappop
            (reheapify now q).heap
          ≡ some (item, rest))
        × (item.request ≡ r)
        × (popped rest (reheapify now q) ≡ q')
  get_locked-some now q q' r e = elim (get_locked-Got now q) [
    | Got.nothing _ f ↦ cc
    | Got.taken item rest pop f ↦ (item, rest, pop, cc, cc)
  ]

  -- What a `get` hands out and leaves, and that nothing it leaves is more urgent.
  pub get_locked_parts :
      (now : ℕ) (q q' : TranslationQueue) (r : TranslationRequest)
      → get_locked now q ≡ (some r, q')
      → Perm (r ∷ waiting q') (waiting q)
        × ((other : TranslationRequest)
            → Mem other (waiting q')
            → get_priority q.starvation_boost now r ≤ℤ get_priority q.starvation_boost now other)
  unfolding popped
  get_locked_parts now q q' r e =
      let (item, rest, pop, is_r, is_q') = get_locked-some now q q' r e in
      rw (← is_r, ← is_q') (taken-perm now q item rest pop, taken-least now q item rest pop)

  -- A `get` under the lock takes out exactly the request that it returns, and no request that it
  -- leaves behind is more urgent at that time.
  pub get_locked_most_urgent :
      (now : ℕ) (q q' : TranslationQueue) (r other : TranslationRequest)
      → get_locked now q ≡ (some r, q')
      → Mem other (waiting q')
      → Perm (r ∷ waiting q') (waiting q)
        × (get_priority q.starvation_boost now r ≤ℤ get_priority q.starvation_boost now other)
  get_locked_most_urgent now q q' r other e m =
      let parts = get_locked_parts now q q' r e in (parts.0, parts.1 other m)

  -- No starvation: at the default boost, a request that `get` leaves behind arrived at most six
  -- seconds before the one that it returns, whatever their tiers.
  pub get_locked_overtaking_bound :
      (now : ℕ) (q q' : TranslationQueue) (r other : TranslationRequest)
      → q.starvation_boost ≡ default_boost
      → get_locked now q ≡ (some r, q')
      → Mem other (waiting q')
      → r.timestamp ≤ other.timestamp + 6000000
  get_locked_overtaking_bound now q q' r other boost e m =
      overtaking_bound now r other (rw boost at (get_locked_most_urgent now q q' r other e m).1)
