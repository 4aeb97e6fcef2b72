-- ===== src/Batch/Queue/Content.antt =====
-- What each operation of the queue does to the requests that wait, as permutations, and that `get`
-- takes one of the most urgent.
use mathlib.Core.Logic.{∥∥₁_elim}
use mathlib.Core.List.{
  Mem, Perm, mem-map, mem-cons, mem-cons_self, not-mem-nil, perm_middle, mem-cons_of_mem,
}
use mathlib.Core.List.Perm
use mathlib.Core.Logic.Or
use mathlib.Core.Path.{subst}
use native.Mathlib.Bridge.{le_prop}
use unitra_service_api.Common.{ℕ, ◌≡◌, refl, none, some, List, [], ◌∷◌, ◌++◌, map, append-nil}
use unitra_service_api.Common.Int.{ℤ_set, ◌≤ℤ◌}
use unitra_service_api.Batch.Request.{TranslationRequest, PrioritizedRequest, get_priority}
use unitra_service_api.Batch.Queue.{
  TranslationQueue, Heap, put, updated, push_all, reheapify, popped, get_locked, waiting,
}

module _ ⦃H : Heap⦄ where
  pub put-perm :
      (now : ℕ) (r : TranslationRequest) (q : TranslationQueue)
      → Perm (waiting (put now r q)) (r ∷ waiting q)
  unfolding put
  put-perm now r q = Perm.map (λ p. p.request) (H.heappush-perm q.heap _)

  pub push_all-perm : (h ps : List PrioritizedRequest) → Perm (push_all h ps) (ps ++ h)
  unfolding push_all
  push_all-perm h [] = Perm.refl h
  push_all-perm h (p ∷ ps) =
      Perm.trans (push_all-perm (H.heappush h p) ps)
        (Perm.trans (Perm.append_left ps (H.heappush-perm h p)) (perm_middle ps h))

  pub push_all-IsHeap : (h ps : List PrioritizedRequest) → H.IsHeap h → H.IsHeap (push_all h ps)
  unfolding push_all
  push_all-IsHeap h [] i = i
  push_all-IsHeap h (p ∷ ps) i = push_all-IsHeap (H.heappush h p) ps (H.heappush-IsHeap h p i)

  updated_requests :
      (boost now : ℕ) (ps : List PrioritizedRequest)
      → map (λ p. p.request) (updated boost now ps) ≡ map (λ p. p.request) ps
  unfolding updated
  updated_requests boost now [] = refl
  updated_requests boost now (p ∷ ps) = rw (updated_requests boost now ps)

  pub reheapify-perm :
      (now : ℕ) (q : TranslationQueue) → Perm (waiting (reheapify now q)) (waiting q)
  unfolding reheapify
  reheapify-perm now q =
      let ps = updated q.starvation_boost now q.heap in
      let p : Perm (push_all [] ps) ps = rw append-nil at (push_all-perm [] ps) in
      rw (updated_requests q.starvation_boost now q.heap) at (Perm.map (λ x. x.request) p)

  -- Every stored priority is the one of this moment.
  abbrev IsFresh : ℕ → ℕ → List PrioritizedRequest → Type 0
  IsFresh boost now ps =
      (p : PrioritizedRequest) → Mem p ps → p.priority ≡ get_priority boost now p.request

  updated-IsFresh :
      (boost now : ℕ) (ps : List PrioritizedRequest) → IsFresh boost now (updated boost now ps)
  unfolding updated
  updated-IsFresh boost now [] p m = absurd (not-mem-nil m)
  updated-IsFresh boost now (x ∷ ps) p m =
      Or.elim (ℤ_set _ _) (mem-cons.0 m) (λ e. rw e) (updated-IsFresh boost now ps p)

  -- The two outcomes of the critical section of `get`.
  pub data Got (now : ℕ) (q : TranslationQueue) : Type 0 where
    nothing : q.heap ≡ [] → get_locked now q ≡ (none, q) → Got now q
    taken :
        (item : PrioritizedRequest) (rest : List PrioritizedRequest)
        → H.heappop (reheapify now q).heap ≡ some (item, rest)
        → get_locked now q ≡ (some item.request, popped rest (reheapify now q))
        → Got now q

  -- On a queue that holds something, whose rebuilt heap is known to pop `item`.
  taken_of_pop :
      (now : ℕ) (q : TranslationQueue) (p : PrioritizedRequest) (ps : List PrioritizedRequest)
      → q.heap ≡ p ∷ ps
      → (h : List PrioritizedRequest) → (reheapify now q).heap ≡ h
      → Perm h (updated q.starvation_boost now (p ∷ ps))
      → Got now q
  unfolding get_locked updated
  taken_of_pop now q p ps e [] f perm = absurd (cc (Perm.nil-eq perm))
  taken_of_pop now q p ps e (x ∷ h) f perm =
      let (item, rest, pop) = H.heappop-cons x h in
      Got.taken item rest (rw f pop)
        (rw (e, get_locked) (rw (f, get_locked) (rw (pop, get_locked) refl)))

  reheapify-updated :
      (now : ℕ) (q : TranslationQueue)
      → Perm (reheapify now q).heap (updated q.starvation_boost now q.heap)
  unfolding reheapify
  reheapify-updated now q =
      rw append-nil at (push_all-perm [] (updated q.starvation_boost now q.heap))

  Got-of_heap :
      (now : ℕ) (q : TranslationQueue) (h : List PrioritizedRequest) → q.heap ≡ h → Got now q
  unfolding get_locked
  Got-of_heap now q [] e = Got.nothing e (simp (e, get_locked))
  Got-of_heap now q (p ∷ ps) e = taken_of_pop now q p ps e (reheapify now q).heap refl (
      subst (λ z. Perm (reheapify now q).heap (updated q.starvation_boost now z)) e
        (reheapify-updated now q))

  pub get_locked-Got : (now : ℕ) (q : TranslationQueue) → Got now q
  get_locked-Got now q = Got-of_heap now q q.heap refl

  -- What a `get` hands out and what it leaves were waiting together before.
  pub taken-perm :
      (now : ℕ) (q : TranslationQueue) (item : PrioritizedRequest) (rest : List PrioritizedRequest)
      → H.heappop (reheapify now q).heap ≡ some (item, rest)
      → Perm (item.request ∷ map (λ p. p.request) rest) (waiting q)
  taken-perm now q item rest pop =
      Perm.trans (Perm.map (λ p. p.request) (H.heappop-perm (reheapify now q).heap pop))
        (reheapify-perm now q)

  reheapify-IsFresh :
      (now : ℕ) (q : TranslationQueue) → IsFresh q.starvation_boost now (reheapify now q).heap
  reheapify-IsFresh now q p m =
      updated-IsFresh q.starvation_boost now q.heap p ((Perm.mem_iff (reheapify-updated now q)).0 m)

  pub reheapify-IsHeap : (now : ℕ) (q : TranslationQueue) → H.IsHeap (reheapify now q).heap
  unfolding reheapify
  reheapify-IsHeap now q = push_all-IsHeap [] (updated q.starvation_boost now q.heap) H.nil-IsHeap

  -- The request that `get` takes is as urgent, at that time, as any that it leaves.
  pub taken-least :
      (now : ℕ) (q : TranslationQueue) (item : PrioritizedRequest) (rest : List PrioritizedRequest)
      → H.heappop (reheapify now q).heap ≡ some (item, rest)
      → (r : TranslationRequest) → Mem r (map (λ p. p.request) rest)
      → get_priority q.starvation_boost now item.request ≤ℤ get_priority q.starvation_boost now r
  taken-least now q item rest pop r m = ∥∥₁_elim (mem-map.0 m) le_prop λ (p, in_rest, e).
      let perm = H.heappop-perm (reheapify now q).heap pop in
      let fresh = reheapify-IsFresh now q in
      let item_fresh = fresh item ((Perm.mem_iff perm).0 mem-cons_self) in
      let p_fresh = fresh p ((Perm.mem_iff perm).0 (mem-cons_of_mem item in_rest)) in
      let least = H.heappop-least (reheapify now q).heap (reheapify-IsHeap now q) pop p in_rest in
      rw (← e, ← item_fresh, ← p_fresh) least
