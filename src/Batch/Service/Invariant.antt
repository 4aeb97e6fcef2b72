-- ===== src/Batch/Service/Invariant.antt =====
-- The account of every request through all interleavings of the batch service.
use unitra_service_api.Common.{
  ℕ, ◌≤◌, ◌<◌, ◌≡◌, refl, ap, sym, ◌∙◌, true, false, List, [], ◌∷◌, ◌⊎◌, All, arith, inl, inr,
}
use unitra_service_api.Batch.Queue.{Heap, new_queue, waiting}
use unitra_service_api.Batch.Process.{Future, is_done, new_batcher}
use unitra_service_api.Batch.Service.{Task, System, new_service}
use unitra_service_api.Batch.Service.Steps.{Steps, queue_of}
use unitra_service_api.Batch.Service.Places.{copies, batch_of, held, places}
use unitra_service_api.Batch.Service.Evolution.{Evolves, Step-Evolves}

-- A service that was just made, and no futures.
unfoldable pub new_system : ℕ → ℕ → ℕ → System
unfolding new_service new_batcher new_queue
new_system num_workers max_retries window = record {
  service = new_service num_workers max_retries window;
  futures = λ _. Future.pending;
  next = 0;
}

-- A future that was not made is in no request, a request is in one place at most, and a future that
-- was made is done or has its request in one place.
pub record IsTracked (a : ℕ) (s : System) : Type 0 where
  pub fresh : s.next ≤ a → places a s ≡ 0
  pub once : places a s ≤ 1
  pub accounted : a < s.next → (is_done (s.futures a) ≡ true) ⊎ (places a s ≡ 1)

held-idle : (a : ℕ) (ws : List Task) → All (λ w. batch_of w ≡ []) ws → held a ws ≡ 0
held-idle a [] h = refl
held-idle a (w ∷ ws) h =
    let none_held : copies a (batch_of w) ≡ 0 = ap (copies a) h.0 in
    omega (arith, held-idle a ws h.1)

module _ (a : ℕ) where
  new_system-IsTracked : (n r w : ℕ) → IsTracked a (new_system n r w)
  unfolding new_system
  new_system-IsTracked n r w = record {
    fresh = λ l. refl;
    once = omega arith;
    accounted = λ l. omega arith;
  }

  Evolves-IsTracked : {s s' : System} → Evolves a s s' → IsTracked a s → IsTracked a s'
  Evolves-IsTracked {s} {s'} (Evolves.born was is f p) v =
      let none : places a s ≡ 0 = v.fresh (omega arith) in
      record { fresh = λ l. omega arith; once = omega arith; accounted = λ l. inr (omega arith) }
  Evolves-IsTracked {s} {s'} (Evolves.moved later made_before fewer stays absent kept) v =
      let once = v.once in
      record {
        fresh = λ l. let none : places a s ≡ 0 = v.fresh (omega arith) in omega arith;
        once = omega arith;
        accounted = λ l. elim kept [
          | inr d ↦ inl d
          | inl (f, p) ↦ elim (v.accounted (made_before l)) [
            | inl d ↦ inl (ap is_done f ∙ d)
            | inr one ↦ inr (p ∙ one)
          ]
        ];
      }

  evolution_final :
      {s s' : System} → Evolves a s s' → is_done (s.futures a) ≡ true → s'.futures a ≡ s.futures a
  evolution_final (Evolves.born was is f p) d = f
  evolution_final (Evolves.moved later made_before fewer stays absent kept) d = stays d

module _ ⦃H : Heap⦄ where
  Steps-IsTracked : (a : ℕ) (s₀ s : System) → Steps s₀ s → IsTracked a s₀ → IsTracked a s
  Steps-IsTracked a s₀ s (Steps.done _) v = v
  Steps-IsTracked a s₀ s (Steps.step {s' = before} earlier last) v =
      Evolves-IsTracked a (Step-Evolves a last) (Steps-IsTracked a s₀ before earlier v)

  pub reachable-IsTracked :
      (a num_workers max_retries window : ℕ) (s : System)
      → Steps (new_system num_workers max_retries window) s
      → IsTracked a s
  reachable-IsTracked a n r w s path =
      Steps-IsTracked a (new_system n r w) s path (new_system-IsTracked a n r w)

  -- Whatever the interleaving of submitters, workers, starts and graceful stops, a future that was
  -- made and is still pending has its request in exactly one place: once in the queue, or once in
  -- the batch of one worker.
  pub pending_in_one_place :
      (a num_workers max_retries window : ℕ) (s : System)
      → Steps (new_system num_workers max_retries window) s
      → a < s.next
      → s.futures a ≡ Future.pending
      → places a s ≡ 1
  pending_in_one_place a n r w s path made p =
      elim ((reachable-IsTracked a n r w s path).accounted made) [
        | inl d ↦ let no : false ≡ true = ap is_done (sym p) ∙ d in cc
        | inr one ↦ one
      ]

  -- When the queue is empty and no worker holds a batch, no submitter is left waiting, as long as no
  -- stop has cancelled a worker by force.
  idle_none_pending :
      (a num_workers max_retries window : ℕ) (s : System)
      → Steps (new_system num_workers max_retries window) s
      → waiting (queue_of s) ≡ []
      → All (λ w. batch_of w ≡ []) s.service.workers
      → a < s.next
      → is_done (s.futures a) ≡ true
  idle_none_pending a n r w s path empty idle made =
      elim ((reachable-IsTracked a n r w s path).accounted made) [
        | inl d ↦ d
        | inr one ↦
            let none_queued : copies a (waiting (queue_of s)) ≡ 0 = ap (copies a) empty in
            let none_held = held-idle a s.service.workers idle in
            let no : ⊥ = omega arith in elim no [ ]
      ]

  -- Through any steps of the service, a future that is done keeps its outcome: a result is never
  -- replaced by an exception, by a cancellation or by another result.
  pub outcome_final :
      (a : ℕ) (s s' : System)
      → Steps s s'
      → is_done (s.futures a) ≡ true
      → s'.futures a ≡ s.futures a
  outcome_final a s s' (Steps.done _) d = refl
  outcome_final a s s' (Steps.step {s' = before} earlier last) d =
      let so_far = outcome_final a s before earlier d in
      evolution_final a (Step-Evolves a last) (ap is_done so_far ∙ d) ∙ so_far
