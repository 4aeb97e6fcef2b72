-- ===== src/Batch/Service/Steps.antt =====
-- The interleavings of the batch service: its workers, as `_worker_loop` of
-- app/services/batch/__init__.py runs them on the one shared batcher, the callers of `translate`,
-- `start` and `stop`. A step is what one task does between two awaits.
use unitra_service_api.Common.{
  ℕ, ◌<◌, ◌≡◌, refl, Bool, true, false, ◌&&◌, not, Option, none, some, List, [], ◌∷◌, ◌++◌, ◌⊎◌,
  All, ltb, length, if◌then◌else◌, Bool-cases, inl, inr,
}
use unitra_service_api.Batch.Config.{tier_configs}
use unitra_service_api.Batch.Request.{TranslationRequest}
use unitra_service_api.Batch.Queue.{TranslationQueue, Heap, get, get_locked}
use unitra_service_api.Batch.Collect.{
  Tick, Round, effective_max, expired, interrupted, after_get, round,
}
use unitra_service_api.Batch.Processor.{Result}
use unitra_service_api.Batch.Process.{BatchResult, Future, Timing, settle, process_collected}
use unitra_service_api.Batch.Service.{
  Task, BatchTranslationService, System, Submission, start, stop, clear_workers, next_test,
  record_result, with_queue, submit,
}

module _ ⦃H : Heap⦄ (first : TranslationRequest) (start_time most : ℕ) where
  -- A round of the collection comes to its `get`.
  unfoldable pub asks : Tick → List TranslationRequest → TranslationQueue → Bool
  asks t batch q =
      ltb (length batch) most
      && not (expired first start_time most t)
      && not (interrupted first start_time most t batch q)

  -- The two parts of a round are the round: its tests, and what follows the `get`.
  pub round-asks :
      (t : Tick) (batch : List TranslationRequest) (q : TranslationQueue)
      → round first start_time most t batch q ≡ (
          if asks t batch q
          then after_get first start_time most t batch (get t.wakes t.got_at q)
          else Round.complete batch q)
  unfolding round asks
  round-asks t batch q = elim (Bool-cases (ltb (length batch) most)) [
    | inr e ↦ rw e refl
    | inl e ↦ elim (Bool-cases (expired first start_time most t)) [
      | inl late ↦ rw (e, late) refl
      | inr early ↦ elim (Bool-cases (interrupted first start_time most t batch q)) [
        | inl i ↦ rw (e, early, i) refl
        | inr i ↦ rw (e, early, i) refl
      ]
    ]
  ]

-- The round's clocks; what others do during its sleep are steps of their own.
abbrev pub still : Tick → Tick
still t = record t { wakes = []; others = λ q. q }

abbrev pub collected : TranslationRequest → ℕ → ℕ → Round → Task
collected first start_time most (Round.complete batch q) = Task.processing batch
collected first start_time most (Round.go_on batch q) = Task.collecting first start_time most batch

abbrev pub queue_left : Round → TranslationQueue
queue_left (Round.complete batch q) = q
queue_left (Round.go_on batch q) = q

-- What a worker does when `collect_and_process` has returned or raised.
unfoldable pub handle_outcome :
    (ℕ → ℕ) → Result (Option BatchResult) → BatchTranslationService → Task × BatchTranslationService
handle_outcome clock (Result.err e) s = (Task.pausing, s)
handle_outcome clock (Result.ok none) s = (Task.ready, s)
handle_outcome clock (Result.ok (some r)) s = (Task.ready, record_result clock r s)

-- The reply of the processor has come: results go out, metrics are recorded.
unfoldable pub process : (ℕ → ℕ) → Timing → List TranslationRequest → System → Task × System
unfolding handle_outcome
process clock t batch s =
    let (outcome, b, futures) = process_collected t batch s.service.batcher s.futures in
    let (task, service) = handle_outcome clock outcome (record s.service { batcher = b }) in
    (task, record s { service = service; futures = futures })

abbrev pub queue_of : System → TranslationQueue
queue_of s = s.service.batcher.queue

abbrev pub in_queue : TranslationQueue → System → System
in_queue q s = record s { service = with_queue q s.service }

module _ ⦃H : Heap⦄ where
  -- A step of one worker. A wait in `get` ends when the queue is popped under its lock, or by its
  -- timeout.
  pub data Work : Task → System → Task → System → Type 0 where
    tests : (s : System) → Work Task.ready s (next_test s.service) s
    takes :
        (now start_time : ℕ) (r : TranslationRequest) (q : TranslationQueue) (s : System)
        → get_locked now (queue_of s) ≡ (some r, q)
        → Work Task.waiting_first s
            (Task.collecting r start_time
              (effective_max s.service.batcher.adaptive_sizing (tier_configs r.tier) q)
              (r ∷ []))
            (in_queue q s)
    times_out : (s : System) → Work Task.waiting_first s Task.ready s
    completes :
        (t : Tick) (first : TranslationRequest) (start_time most : ℕ)
        (batch : List TranslationRequest) (s : System)
        → asks first start_time most t batch (queue_of s) ≡ false
        → Work (Task.collecting first start_time most batch) s (Task.processing batch) s
    asks_more :
        (t : Tick) (first : TranslationRequest) (start_time most : ℕ)
        (batch : List TranslationRequest) (s : System)
        → asks first start_time most t batch (queue_of s) ≡ true
        → Work
            (Task.collecting first start_time most batch)
            s
            (Task.getting first start_time most batch t)
            s
    gets :
        (t : Tick) (first : TranslationRequest) (start_time most : ℕ)
        (batch : List TranslationRequest) (s : System)
        (g : Option TranslationRequest × TranslationQueue)
        → (g ≡ (none, queue_of s)) ⊎ (get_locked t.got_at (queue_of s) ≡ g)
        → Work
            (Task.getting first start_time most batch t)
            s
            (collected first start_time most (after_get first start_time most (still t) batch g))
            (in_queue (queue_left (after_get first start_time most (still t) batch g)) s)
    processes :
        (clock : ℕ → ℕ) (t : Timing) (batch : List TranslationRequest) (s : System)
        → Work (Task.processing batch) s (process clock t batch s).0 (process clock t batch s).1
    wakes : (s : System) → Work Task.pausing s Task.ready s

  -- Steps of one worker while no other task runs.
  pub data Works : Task → System → Task → System → Type 0 where
    here : (w : Task) (s : System) → Works w s w s
    then_works :
        {w : Task} {s : System} {w₁ : Task} {s₁ : System} {w₂ : Task} {s₂ : System}
        → Work w s w₁ s₁
        → Works w₁ s₁ w₂ s₂
        → Works w s w₂ s₂

  abbrev pub with_workers : List Task → System → System
  with_workers tasks s = record s { service = record s.service { workers = tasks } }

  pub data Step : System → System → Type 0 where
    -- a call of `translate` on a running service
    submits : (c : Submission) (s : System) → Step s (submit c s).1
    -- its timeout, on any future that was made
    gives_up :
        (a : ℕ) (s : System)
        → a < s.next
        → Step s (record s { futures = settle a Future.cancelled s.futures })
    starts : (s : System) → Step s (record s { service = start s.service })
    stops : (s : System) → Step s (record s { service = stop s.service })
    -- `stop` when its workers have finished in time
    joins :
        (s : System)
        → s.service.running ≡ false
        → All (λ w. w ≡ Task.finished) s.service.workers
        → Step s (record s { service = clear_workers s.service })
    works :
        (before after : List Task) (w w' : Task) (s s' : System)
        → s.service.workers ≡ before ++ w ∷ after
        → Work w s w' s'
        → Step s (with_workers (before ++ w' ∷ after) s')

  pub data Steps : System → System → Type 0 where
    done : (s : System) → Steps s s
    step : {s s' s'' : System} → Steps s s' → Step s' s'' → Steps s s''

-- `stop` when its wait timed out: the workers are cancelled. `CancelledError` is no `Exception`, so
-- no handler of `collect_and_process` settles the futures of the batch that a worker holds.
unfoldable pub force_cancel : System → System
force_cancel s = record s { service = clear_workers s.service }
