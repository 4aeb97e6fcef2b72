-- ===== src/Batch/Service/Workers.antt =====
-- What a step of one worker does to the requests and their futures.
use mathlib.Core.List.Perm
use unitra_service_api.Common.{
  ℕ, ◌+◌, ◌≤◌, ◌≡◌, ◌≢◌, refl, ap, ◌∙◌, true, Option, none, some, List, [], ◌∷◌, ◌++◌, ◌==◌, ◌⊎◌,
  arith, Bool-cases, inl, inr,
}
use unitra_service_api.Batch.Request.{TranslationRequest}
use unitra_service_api.Batch.Queue.{TranslationQueue, Heap, get_locked, waiting}
use unitra_service_api.Batch.Collect.{Tick, Round, after_get}
use unitra_service_api.Batch.Collect.Loop.{Keeps}
use unitra_service_api.Batch.Collect.Conservation.{
  IsQuiet, Splits, split_of_eq, Holds, after_get-Holds,
}
use unitra_service_api.Batch.Queue.Fairness.{get_locked_parts}
use unitra_service_api.Batch.Processor.{Result}
use unitra_service_api.Batch.Process.{BatchResult, Futures, is_done, Timing, process_collected}
use unitra_service_api.Batch.Process.Delivery.{
  AllDone, process_collected-AllDone, process_collected_keeps_done,
}
use unitra_service_api.Batch.Process.Others.{
  Apart, process_collected-Apart, process_collected_queue,
}
use unitra_service_api.Batch.Service.{
  Task, BatchTranslationService, System, next_test, record_result,
}
use unitra_service_api.Batch.Service.Steps.{
  Work, still, collected, queue_left, handle_outcome, process, queue_of, in_queue,
}
use unitra_service_api.Batch.Service.Places.{
  points, copies, batch_of, queued, sum-map_append, copies-perm,
}

-- The request of `a` stands as often in the queue and in this worker's batch as before, and its
-- future is as it was; or its future is done, and it stands there at most as often.
pub record Moves (a : ℕ) (w : Task) (s : System) (w' : Task) (s' : System) : Type 0 where
  pub next : s'.next ≡ s.next
  pub fewer : queued a s' + copies a (batch_of w') ≤ queued a s + copies a (batch_of w)
  pub done_stays : is_done (s.futures a) ≡ true → s'.futures a ≡ s.futures a
  pub absent : copies a (batch_of w) ≡ 0 → s'.futures a ≡ s.futures a
  pub kept_or_done :
      ((s'.futures a ≡ s.futures a)
        × (queued a s' + copies a (batch_of w') ≡ queued a s + copies a (batch_of w)))
      ⊎ (is_done (s'.futures a) ≡ true)

-- A step that touches no future and keeps the count.
kept :
    (a : ℕ) (w w' : Task) (s s' : System)
    → s'.next ≡ s.next
    → s'.futures ≡ s.futures
    → queued a s' + copies a (batch_of w') ≡ queued a s + copies a (batch_of w)
    → Moves a w s w' s'
kept a w w' s s' n f c =
    let same = ap (λ fs. fs a) f in
    record {
      next = n;
      fewer = omega arith;
      done_stays = λ d. same;
      absent = λ z. same;
      kept_or_done = inl (same, c);
    }

copies-Apart : (a : ℕ) (qs : List TranslationRequest) → copies a qs ≡ 0 → Apart a qs
copies-Apart a [] z = tt
copies-Apart a (q ∷ qs) z = elim (Bool-cases (q.future == a)) [
  | inl e ↦ let z' : 1 + copies a qs ≡ 0 = rw e at z in let bad : ⊥ = omega arith in elim bad [ ]
  | inr e ↦ let z' = rw e at z in (ground arith, copies-Apart a qs (omega arith))
]

copies-AllDone :
    (a : ℕ) (qs : List TranslationRequest) (fs : Futures)
    → copies a qs ≢ 0
    → AllDone qs fs
    → is_done (fs a) ≡ true
copies-AllDone a [] fs z d = elim (z refl) [ ]
copies-AllDone a (q ∷ qs) fs z d = elim (Bool-cases (q.future == a)) [
  | inl e ↦ let same : q.future ≡ a = ground arith in rw (← same) d.0
  | inr e ↦ let z' : 0 + copies a qs ≢ 0 = rw e at z in copies-AllDone a qs fs (omega arith) d.1
]

pub handle_outcome_lem :
    (clock : ℕ → ℕ) (o : Result (Option BatchResult)) (s : BatchTranslationService)
    → (batch_of (handle_outcome clock o s).0 ≡ [])
      × ((handle_outcome clock o s).1.batcher ≡ s.batcher)
unfolding handle_outcome record_result
handle_outcome_lem clock (Result.err e) s = (refl, refl)
handle_outcome_lem clock (Result.ok none) s = (refl, refl)
handle_outcome_lem clock (Result.ok (some r)) s = (refl, refl)

process-Moves :
    (a : ℕ) (clock : ℕ → ℕ) (t : Timing) (batch : List TranslationRequest) (s : System)
    → Moves a (Task.processing batch) s (process clock t batch s).0 (process clock t batch s).1
unfolding process
process-Moves a clock t batch s =
    let b = s.service.batcher in
    let o = (process_collected t batch b s.futures).0 in
    let b' = (process_collected t batch b s.futures).1 in
    let service : BatchTranslationService = record s.service { batcher = b' } in
    let (nothing_held, same_batcher) = handle_outcome_lem clock o service in
    let none_held : copies a (batch_of (handle_outcome clock o service).0) ≡ 0 =
      ap (copies a) nothing_held in
    let same_queue : queued a (process clock t batch s).1 ≡ queued a s =
      ap (λ z. copies a (waiting z.queue)) same_batcher
      ∙ ap (λ z. copies a (waiting z)) (process_collected_queue t batch b s.futures) in
    let alone : copies a batch ≡ 0 → (process_collected t batch b s.futures).2 a ≡ s.futures a =
      λ z. process_collected-Apart t batch b s.futures a (copies-Apart a batch z) in
    record {
      next = refl;
      fewer = omega arith;
      done_stays = λ d. process_collected_keeps_done t batch b s.futures a d;
      absent = alone;
      kept_or_done = elim (Bool-cases (copies a batch == 0)) [
        | inl z ↦ let z' : copies a batch ≡ 0 = ground arith in inl (alone z', omega arith)
        | inr z ↦ inr (
            copies-AllDone a batch _ (ground arith) (process_collected-AllDone t batch b s.futures))
      ];
    }

next_test-batch : (s : BatchTranslationService) → batch_of (next_test s) ≡ []
unfolding next_test
next_test-batch s = elim (Bool-cases s.running) [ inl e ↦ rw e refl | inr e ↦ rw e refl ]

module _ ⦃H : Heap⦄ (a : ℕ) (first : TranslationRequest) (start most : ℕ) where
  -- What a round leaves to the worker and to the queue is what it held.
  collected-copies :
      (o : Round) (all : List TranslationRequest)
      → Keeps (Holds first start most all) o
      → copies a (waiting (queue_left o)) + copies a (batch_of (collected first start most o))
        ≡ copies a all
  collected-copies (Round.complete batch q) all h =
      omega (arith, copies-perm a h, sum-map_append (points a) batch (waiting q))
  collected-copies (Round.go_on batch q) all h =
      omega (arith, copies-perm a h, sum-map_append (points a) batch (waiting q))

  got-copies :
      (t : Tick) (batch : List TranslationRequest) (s : System)
      (g : Option TranslationRequest × TranslationQueue)
      → (g ≡ (none, queue_of s)) ⊎ (get_locked t.got_at (queue_of s) ≡ g)
      → let o = after_get first start most (still t) batch g in
        copies a (waiting (queue_left o)) + copies a (batch_of (collected first start most o))
        ≡ queued a s + copies a batch
  got-copies t batch s g h =
      let q = queue_of s in
      let splits : Splits (waiting q) g = elim h [
        | inl e ↦ rw e (Perm.refl _)
        | inr e ↦ split_of_eq t.got_at q g e
      ] in
      let quiet : IsQuiet (still t) = record { no_wake = refl; still = λ z. refl } in
      omega (
        arith,
        collected-copies (after_get first start most (still t) batch g) (batch ++ waiting q) (
            after_get-Holds first start most (batch ++ waiting q) (still t) batch q g quiet
              (Perm.refl _) splits),
        sum-map_append (points a) batch (waiting q),
      )

module _ ⦃H : Heap⦄ (a : ℕ) where
  -- Every step of a worker moves requests between the queue and its batch, or settles them.
  pub Work-Moves :
      {w : Task} {s : System} {w' : Task} {s' : System} → Work w s w' s' → Moves a w s w' s'
  Work-Moves (Work.tests s) =
      kept a Task.ready (next_test s.service) s s refl refl
        (ap (λ z. queued a s + copies a z) (next_test-batch s.service))
  Work-Moves (Work.takes now start r q s e) =
      kept a Task.waiting_first (Task.collecting r start _ (r ∷ [])) s (in_queue q s) refl refl
        (omega (arith, copies-perm a (get_locked_parts now (queue_of s) q r e).0))
  Work-Moves (Work.times_out s) = kept a Task.waiting_first Task.ready s s refl refl refl
  Work-Moves (Work.completes t first start most batch s e) =
      kept a (Task.collecting first start most batch) (Task.processing batch) s s refl refl refl
  Work-Moves (Work.asks_more t first start most batch s e) =
      kept a (Task.collecting first start most batch) (Task.getting first start most batch t) s s
        refl refl refl
  Work-Moves (Work.gets t first start most batch s g h) =
      kept a (Task.getting first start most batch t) _ s _ refl refl
        (got-copies a first start most t batch s g h)
  Work-Moves (Work.processes clock t batch s) = process-Moves a clock t batch s
  Work-Moves (Work.wakes s) = kept a Task.pausing Task.ready s s refl refl refl
