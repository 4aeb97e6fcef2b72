-- ===== src/Batch/Service/Evolution.antt =====
-- What one step of the batch service does to the request of one future.
use unitra_service_api.Common.{
  ℕ, zero, suc, ◌+◌, ◌≤◌, ◌<◌, ◌≡◌, ◌≢◌, refl, ap, ◌∙◌, true, List, [], ◌∷◌, ◌++◌, ◌==◌, ◌⊎◌, All,
  arith, Bool-cases, inl, inr,
}
use unitra_service_api.Batch.Queue.{Heap, waiting}
use unitra_service_api.Batch.Queue.Content.{put-perm}
use unitra_service_api.Batch.Process.{Future, is_done, settle}
use unitra_service_api.Batch.Process.Settling.{settle_done}
use unitra_service_api.Batch.Service.{
  Task, BatchTranslationService, System, Submission, request_of, accept, submit, start, stop,
  clear_workers, create_tasks,
}
use unitra_service_api.Batch.Service.Steps.{Step, queue_of, with_workers}
use unitra_service_api.Batch.Service.Places.{
  points, copies, batch_of, held, queued, places, sum-map_append, copies-perm, held-middle,
}
use unitra_service_api.Batch.Service.Workers.{Moves, Work-Moves}

-- What a step does to the request of `a`: it is submitted, or it is moved about.
pub data Evolves (a : ℕ) (s s' : System) : Type 0 where
  born :
      s.next ≡ a
      → s'.next ≡ a + 1
      → s'.futures a ≡ s.futures a
      → places a s' ≡ places a s + 1
      → Evolves a s s'
  moved :
      s.next ≤ s'.next
      → (a < s'.next → a < s.next)
      → places a s' ≤ places a s
      → (is_done (s.futures a) ≡ true → s'.futures a ≡ s.futures a)
      → (places a s ≡ 0
          → (s'.futures a ≡ s.futures a) ⊎ ((a < s.next) × (s'.futures a ≡ Future.cancelled)))
      → ((s'.futures a ≡ s.futures a) × (places a s' ≡ places a s))
        ⊎ (is_done (s'.futures a) ≡ true)
      → Evolves a s s'

-- A step that leaves the future of `a` and the number of its places alone.
still_there :
    (a : ℕ) (s s' : System)
    → s.next ≤ s'.next
    → (a < s'.next → a < s.next)
    → s'.futures a ≡ s.futures a
    → places a s' ≡ places a s
    → Evolves a s s'
still_there a s s' later same_side f p =
    Evolves.moved later same_side (omega arith) (λ d. f) (λ z. inl f) (inl (f, p))

held-create_tasks : (a n : ℕ) (ws : List Task) → held a (create_tasks n ws) ≡ held a ws
unfolding create_tasks
held-create_tasks a zero ws = refl
held-create_tasks a (suc n) ws = omega (
  arith,
  held-create_tasks a n (ws ++ Task.ready ∷ []),
  sum-map_append (λ v. copies a (batch_of v)) ws (Task.ready ∷ []),
)

held-start : (a : ℕ) (s : BatchTranslationService) → held a (start s).workers ≡ held a s.workers
unfolding start
held-start a s = elim (Bool-cases s.running) [
  | inl e ↦ rw e refl
  | inr e ↦ rw e (held-create_tasks a s.num_workers s.workers)
]

start-batcher : (s : BatchTranslationService) → (start s).batcher ≡ s.batcher
unfolding start
start-batcher s = elim (Bool-cases s.running) [ inl e ↦ rw e refl | inr e ↦ rw e refl ]

stop-keeps :
    (s : BatchTranslationService) → ((stop s).batcher ≡ s.batcher) × ((stop s).workers ≡ s.workers)
unfolding stop
stop-keeps s = elim (Bool-cases s.running) [ inl e ↦ rw e (refl, refl) | inr e ↦ rw e (refl, refl) ]

held-finished : (a : ℕ) (ws : List Task) → All (λ w. w ≡ Task.finished) ws → held a ws ≡ 0
held-finished a [] h = refl
held-finished a (w ∷ ws) h =
    let none_held : copies a (batch_of w) ≡ 0 = ap (λ v. copies a (batch_of v)) h.0 in
    omega (arith, held-finished a ws h.1)

module _ ⦃H : Heap⦄ (a : ℕ) where
  accept-Evolves : (c : Submission) (s : System) → Evolves a s (accept c s)
  unfolding accept
  accept-Evolves c s =
      let r = request_of c s.next in
      let queued_too : queued a (accept c s) ≡ points a r + queued a s =
        copies-perm a (put-perm c.put_at r (queue_of s)) in
      elim (Bool-cases (s.next == a)) [
        | inl n ↦
            let new : points a r ≡ 1 = rw n refl in
            let same : s.next ≡ a = ground arith in
            Evolves.born same (omega arith) refl (omega arith)
        | inr n ↦
            let other : points a r ≡ 0 = rw n refl in
            let apart : s.next ≢ a = ground arith in
            still_there a s (accept c s) (omega arith) (λ l. omega arith) refl (omega arith)
      ]

  submit-Evolves : (c : Submission) (s : System) → Evolves a s (submit c s).1
  unfolding submit
  submit-Evolves c s = elim (Bool-cases s.service.running) [
    | inr e ↦ simp e (still_there a s s (omega arith) (λ l. l) refl refl)
    | inl e ↦ simp e (accept-Evolves c s)
  ]

  gives_up-Evolves :
      (b : ℕ) (s : System)
      → b < s.next
      → Evolves a s (record s { futures = settle b Future.cancelled s.futures })
  unfolding settle
  gives_up-Evolves b s l = elim (Bool-cases (b == a)) [
    | inr n ↦ still_there a s _ (omega arith) (λ m. m) (rw n refl) refl
    | inl n ↦
        let same : b ≡ a = ground arith in
        elim (Bool-cases (is_done (s.futures a))) [
          | inl d ↦ still_there a s _ (omega arith) (λ m. m) (rw (n, d) refl) refl
          | inr d ↦
              let given : settle b Future.cancelled s.futures a ≡ Future.cancelled =
                rw (n, d) refl in
              Evolves.moved (omega arith) (λ m. m) (omega arith)
                (λ d'. settle_done b a Future.cancelled s.futures d')
                (λ z. inr (omega arith, given)) (inr (ap is_done given))
        ]
  ]

  work-Evolves :
      (before after : List Task) (w w' : Task) (s s' : System)
      → s.service.workers ≡ before ++ w ∷ after
      → Moves a w s w' s'
      → Evolves a s (with_workers (before ++ w' ∷ after) s')
  work-Evolves before after w w' s s' e m =
      let had : held a s.service.workers ≡ held a before + copies a (batch_of w) + held a after =
        ap (held a) e ∙ held-middle a before after w in
      let has = held-middle a before after w' in
      let fewer = m.fewer in
      let next = m.next in
      Evolves.moved (omega arith) (λ l. omega arith) (omega arith) m.done_stays
        (λ z. inl (m.absent (omega arith)))
        (elim m.kept_or_done [ inl k ↦ let count = k.1 in inl (k.0, omega arith) | inr d ↦ inr d ])

  pub Step-Evolves : {s s' : System} → Step s s' → Evolves a s s'
  unfolding clear_workers
  Step-Evolves (Step.submits c s) = submit-Evolves c s
  Step-Evolves (Step.gives_up b s l) = gives_up-Evolves b s l
  Step-Evolves (Step.starts s) =
      still_there a s _ (omega arith) (λ l. l) refl
        (let q : queued a (record s { service = start s.service }) ≡ queued a s =
            ap (λ b. copies a (waiting b.queue)) (start-batcher s.service) in
          omega (arith, held-start a s.service))
  Step-Evolves (Step.stops s) =
      still_there a s _ (omega arith) (λ l. l) refl
        (let (same, workers) = stop-keeps s.service in rw (same, workers) refl)
  Step-Evolves (Step.joins s stopping h) =
      still_there a s _ (omega arith) (λ l. l) refl
        (omega (arith, held-finished a s.service.workers h))
  Step-Evolves (Step.works before after w w' s s' e work) =
      work-Evolves before after w w' s s' e (Work-Moves a work)
