-- ===== src/Batch/Service/Collection.antt =====
-- `collect_batch` as a run of a worker's steps, which no other task interrupts.
use unitra_service_api.Common.{
  ℕ, ◌≡◌, refl, sym, ◌∙◌, true, false, Option, none, some, List, [], ◌∷◌, ◌⊎◌, ◌==◌, length, ltb,
  All, Bool-cases, inl, inr,
}
use unitra_service_api.Batch.Config.{tier_configs}
use unitra_service_api.Batch.Request.{TranslationRequest}
use unitra_service_api.Batch.Queue.{TranslationQueue, Heap, get, get_locked}
use unitra_service_api.Batch.Collect.{
  FirstWait, Tick, Round, expired, effective_max, after_get, round, collect_more, collect_from,
  collect_batch,
}
use unitra_service_api.Batch.Collect.Loop.{some_pair, collect_more-complete, collect_more-go_on}
use unitra_service_api.Batch.Collect.Conservation.{IsQuiet}
use unitra_service_api.Batch.Service.{Task, System}
use unitra_service_api.Batch.Service.Steps.{
  Work, Works, asks, round-asks, still, collected, queue_left, queue_of, in_queue,
}

-- The clocks of a test that reads none: the batch is full.
abbrev no_tick : Tick
no_tick = record {
  checked_at = 0;
  peeked_at = 0;
  compared_at = 0;
  wakes = [];
  got_at = 0;
  put_at = 0;
  others = λ q. q;
}

module _ ⦃H : Heap⦄ where
  -- How a `get` without wake-ups ends.
  get_ends :
      (now : ℕ) (q : TranslationQueue)
      → (get [] now q ≡ (none, q)) ⊎ (get_locked now q ≡ get [] now q)
  unfolding get
  get_ends now q = elim (Bool-cases (q.size == 0)) [
    | inl e ↦ inl (rw e refl)
    | inr e ↦ inr (rw e refl)
  ]

  module _ (first : TranslationRequest) (start most : ℕ) where
    after_get-still :
        (t : Tick) (batch : List TranslationRequest)
        (g : Option TranslationRequest × TranslationQueue)
        → IsQuiet t
        → after_get first start most t batch g ≡ after_get first start most (still t) batch g
    unfolding after_get expired
    after_get-still t batch (some r, q) quiet = refl
    after_get-still t batch (none, q) quiet = rw (quiet.still q) refl

    -- The worker ends its collection with what the round left.
    completed :
        (t : Tick) (batch : List TranslationRequest) (s : System)
        → asks first start most t batch (queue_of s) ≡ false
        → Works
            (Task.collecting first start most batch)
            s
            (Task.processing batch)
            (in_queue (queue_of s) s)
    completed t batch s e =
        Works.then_works (Work.completes t first start most batch s e)
          (Works.here (Task.processing batch) s)

    full_asks :
        (t : Tick) (batch : List TranslationRequest) (q : TranslationQueue)
        → ltb (length batch) most ≡ false
        → asks first start most t batch q ≡ false
    unfolding asks
    full_asks t batch q e = rw e refl

    asked :
        (t : Tick) (batch : List TranslationRequest) (q : TranslationQueue)
        → IsQuiet t
        → asks first start most t batch q ≡ true
        → round first start most t batch q
          ≡ after_get first start most (still t) batch (get [] t.got_at q)
    asked t batch q quiet e =
        round-asks first start most t batch q
        ∙ simp (e, quiet.no_wake) (after_get-still t batch (get [] t.got_at q) quiet)

    declined :
        (t : Tick) (batch : List TranslationRequest) (q : TranslationQueue)
        → asks first start most t batch q ≡ false
        → round first start most t batch q ≡ Round.complete batch q
    declined t batch q e = round-asks first start most t batch q ∙ rw e refl

    -- The worker makes one round, and what it makes of its outcome follows.
    one_round :
        (t : Tick) (batch batch' : List TranslationRequest) (s : System) (q' : TranslationQueue)
        (o : Round)
        → asks first start most t batch (queue_of s) ≡ true
        → after_get first start most (still t) batch (get [] t.got_at (queue_of s)) ≡ o
        → Works
            (collected first start most o)
            (in_queue (queue_left o) s)
            (Task.processing batch')
            (in_queue q' s)
        → Works (Task.collecting first start most batch) s (Task.processing batch') (in_queue q' s)
    one_round t batch batch' s q' o e f rest =
        Works.then_works (Work.asks_more t first start most batch s e) (
          Works.then_works
            (Work.gets t first start most batch s (get [] t.got_at (queue_of s))
              (get_ends t.got_at (queue_of s)))
            (rw f rest))

    -- The worker goes from its loop with one batch to the processing of another.
    abbrev Collects :
        List TranslationRequest → System → List TranslationRequest → TranslationQueue → Type 0
    Collects batch s batch' q' =
        Works (Task.collecting first start most batch) s (Task.processing batch') (in_queue q' s)

    module _ (t : Tick) (ts : List Tick) (batch batch' : List TranslationRequest) (s : System)
        (q' : TranslationQueue) (quiet : IsQuiet t)
        (e : collect_more first start most (t ∷ ts) batch (queue_of s) ≡ some (batch', q')) where
      declined_round :
          asks first start most t batch (queue_of s) ≡ false → Collects batch s batch' q'
      declined_round idle =
          some_pair (λ b q. Collects batch s b q)
            (sym (
                collect_more-complete first start most t ts batch batch (queue_of s) (queue_of s)
                  (declined t batch (queue_of s) idle))
              ∙ e)
            (completed t batch s idle)

      -- A round with the outcome `o`, and then what the rest of the ticks collects.
      asked_round :
          (o : Round)
          → asks first start most t batch (queue_of s) ≡ true
          → after_get first start most (still t) batch (get [] t.got_at (queue_of s)) ≡ o
          → ((b : List TranslationRequest) (q : TranslationQueue)
              → collect_more first start most ts b q ≡ some (batch', q')
              → Collects b (in_queue q s) batch' q')
          → Collects batch s batch' q'
      asked_round (Round.complete b q) asking f again =
          one_round t batch batch' s q' (Round.complete b q) asking f (
            some_pair
              (λ b' q₁.
                Works (Task.processing b) (in_queue q s) (Task.processing b') (in_queue q₁ s))
              (sym (
                  collect_more-complete first start most t ts batch b (queue_of s) q
                    (asked t batch (queue_of s) quiet asking ∙ f))
                ∙ e)
              (Works.here (Task.processing b) (in_queue q s)))
      asked_round (Round.go_on b q) asking f again =
          one_round t batch batch' s q' (Round.go_on b q) asking f (
            again b q (
              sym (
                collect_more-go_on first start most t ts batch b (queue_of s) q
                  (asked t batch (queue_of s) quiet asking ∙ f))
              ∙ e))

    collect_more-Collects :
        (ts : List Tick) (batch batch' : List TranslationRequest) (s : System)
        (q' : TranslationQueue)
        → All IsQuiet ts
        → collect_more first start most ts batch (queue_of s) ≡ some (batch', q')
        → Collects batch s batch' q'
    unfolding collect_more
    collect_more-Collects [] batch batch' s q' quiet e =
        elim (Bool-cases (ltb (length batch) most)) [
          | inl room ↦ let f = rw room at e in cc
          | inr full ↦
              some_pair (λ b q. Collects batch s b q) (rw full at e)
                (completed no_tick batch s (full_asks no_tick batch (queue_of s) full))
        ]
    collect_more-Collects (t ∷ ts) batch batch' s q' quiet e =
        elim (Bool-cases (asks first start most t batch (queue_of s))) [
          | inr idle ↦ declined_round t ts batch batch' s q' quiet.0 e idle
          | inl asking ↦
              asked_round t ts batch batch' s q' quiet.0 e _ asking refl
                λ b q h. collect_more-Collects ts b batch' (in_queue q s) q' quiet.1 h
        ]

  -- A worker that waits for a first request and that no other task interrupts goes, in steps of the
  -- service, to the processing of exactly the batch that `collect_batch` collects from the queue,
  -- and leaves the queue as `collect_batch` does.
  pub collect_batch-Works :
      (w : FirstWait) (ts : List Tick) (s : System) (first : TranslationRequest)
      (batch : List TranslationRequest) (q' : TranslationQueue)
      → w.wakes ≡ []
      → All IsQuiet ts
      → collect_batch s.service.batcher.adaptive_sizing w ts (queue_of s) ≡ some (first ∷ batch, q')
      → Works Task.waiting_first s (Task.processing (first ∷ batch)) (in_queue q' s)
  unfolding collect_batch
  collect_batch-Works w ts s first batch q' no_wake quiet e =
      started (get [] w.now (queue_of s)) (get_ends w.now (queue_of s)) (rw no_wake at e)
    where
      started :
          (g : Option TranslationRequest × TranslationQueue)
          → (g ≡ (none, queue_of s)) ⊎ (get_locked w.now (queue_of s) ≡ g)
          → collect_from s.service.batcher.adaptive_sizing w.start ts g ≡ some (first ∷ batch, q')
          → Works Task.waiting_first s (Task.processing (first ∷ batch)) (in_queue q' s)
      started (none, q) h f = cc
      started (some r, q) (inl h) f = cc
      started (some r, q) (inr h) f = Works.then_works (Work.takes w.now w.start r q s h) (
          collect_more-Collects r w.start
            (effective_max s.service.batcher.adaptive_sizing (tier_configs r.tier) q) ts (r ∷ [])
            (first ∷ batch) (in_queue q s) q' quiet f)
