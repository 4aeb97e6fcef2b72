-- ===== src/Batch/Service/Progress.antt =====
-- A worker that holds a batch can always come to its end.
use unitra_service_api.Common.{
  ℕ, ◌+◌, ◌*◌, ◌≡◌, refl, false, ◌||◌, none, List, [], length, leb, arith, Bool-cases, inl, inr,
}
use unitra_service_api.Batch.Config.{tier_configs}
use unitra_service_api.Batch.Request.{TranslationRequest}
use unitra_service_api.Batch.Queue.{TranslationQueue, Heap}
use unitra_service_api.Batch.Collect.{Tick, expired, after_get}
use unitra_service_api.Batch.Process.{Timing}
use unitra_service_api.Batch.Process.Delivery.{AllDone, process_collected-AllDone}
use unitra_service_api.Batch.Service.{Task, System}
use unitra_service_api.Batch.Service.Steps.{
  Work, Works, asks, still, collected, queue_left, queue_of, in_queue, process,
}
use unitra_service_api.Batch.Service.Places.{batch_of}
use unitra_service_api.Batch.Service.Workers.{handle_outcome_lem}

-- The worker has put its batch down, and every request that was in it is done.
pub record IsServed (batch : List TranslationRequest) (w : Task) (s : System) : Type 0 where
  pub free : batch_of w ≡ []
  pub served : AllDone batch s.futures

module _ ⦃H : Heap⦄ (clock : ℕ → ℕ) (timing : Timing) where
  -- Steps of the worker to such a state.
  abbrev pub Serves : List TranslationRequest → Task → System → Type 0
  Serves batch w s = (w' : Task) × (s' : System) × Works w s w' s' × IsServed batch w' s'

  serve_processing :
      (batch : List TranslationRequest) (s : System) → Serves batch (Task.processing batch) s
  unfolding process
  serve_processing batch s =
      let run = process clock timing batch s in
      (
        run.0,
        run.1,
        Works.then_works (Work.processes clock timing batch s) (Works.here run.0 run.1),
        record {
          free = (handle_outcome_lem clock _ _).0;
          served = process_collected-AllDone timing batch s.service.batcher s.futures;
        },
      )

  -- A round whose clock is past the longest wait.
  abbrev late : TranslationRequest → ℕ → Tick
  late first start =
      let now = start + (tier_configs first.tier).max_wait_ms * 1000 in
      record {
        checked_at = now;
        peeked_at = now;
        compared_at = now;
        wakes = [];
        got_at = now;
        put_at = now;
        others = λ q. q;
      }

  late_declines :
      (first : TranslationRequest) (start most : ℕ) (batch : List TranslationRequest)
      (q : TranslationQueue)
      → asks first start most (late first start) batch q ≡ false
  unfolding asks expired
  late_declines first start most batch q = ground arith

  serve_collecting :
      (first : TranslationRequest) (start most : ℕ) (batch : List TranslationRequest) (s : System)
      → Serves batch (Task.collecting first start most batch) s
  serve_collecting first start most batch s =
      let (w', s', path, served) = serve_processing batch s in
      (
        w',
        s',
        Works.then_works
            (Work.completes (late first start) first start most batch s
              (late_declines first start most batch (queue_of s)))
            path,
        served,
      )

  serve_round :
      (first : TranslationRequest) (start most : ℕ) (batch : List TranslationRequest) (t : Tick)
      (s : System)
      → let o = after_get first start most (still t) batch (none, queue_of s) in
        Serves batch (collected first start most o) (in_queue (queue_left o) s)
  unfolding after_get
  serve_round first start most batch t s =
      elim (Bool-cases (
        leb (tier_configs first.tier).min_batch_size (length batch)
        || expired first start most (still t))) [
          | inl e ↦ rw e (serve_processing batch s)
          | inr e ↦ rw e (serve_collecting first start most batch s)
        ]

  -- From any state of the service, a worker that holds a batch can go on by its own steps, whatever
  -- reply the translation service gives, until it holds nothing and every request of the batch has
  -- its result, its exception or its cancellation.
  pub worker_can_finish : (w : Task) (s : System) → Serves (batch_of w) w s
  worker_can_finish Task.ready s =
      (Task.ready, s, Works.here _ s, record { free = refl; served = tt })
  worker_can_finish Task.waiting_first s =
      (Task.waiting_first, s, Works.here _ s, record { free = refl; served = tt })
  worker_can_finish (Task.collecting first start most batch) s =
      serve_collecting first start most batch s
  worker_can_finish (Task.getting first start most batch t) s =
      let (w', s', path, served) = serve_round first start most batch t s in
      (
        w',
        s',
        Works.then_works (Work.gets t first start most batch s (none, queue_of s) (inl refl)) path,
        served,
      )
  worker_can_finish (Task.processing batch) s = serve_processing batch s
  worker_can_finish Task.pausing s =
      (Task.pausing, s, Works.here _ s, record { free = refl; served = tt })
  worker_can_finish Task.finished s =
      (Task.finished, s, Works.here _ s, record { free = refl; served = tt })
