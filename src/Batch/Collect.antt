-- ===== src/Batch/Collect.antt =====
-- app/services/batch/batcher.py, `SmartBatcher.collect_batch`. Each round of its loop is driven by a
-- tick: the clock values that the round reads, and what other tasks do to the queue wherever the
-- round lets them run. A collection is `none` while its loop would still go on at the end of the
-- ticks.
pub mod Loop
pub mod Shape
pub mod Conservation
pub mod Deadline
use unitra_service_api.Common.{
  ℕ, ◌+◌, ◌*◌, Bool, true, false, ◌&&◌, ◌||◌, Option, none, some, List, [], ◌∷◌, ◌++◌, ltb, leb,
  if◌then◌else◌, length, min, max,
}
use unitra_service_api.Common.Int.{ℤ, pos, ◌-ℤ◌, ltb_ℤ}
use unitra_service_api.Common.Text.{text_eq}
use unitra_service_api.Batch.Config.{TierConfig, tier_configs}
use unitra_service_api.Batch.Request.{TranslationRequest, get_priority, level, default_boost}
use unitra_service_api.Batch.Queue.{TranslationQueue, Heap, Wake, put, get, peek_priority, qsize}

-- The wait for the first request of a batch.
pub record FirstWait : Type 0 where
  pub wakes : List Wake
  pub now : ℕ
  -- `start_time`
  pub start : ℕ

pub record Tick : Type 0 where
  pub checked_at : ℕ
  pub peeked_at : ℕ
  pub compared_at : ℕ
  pub wakes : List Wake
  pub got_at : ℕ
  pub put_at : ℕ
  -- what others do during `asyncio.sleep(0.005)`
  pub others : TranslationQueue → TranslationQueue

-- What a round decides: the batch is complete, or the loop goes on.
pub data Round : Type 0 where
  complete : List TranslationRequest → TranslationQueue → Round
  go_on : List TranslationRequest → TranslationQueue → Round

-- The language pair decides which requests share a batch.
abbrev pub same_pair : TranslationRequest → TranslationRequest → Bool
same_pair first r =
    text_eq r.source_lang first.source_lang && text_eq r.target_lang first.target_lang

-- `effective_max`
unfoldable pub effective_max : Bool → TierConfig → TranslationQueue → ℕ
unfolding qsize
effective_max adaptive config q =
    if adaptive
    then min config.max_batch_size (max config.min_batch_size (qsize q + 1))
    else config.max_batch_size

module _ ⦃H : Heap⦄ (first : TranslationRequest) (start most : ℕ) where
  -- the configuration of the first request's tier
  abbrev pub config : TierConfig
  config = tier_configs first.tier

  -- `remaining <= 0`
  unfoldable pub expired : Tick → Bool
  expired t = leb (start + config.max_wait_ms * 1000) t.checked_at

  -- A request that is more than one level more urgent heads the queue of a sufficient batch. The
  -- first request's priority is taken with the default boost.
  unfoldable pub interrupted : Tick → List TranslationRequest → TranslationQueue → Bool
  interrupted t batch q =
      leb config.min_batch_size (length batch) && elim (peek_priority t.peeked_at q) [
        | none ↦ false
        | some next ↦ ltb_ℤ next (get_priority default_boost t.compared_at first -ℤ pos level)
      ]

  -- What a round makes of the outcome of its `get`.
  unfoldable pub after_get :
      Tick → List TranslationRequest → Option TranslationRequest × TranslationQueue → Round
  unfolding expired
  after_get t batch (none, q) =
      if leb config.min_batch_size (length batch) || expired t
      then Round.complete batch q
      else Round.go_on batch (t.others q)
  after_get t batch (some r, q) =
      if same_pair first r
      then Round.go_on (batch ++ r ∷ []) q
      else Round.complete batch (put t.put_at r q)

  -- One round of the `while` loop.
  unfoldable pub round : Tick → List TranslationRequest → TranslationQueue → Round
  unfolding expired interrupted after_get
  round t batch q =
      if ltb (length batch) most
      then if expired t
        then Round.complete batch q
        else if interrupted t batch q
        then Round.complete batch q
        else after_get t batch (get t.wakes t.got_at q)
      else Round.complete batch q

  unfoldable pub collect_more :
      List Tick
      → List TranslationRequest
      → TranslationQueue
      → Option (List TranslationRequest × TranslationQueue)
  unfolding round
  collect_more [] batch q = if ltb (length batch) most then none else some (batch, q)
  collect_more (t ∷ ts) batch q = elim (round t batch q) [
    | Round.complete batch' q' ↦ some (batch', q')
    | Round.go_on batch' q' ↦ collect_more ts batch' q'
  ]

module _ ⦃H : Heap⦄ where
  -- The collection once the wait for a first request is over.
  unfoldable pub collect_from :
      Bool
      → ℕ
      → List Tick
      → Option TranslationRequest × TranslationQueue
      → Option (List TranslationRequest × TranslationQueue)
  unfolding collect_more effective_max
  collect_from adaptive start ts (none, q) = some ([], q)
  collect_from adaptive start ts (some first, q) =
      collect_more first start (effective_max adaptive (tier_configs first.tier) q) ts (first ∷ [])
        q

  -- `collect_batch`: the batch, empty if the wait for a first request timed out, and the queue.
  unfoldable pub collect_batch :
      Bool
      → FirstWait
      → List Tick
      → TranslationQueue
      → Option (List TranslationRequest × TranslationQueue)
  unfolding collect_from
  collect_batch adaptive w ts q = collect_from adaptive w.start ts (get w.wakes w.now q)
