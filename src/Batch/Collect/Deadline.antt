-- ===== src/Batch/Collect/Deadline.antt =====
-- The collecting loop ends once it reads a clock past its deadline.
use unitra_service_api.Common.{
  ℕ, zero, suc, ◌+◌, ◌*◌, ◌≤◌, ◌≡◌, refl, ◌∙◌, Bool, true, Option, none, some, List, [], ◌∷◌, ltb,
  length, get_elem?, arith, Bool-cases, inl, inr,
}
use unitra_service_api.Batch.Config.{tier_configs, max_wait_bound}
use unitra_service_api.Batch.Request.{TranslationRequest}
use unitra_service_api.Batch.Queue.{TranslationQueue, Heap, get}
use unitra_service_api.Batch.Collect.{
  FirstWait, Tick, Round, effective_max, expired, round, collect_more, collect_from, collect_batch,
}
use unitra_service_api.Batch.Collect.Loop.{Round-cases, collect_more-complete, collect_more-go_on}

-- The type of a finished collection.
abbrev pub Ends : Option (List TranslationRequest × TranslationQueue) → Type 0
Ends o = (batch : List TranslationRequest) × (q : TranslationQueue) × (o ≡ some (batch, q))

module _ ⦃H : Heap⦄ (first : TranslationRequest) (start most : ℕ) where
  round_late :
      (t : Tick) (batch : List TranslationRequest) (q : TranslationQueue)
      → expired first start most t ≡ true
      → round first start most t batch q ≡ Round.complete batch q
  unfolding round
  round_late t batch q late = elim (Bool-cases (ltb (length batch) most)) [
    | inl e ↦ rw (e, late) refl
    | inr e ↦ rw e refl
  ]

  expired_lem :
      (t : Tick)
      → start + (tier_configs first.tier).max_wait_ms * 1000 ≤ t.checked_at
      → expired first start most t ≡ true
  unfolding expired
  expired_lem t h = ground arith

  collect_more-Ends :
      (ts : List Tick) (i : ℕ) (t : Tick)
      → get_elem? ts i ≡ some t
      → expired first start most t ≡ true
      → (batch : List TranslationRequest) (q : TranslationQueue)
      → Ends (collect_more first start most ts batch q)
  collect_more-Ends [] i t e late batch q = cc
  collect_more-Ends (u ∷ ts) zero t e late batch q =
      let same : u ≡ t = cc in
      (
        batch,
        q,
        collect_more-complete first start most u ts batch batch q q
            (round_late u batch q (rw same late)),
      )
  collect_more-Ends (u ∷ ts) (suc i) t e late batch q =
      elim (Round-cases (round first start most u batch q)) [
        | inl (b, r, f) ↦ (b, r, collect_more-complete first start most u ts batch b q r f)
        | inr (b, r, f) ↦
            let (b', r', g) = collect_more-Ends ts i t e late b r in
            (b', r', collect_more-go_on first start most u ts batch b q r f ∙ g)
      ]

module _ ⦃H : Heap⦄ where
  -- A collection ends, with a batch or with none, as soon as a round of its loop reads a clock that
  -- is 100 ms past the loop's start, whatever other tasks do.
  pub collect_batch-Ends :
      (adaptive : Bool) (w : FirstWait) (ts : List Tick) (q : TranslationQueue) (i : ℕ) (t : Tick)
      → get_elem? ts i ≡ some t
      → w.start + 100000 ≤ t.checked_at
      → Ends (collect_batch adaptive w ts q)
  unfolding collect_batch
  collect_batch-Ends adaptive w ts q i t e late = ends (get w.wakes w.now q)
    where
      ends :
          (g : Option TranslationRequest × TranslationQueue)
          → Ends (collect_from adaptive w.start ts g)
      ends (none, q₁) = ([], q₁, refl)
      ends (some first, q₁) =
          collect_more-Ends first w.start (effective_max adaptive (tier_configs first.tier) q₁) ts i
            t e
            (expired_lem first w.start (effective_max adaptive (tier_configs first.tier) q₁) t
              (omega (arith, max_wait_bound first.tier)))
            (first ∷ []) q₁
