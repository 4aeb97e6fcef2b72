-- ===== src/Batch/Collect/Shape.antt =====
-- The shape of a collected batch, whatever the other tasks do meanwhile.
use native.Mathlib.Nat.{le_trans}
use unitra_service_api.Common.{
  ℕ, ◌≤◌, ◌<◌, ◌≡◌, refl, Bool, true, false, ◌||◌, Option, none, some, List, [], ◌∷◌, ◌++◌, ltb,
  leb, ltb→lt, length, length-append, All, All-append, All-of_forall, arith, Bool-cases, inl, inr,
  ◌⊎◌,
}
use unitra_service_api.Common.Text.{text_eq_refl}
use unitra_service_api.Batch.Config.{tier_configs, tier_configs_sizes}
use unitra_service_api.Batch.Request.{TranslationRequest}
use unitra_service_api.Batch.Queue.{TranslationQueue, Heap, get}
use unitra_service_api.Batch.Collect.{
  FirstWait, Tick, Round, same_pair, effective_max, expired, interrupted, after_get, round,
  collect_more, collect_from, collect_batch,
}
use unitra_service_api.Batch.Collect.Loop.{collect_more_inv}

module _ (first : TranslationRequest) (most : ℕ) where
  -- A batch begins with its first request, is of one language pair and fits.
  pub record IsBatch (batch : List TranslationRequest) : Type 0 where
    pub head : (rest : List TranslationRequest) × (batch ≡ first ∷ rest)
    pub pair : All (λ r. same_pair first r ≡ true) batch
    pub fits : length batch ≤ most

  abbrev GoodRound : Round → Type 0
  GoodRound (Round.complete batch q) = IsBatch batch
  GoodRound (Round.go_on batch q) = IsBatch batch

  add-IsBatch :
      (batch : List TranslationRequest) (r : TranslationRequest)
      → IsBatch batch
      → length batch < most
      → same_pair first r ≡ true
      → IsBatch (batch ++ r ∷ [])
  add-IsBatch batch r b room pair = record {
    head = (b.head.0 ++ r ∷ [], rw (b.head.1) refl);
    pair = All-append _ batch (r ∷ []) b.pair (pair, tt);
    fits = omega (arith, length-append batch (r ∷ []));
  }

module _ ⦃H : Heap⦄ (first : TranslationRequest) (start most : ℕ) where
  after_get-GoodRound :
      (t : Tick) (batch : List TranslationRequest)
      (g : Option TranslationRequest × TranslationQueue)
      → IsBatch first most batch
      → length batch < most
      → GoodRound first most (after_get first start most t batch g)
  unfolding after_get
  after_get-GoodRound t batch (none, q) b room =
      elim (Bool-cases (
        leb (tier_configs first.tier).min_batch_size (length batch)
        || expired first start most t)) [ inl e ↦ rw e b | inr e ↦ rw e b ]
  after_get-GoodRound t batch (some r, q) b room = elim (Bool-cases (same_pair first r)) [
    | inl e ↦ rw e (add-IsBatch first most batch r b room e)
    | inr e ↦ rw e b
  ]

  round-GoodRound :
      (t : Tick) (batch : List TranslationRequest) (q : TranslationQueue)
      → IsBatch first most batch
      → GoodRound first most (round first start most t batch q)
  unfolding round
  round-GoodRound t batch q b = elim (Bool-cases (ltb (length batch) most)) [
    | inr e ↦ rw e b
    | inl e ↦ elim (Bool-cases (expired first start most t)) [
      | inl late ↦ rw (e, late) b
      | inr early ↦ elim (Bool-cases (interrupted first start most t batch q)) [
        | inl i ↦ rw (e, early, i) b
        | inr i ↦
            rw (e, early, i) (after_get-GoodRound t batch (get t.wakes t.got_at q) b (ltb→lt _ _ e))
      ]
    ]
  ]

  pub collect_more-IsBatch :
      (ts : List Tick) (batch : List TranslationRequest) (q : TranslationQueue)
      → IsBatch first most batch
      → (batch' : List TranslationRequest) (q' : TranslationQueue)
      → collect_more first start most ts batch q ≡ some (batch', q')
      → IsBatch first most batch'
  collect_more-IsBatch ts batch q b =
      collect_more_inv first start most (λ b' _. IsBatch first most b') (λ _. Unit {0})
        (λ t b' q' _ h. round-GoodRound t b' q' h) ts batch q (All-of_forall _ ts (λ _. tt)) b

same_pair_refl : (r : TranslationRequest) → same_pair r r ≡ true
same_pair_refl r = rw (text_eq_refl r.source_lang, text_eq_refl r.target_lang)

effective_max_bounds :
    (adaptive : Bool) (first : TranslationRequest) (q : TranslationQueue)
    → (1 ≤ effective_max adaptive (tier_configs first.tier) q)
      × (effective_max adaptive (tier_configs first.tier) q
          ≤ (tier_configs first.tier).max_batch_size)
unfolding effective_max
effective_max_bounds true first q = omega (arith, tier_configs_sizes first.tier)
effective_max_bounds false first q = omega (arith, tier_configs_sizes first.tier)

module _ ⦃H : Heap⦄ where
  -- A collected batch is empty, or it begins with a request that determines it: all its requests
  -- have that request's language pair, and there are at most as many as its tier allows. This
  -- holds whatever other tasks do to the queue meanwhile.
  pub collect_batch_shape :
      (adaptive : Bool) (w : FirstWait) (ts : List Tick) (q q' : TranslationQueue)
      (batch : List TranslationRequest)
      → collect_batch adaptive w ts q ≡ some (batch, q')
      → (batch ≡ [])
        ⊎ ((first : TranslationRequest) × IsBatch first
              (tier_configs first.tier).max_batch_size
              batch)
  unfolding collect_batch
  collect_batch_shape adaptive w ts q q' batch e = shape (get w.wakes w.now q) e
    where
      shape :
          (g : Option TranslationRequest × TranslationQueue)
          → collect_from adaptive w.start ts g ≡ some (batch, q')
          → (batch ≡ [])
            ⊎ ((first : TranslationRequest) × IsBatch first
                  (tier_configs first.tier).max_batch_size
                  batch)
      shape (none, q₁) f = inl (cc)
      shape (some first, q₁) f =
          let (one, most) = effective_max_bounds adaptive first q₁ in
          let start_batch : IsBatch first (effective_max adaptive (tier_configs first.tier) q₁)
              (first ∷ []) =
            record { head = ([], refl); pair = (same_pair_refl first, tt); fits = one } in
          let b = collect_more-IsBatch first w.start _ ts (first ∷ []) q₁ start_batch batch q' f in
          inr (first, record { head = b.head; pair = b.pair; fits = le_trans b.fits most })
