-- ===== src/Batch/Metrics/Windows.antt =====
-- The windows of the metrics collector hold the latest samples.
use unitra_service_api.Common.{
  ℕ, zero, suc, ◌+◌, ◌-◌, ◌≤◌, ◌≡◌, refl, sym, ap, ◌∙◌, List, [], ◌∷◌, ◌++◌, append-nil,
  append_assoc, length, length-append, map, drop, ltb, if◌then◌else◌, arith, inl, inr, Bool-cases,
}
use unitra_service_api.Common.Int.{ℤ}
use unitra_service_api.Batch.Config.{UserTier}
use unitra_service_api.Batch.Queue.{same_tier}
use unitra_service_api.Batch.Metrics.{
  BatchMetricsCollector, Sample, new_collector, push, pop_oldest, record_request,
}

module _ {ℓ} {A : Type ℓ} where
  -- The last `n` elements of a list, or all of a shorter one.
  abbrev pub latest : ℕ → List A → List A
  latest n xs = drop (length xs - n) xs

  drop-append : (k : ℕ) (xs ys : List A) → k ≤ length xs → drop k (xs ++ ys) ≡ drop k xs ++ ys
  drop-append zero xs ys h = refl
  drop-append (suc k) [] ys h = absurd (omega arith)
  drop-append (suc k) (x ∷ xs) ys h = drop-append k xs ys (omega arith)

  pop_oldest-drop : (k : ℕ) (xs : List A) → pop_oldest (drop k xs) ≡ drop (suc k) xs
  pop_oldest-drop zero [] = refl
  pop_oldest-drop zero (x ∷ xs) = refl
  pop_oldest-drop (suc k) [] = refl
  pop_oldest-drop (suc k) (x ∷ xs) = pop_oldest-drop k xs

  length-drop : (k : ℕ) (xs : List A) → length (drop k xs) ≡ length xs - k
  length-drop zero xs = omega arith
  length-drop (suc k) [] = omega arith
  length-drop (suc k) (x ∷ xs) = omega (arith, length-drop k xs)

  -- Pushing onto a window of the latest.
  push-latest : (n : ℕ) (x : A) (xs : List A) → push n x (latest n xs) ≡ latest n (xs ++ x ∷ [])
  unfolding push
  push-latest n x xs =
      let k = length xs - n in
      let grown = drop-append k xs (x ∷ []) (omega arith) in
      let long : length (drop k xs ++ x ∷ []) ≡ length xs - k + 1 =
        omega (arith, length-append (drop k xs) (x ∷ []), length-drop k xs) in
      let total : length (xs ++ x ∷ []) ≡ length xs + 1 =
        omega (arith, length-append xs (x ∷ [])) in
      elim (Bool-cases (ltb n (length (drop k xs ++ x ∷ [])))) [
        | inl over ↦
            let next : suc k ≡ length (xs ++ x ∷ []) - n = ground (arith, long, total, over) in
            rw over (
              ap pop_oldest (sym grown)
              ∙ (pop_oldest-drop k (xs ++ x ∷ []) ∙ ap (λ j. drop j (xs ++ x ∷ [])) next))
        | inr fits ↦
            let same : k ≡ length (xs ++ x ∷ []) - n = ground (arith, long, total, fits) in
            rw fits (sym grown ∙ ap (λ j. drop j (xs ++ x ∷ [])) same)
      ]

-- The latencies of one tier, in the order of the samples.
abbrev pub of_tier : UserTier → List Sample → List ℤ
of_tier t [] = []
of_tier t (s ∷ ss) =
    let rest = of_tier t ss in if same_tier s.tier t then s.latency ∷ rest else rest

of_tier-append :
    (t : UserTier) (hs : List Sample) (s : Sample)
    → of_tier t (hs ++ s ∷ [])
      ≡ (if same_tier s.tier t then of_tier t hs ++ s.latency ∷ [] else of_tier t hs)
of_tier-append t [] s = refl
of_tier-append t (h ∷ hs) s =
    let rest = of_tier-append t hs s in
    elim (Bool-cases (same_tier h.tier t)) [
      | inl mine ↦ elim (Bool-cases (same_tier s.tier t)) [
        | inl e ↦ rw (rest, mine, e) refl
        | inr e ↦ rw (rest, mine, e) refl
      ]
      | inr other ↦ elim (Bool-cases (same_tier s.tier t)) [
        | inl e ↦ rw (rest, other, e) refl
        | inr e ↦ rw (rest, other, e) refl
      ]
    ]

-- A sequence of records.
abbrev pub record_all : List Sample → BatchMetricsCollector → BatchMetricsCollector
record_all [] c = c
record_all (s ∷ ss) c = record_all ss (record_request s c)

-- The windows hold the latest of the samples, and the counter all of them.
pub record Tracks (n : ℕ) (hs : List Sample) (c : BatchMetricsCollector) : Type 0 where
  pub window : c.window_size ≡ n
  pub sizes : c.batch_sizes ≡ latest n (map (λ s. s.batch_size) hs)
  pub depths : c.queue_depths ≡ latest n (map (λ s. s.queue_depth) hs)
  pub times : c.request_times ≡ latest n (map (λ s. s.now) hs)
  pub tiers : (t : UserTier) → c.latencies t ≡ latest n (of_tier t hs)
  pub total : c.total_requests ≡ length hs

map-append : (f : Sample → ℕ) (xs ys : List Sample) → map f (xs ++ ys) ≡ map f xs ++ map f ys
map-append f [] ys = refl
map-append f (x ∷ xs) ys = ap (λ l. f x ∷ l) (map-append f xs ys)

drop-nil {ℓ} : {A : Type ℓ} (k : ℕ) → ◌≡◌ {A = List A} [] (drop k [])
drop-nil zero = refl
drop-nil (suc k) = refl

push-map :
    (f : Sample → ℕ) (n : ℕ) (hs : List Sample) (s : Sample)
    → push n (f s) (latest n (map f hs)) ≡ latest n (map f (hs ++ s ∷ []))
push-map f n hs s = push-latest n (f s) (map f hs) ∙ ap (latest n) (sym (map-append f hs (s ∷ [])))

record_request-Tracks :
    (n : ℕ) (hs : List Sample) (c : BatchMetricsCollector) (s : Sample)
    → Tracks n hs c
    → Tracks n (hs ++ s ∷ []) (record_request s c)
unfolding record_request
record_request-Tracks n hs c s h = record {
  window = h.window;
  sizes = rw (h.window, h.sizes) (push-map (λ s. s.batch_size) n hs s);
  depths = rw (h.window, h.depths) (push-map (λ s. s.queue_depth) n hs s);
  times = rw (h.window, h.times) (push-map (λ s. s.now) n hs s);
  tiers = λ t. elim (Bool-cases (same_tier s.tier t)) [
    | inl e ↦
        rw (e, h.window, h.tiers t)
          (push-latest n s.latency (of_tier t hs)
            ∙ ap (latest n) (sym (of_tier-append t hs s ∙ rw e refl)))
    | inr e ↦ rw e (h.tiers t ∙ ap (latest n) (sym (of_tier-append t hs s ∙ rw e refl)))
  ];
  total = omega (arith, h.total, length-append hs (s ∷ []));
}

record_all-Tracks_from :
    (n : ℕ) (ss hs : List Sample) (c : BatchMetricsCollector)
    → Tracks n hs c
    → Tracks n (hs ++ ss) (record_all ss c)
record_all-Tracks_from n [] hs c h = rw append-nil h
record_all-Tracks_from n (s ∷ ss) hs c h = rw append_assoc at (
    record_all-Tracks_from n ss (hs ++ s ∷ []) (record_request s c)
      (record_request-Tracks n hs c s h))

-- After any sequence of requests, each window of the collector holds the latest `window_size`
-- values that were recorded, oldest first, those of the latencies for each tier apart, and the
-- counter is the number of requests.
pub record_all-Tracks : (n : ℕ) (ss : List Sample) → Tracks n ss (record_all ss (new_collector n))
unfolding new_collector
record_all-Tracks n ss = record_all-Tracks_from n ss [] (new_collector n) (record {
  window = refl;
  sizes = drop-nil (0 - n);
  depths = drop-nil (0 - n);
  times = drop-nil (0 - n);
  tiers = λ t. drop-nil (0 - n);
  total = refl;
})
