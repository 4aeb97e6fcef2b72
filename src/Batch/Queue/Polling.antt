-- ===== src/Batch/Queue/Polling.antt =====
-- What `get_batch` takes out of the queue.
use unitra_service_api.Common.{
  ℕ, ◌+◌, ◌≤◌, ◌<◌, ◌≡◌, none, some, Option, List, [], ◌∷◌, ◌++◌, length, length-append, arith, All,
  ltb, leb, inl, inr, Bool-cases, ltb→lt,
}
use unitra_service_api.Batch.Request.{TranslationRequest}
use unitra_service_api.Batch.Queue.{TranslationQueue, Heap, Poll, get, poll, get_batch}
use unitra_service_api.Batch.Queue.Invariant.{IsValid, AreValid, get-IsValid}

none-some : {A : Type 0} {a : A} → ◌≡◌ {A = Option A} none (some a) → ⊥
none-some e = cc

module _ ⦃H : Heap⦄ (start max_size max_wait : ℕ) where
  abbrev Fine : List TranslationRequest × TranslationQueue → Type 0
  Fine (batch, q) = (length batch ≤ max_size) × IsValid q

  done-Fine :
      (batch batch' : List TranslationRequest) (q q' : TranslationQueue)
      → Fine (batch, q)
      → ◌≡◌ {A = Option (List TranslationRequest × TranslationQueue)}
          (some (batch, q))
          (some (batch', q'))
      → Fine (batch', q')
  done-Fine batch batch' q q' f e =
      let same : batch ≡ batch' = cc in let same_q : q ≡ q' = cc in rw (← same, ← same_q) f

  -- What a round makes of the outcome of its `get`.
  abbrev polled :
      List Poll
      → List TranslationRequest
      → Option TranslationRequest
      → TranslationQueue
      → Option (List TranslationRequest × TranslationQueue)
  polled ps batch r q = elim r [
    | none ↦ some (batch, q)
    | some x ↦ poll start max_size max_wait ps (batch ++ x ∷ []) q
  ]

  -- A round after its `get`, if what follows it is fine.
  polled-Fine :
      (ps : List Poll) (batch batch' : List TranslationRequest) (q' : TranslationQueue)
      (r : Option TranslationRequest) (q₁ : TranslationQueue)
      → ((x : TranslationRequest)
          → Fine (batch ++ x ∷ [], q₁)
          → poll start max_size max_wait ps (batch ++ x ∷ []) q₁ ≡ some (batch', q')
          → Fine (batch', q'))
      → IsValid q₁
      → length batch < max_size
      → polled ps batch r q₁ ≡ some (batch', q')
      → Fine (batch', q')
  polled-Fine ps batch batch' q' none q₁ f v room g =
      done-Fine batch batch' q₁ q' (omega arith, v) g
  polled-Fine ps batch batch' q' (some x) q₁ f v room g =
      f x (omega (arith, length-append batch (x ∷ [])), v) g

  poll-Fine :
      (ps : List Poll) (batch : List TranslationRequest) (q : TranslationQueue)
      (batch' : List TranslationRequest) (q' : TranslationQueue)
      → All (λ p. AreValid p.wakes) ps
      → Fine (batch, q)
      → poll start max_size max_wait ps batch q ≡ some (batch', q')
      → Fine (batch', q')
  unfolding poll
  poll-Fine [] batch q batch' q' a f e = elim (Bool-cases (ltb (length batch) max_size)) [
    | inl room ↦ absurd (none-some (rw room at e))
    | inr full ↦ done-Fine batch batch' q q' f (rw full at e)
  ]
  poll-Fine (p ∷ ps) batch q batch' q' a f e = elim (Bool-cases (ltb (length batch) max_size)) [
    | inl room ↦ elim (Bool-cases (leb (start + max_wait) p.checked_at)) [
      | inl late ↦ done-Fine batch batch' q q' f (rw (room, late) at e)
      | inr early ↦
          polled-Fine ps batch batch' q' (get p.wakes p.got_at q).0 (get p.wakes p.got_at q).1
            (λ x g e'. poll-Fine ps (batch ++ x ∷ []) (get p.wakes p.got_at q).1 batch' q' a.1 g e')
            (get-IsValid p.wakes p.got_at q a.0 f.1) (ltb→lt _ _ room) (rw (room, early) at e)
    ]
    | inr full ↦ done-Fine batch batch' q q' f (rw full at e)
  ]

  -- `get_batch` keeps the invariant of the queue and returns at most `max_size` requests, whatever
  -- valid changes other tasks make while it waits.
  pub get_batch-IsValid :
      (ps : List Poll) (batch : List TranslationRequest) (q q' : TranslationQueue)
      → All (λ p. AreValid p.wakes) ps
      → IsValid q
      → get_batch start max_size max_wait ps q ≡ some (batch, q')
      → (length batch ≤ max_size) × IsValid q'
  unfolding get_batch
  get_batch-IsValid ps batch q q' a v e = poll-Fine ps [] q batch q' a (omega arith, v) e
