-- ===== src/Batch/Collect/Loop.antt =====
-- The invariant rule of the collecting loop.
use unitra_service_api.Common.{
  ℕ, ◌≡◌, refl, sym, ◌∙◌, Option, some, List, [], ◌∷◌, ltb, length, All, Bool-cases, inl, inr, ◌⊎◌,
}
use unitra_service_api.Batch.Request.{TranslationRequest}
use unitra_service_api.Batch.Queue.{TranslationQueue, Heap}
use unitra_service_api.Batch.Collect.{Tick, Round, round, collect_more}

abbrev pub Keeps : (List TranslationRequest → TranslationQueue → Type 0) → Round → Type 0
Keeps P (Round.complete batch q) = P batch q
Keeps P (Round.go_on batch q) = P batch q

pub Round-cases :
    (o : Round)
    → ((b : List TranslationRequest) × (q : TranslationQueue) × (o ≡ Round.complete b q))
      ⊎ ((b : List TranslationRequest) × (q : TranslationQueue) × (o ≡ Round.go_on b q))
Round-cases (Round.complete b q) = inl (b, q, refl)
Round-cases (Round.go_on b q) = inr (b, q, refl)

pub some_pair :
    {b b' : List TranslationRequest} {q q' : TranslationQueue}
    (P : List TranslationRequest → TranslationQueue → Type 0)
    → ◌≡◌ {A = Option (List TranslationRequest × TranslationQueue)} (some (b, q)) (some (b', q'))
    → P b q
    → P b' q'
some_pair {b} {b'} {q} {q'} P e h =
    let bs : b ≡ b' = cc in let qs : q ≡ q' = cc in rw (← bs, ← qs) h

module _ ⦃H : Heap⦄ (first : TranslationRequest) (start most : ℕ) where
  module _ (t : Tick) (ts : List Tick) (b b₁ : List TranslationRequest)
      (q q₁ : TranslationQueue) where
    pub collect_more-complete :
        round first start most t b q ≡ Round.complete b₁ q₁
        → collect_more first start most (t ∷ ts) b q ≡ some (b₁, q₁)
    unfolding collect_more
    collect_more-complete f = rw (f, collect_more) refl

    pub collect_more-go_on :
        round first start most t b q ≡ Round.go_on b₁ q₁
        → collect_more first start most (t ∷ ts) b q ≡ collect_more first start most ts b₁ q₁
    unfolding collect_more
    collect_more-go_on f = rw (f, collect_more) refl

  -- What every round keeps, of a tick that satisfies `Q`, holds of the collected batch.
  pub collect_more_inv :
      (P : List TranslationRequest → TranslationQueue → Type 0) (Q : Tick → Type 0)
      → ((t : Tick) (b : List TranslationRequest) (q : TranslationQueue)
          → Q t
          → P b q
          → Keeps P (round first start most t b q))
      → (ts : List Tick) (b : List TranslationRequest) (q : TranslationQueue) → All Q ts
      → P b q
      → (b' : List TranslationRequest) (q' : TranslationQueue)
      → collect_more first start most ts b q ≡ some (b', q')
      → P b' q'
  unfolding collect_more
  collect_more_inv P Q keep [] b q a h b' q' e = elim (Bool-cases (ltb (length b) most)) [
    | inl room ↦ let f = rw room at e in cc
    | inr full ↦ some_pair P (rw full at e) h
  ]
  collect_more_inv P Q keep (t ∷ ts) b q a h b' q' e =
      elim (Round-cases (round first start most t b q)) [
        | inl (b₁, q₁, f) ↦
            some_pair P (sym (collect_more-complete t ts b b₁ q q₁ f) ∙ e)
              (rw f at (keep t b q a.0 h))
        | inr (b₁, q₁, f) ↦
            collect_more_inv P Q keep ts b₁ q₁ a.1 (rw f at (keep t b q a.0 h)) b' q'
              (sym (collect_more-go_on t ts b b₁ q q₁ f) ∙ e)
      ]
