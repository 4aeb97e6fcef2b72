-- ===== src/Api/Translate/Estimates.antt =====
-- The token estimates of requests that pass validation.
use unitra_service_api.Common.{
  ℕ, suc, ◌*◌, ◌≤◌, ◌≡◌, true, List, [], ◌∷◌, map, sum, length, leb, leb→le, ltb, and_true, arith,
  inl, inr, Bool-cases,
}
use unitra_service_api.Common.Text.{Text}
use unitra_service_api.Common.Str.{strip}
use unitra_service_api.Errors.Handlers.{Raised}
use unitra_service_api.Api.Action.{Outcome, returned, raised, raised_returned}
use unitra_service_api.Api.Payloads.{
  TranslateRequest, BatchTranslateRequest, accepts, accepts_batch,
}
use unitra_service_api.Api.Translate.{check_texts, estimate, estimate_batch}

-- A single text is estimated at 10 to 128 tokens, if the request's bounds accept it.
pub estimate_bounds :
    (request : TranslateRequest)
    → accepts request ≡ true
    → (10 ≤ estimate request.text) × (estimate request.text ≤ 128)
unfolding accepts estimate
estimate_bounds request h =
    let both = and_true (leb 1 (length request.text)) _ h in
    let short : length request.text ≤ 512 = leb→le _ _ both.1 in omega arith

-- A check that raises on an empty text has gone on if it returns.
went_on :
    (e : Raised) (r : Outcome Unit) (s : Text)
    → (elim s [ [] ↦ raised e | _ ∷ _ ↦ r ]) ≡ returned tt
    → r ≡ returned tt
went_on e r [] g = absurd (raised_returned g)
went_on e r (c ∷ s) g = g

rest_of_strip :
    (t : Text) (texts : List Text) (i : ℕ)
    → check_texts i (t ∷ texts) ≡ returned tt
    → (length t ≤ 512) × (check_texts (suc i) texts ≡ returned tt)
unfolding check_texts
rest_of_strip t texts i h = elim (Bool-cases (ltb 512 (length t))) [
  | inl long ↦ absurd (raised_returned (rw long at h))
  | inr short ↦ (ground arith, went_on _ _ (strip t) (rw short at h))
]

check_texts_short :
    (texts : List Text) (i : ℕ)
    → check_texts i texts ≡ returned tt
    → sum (map (λ t. length t) texts) ≤ 512 * length texts
check_texts_short [] i h = omega arith
check_texts_short (t ∷ texts) i h =
    let (short, rest) = rest_of_strip t texts i h in
    omega (arith, check_texts_short texts (suc i) rest)

-- A batch is estimated at no less than 10 tokens a text and at no more than 2048, if the request's
-- bounds and the checks of its texts accept it.
pub estimate_batch_bounds :
    (request : BatchTranslateRequest)
    → accepts_batch request ≡ true
    → check_texts 0 request.texts ≡ returned tt
    → (10 * length request.texts ≤ estimate_batch request.texts)
      × (estimate_batch request.texts ≤ 2048)
unfolding accepts_batch estimate_batch
estimate_batch_bounds request h c =
    let both = and_true (leb 1 (length request.texts)) _ h in
    let few : length request.texts ≤ 16 = leb→le _ _ both.1 in
    omega (arith, check_texts_short request.texts 0 c)
