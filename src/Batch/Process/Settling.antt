-- ===== src/Batch/Process/Settling.antt =====
-- How futures are set: `set_result` and `set_exception` on one of them, and the loops over a batch.
use unitra_service_api.Common.{
  ℕ, ◌≡◌, ◌≢◌, refl, ◌∙◌, true, List, [], ◌∷◌, ◌==◌, ==_refl, arith, Bool-cases, inl, inr,
}
use unitra_service_api.Common.Text.{Text}
use unitra_service_api.Batch.Request.{TranslationRequest}
use unitra_service_api.Batch.Processor.{BatchException}
use unitra_service_api.Batch.Process.{
  BatchResult, Future, Futures, is_done, settle, response, distribute, fail_all,
}

-- A future that is done is never set again.
pub settle_done :
    (a b : ℕ) (v : Future) (fs : Futures) → is_done (fs b) ≡ true → settle a v fs b ≡ fs b
unfolding settle
settle_done a b v fs d = elim (Bool-cases (a == b)) [ inl e ↦ rw (e, d) refl | inr e ↦ rw e refl ]

pub settle_self :
    (a : ℕ) (v : Future) (fs : Futures) → is_done v ≡ true → is_done (settle a v fs a) ≡ true
unfolding settle
settle_self a v fs d = elim (Bool-cases (is_done (fs a))) [
  | inl e ↦ rw (==_refl a, e) e
  | inr e ↦ rw (==_refl a, e) d
]

pub settle_pending :
    (a : ℕ) (v : Future) (fs : Futures) → fs a ≡ Future.pending → settle a v fs a ≡ v
unfolding settle
settle_pending a v fs e = rw (==_refl a, e) refl

pub settle_ne : (a b : ℕ) (v : Future) (fs : Futures) → a ≢ b → settle a v fs b ≡ fs b
unfolding settle
settle_ne a b v fs h = ground arith

pub fail_all_done :
    (e : BatchException) (qs : List TranslationRequest) (fs : Futures) (b : ℕ)
    → is_done (fs b) ≡ true
    → fail_all e qs fs b ≡ fs b
unfolding fail_all
fail_all_done e [] fs b d = refl
fail_all_done e (q ∷ qs) fs b d =
    let same = settle_done q.future b (Future.exception e) fs d in
    fail_all_done e qs (settle q.future (Future.exception e) fs) b (rw same d) ∙ same

pub distribute_done :
    (r : BatchResult) (qs : List TranslationRequest) (ts : List Text) (fs : Futures) (b : ℕ)
    → is_done (fs b) ≡ true
    → (distribute r qs ts fs).1 b ≡ fs b
unfolding distribute
distribute_done r [] [] fs b d = refl
distribute_done r [] (t ∷ ts) fs b d = refl
distribute_done r (q ∷ qs) [] fs b d = refl
distribute_done r (q ∷ qs) (t ∷ ts) fs b d =
    let v = Future.result (response r q t) in
    let same = settle_done q.future b v fs d in
    distribute_done r qs ts (settle q.future v fs) b (rw same d) ∙ same
