-- ===== src/Batch/Process/Others.antt =====
-- What the processing of a batch leaves alone: the futures of other requests, and the queue.
use unitra_service_api.Common.{
  ℕ, ◌≡◌, ◌≢◌, refl, ◌∙◌, List, [], ◌∷◌, All, arith, Bool-cases, inl, inr,
}
use unitra_service_api.Common.Text.{Text}
use unitra_service_api.Batch.Request.{TranslationRequest}
use unitra_service_api.Batch.Processor.{BatchException, Result}
use unitra_service_api.Batch.Process.{
  BatchResult, Future, Futures, settle, SmartBatcher, Timing, process_batch, count_batch, response,
  distribute, fail_all, finish, process_collected,
}
use unitra_service_api.Batch.Process.Settling.{settle_ne}
use unitra_service_api.Batch.Process.Delivery.{process_batch_requests}

-- No request here has the future `a`.
abbrev pub Apart : ℕ → List TranslationRequest → Type 0
Apart a qs = All (λ q. q.future ≢ a) qs

fail_all-Apart :
    (e : BatchException) (qs : List TranslationRequest) (fs : Futures) (a : ℕ)
    → Apart a qs
    → fail_all e qs fs a ≡ fs a
unfolding fail_all
fail_all-Apart e [] fs a h = refl
fail_all-Apart e (q ∷ qs) fs a h =
    fail_all-Apart e qs (settle q.future (Future.exception e) fs) a h.1
    ∙ settle_ne q.future a (Future.exception e) fs h.0

distribute-Apart :
    (r : BatchResult) (qs : List TranslationRequest) (ts : List Text) (fs : Futures) (a : ℕ)
    → Apart a qs
    → (distribute r qs ts fs).1 a ≡ fs a
unfolding distribute
distribute-Apart r [] [] fs a h = refl
distribute-Apart r [] (t ∷ ts) fs a h = refl
distribute-Apart r (q ∷ qs) [] fs a h = refl
distribute-Apart r (q ∷ qs) (t ∷ ts) fs a h =
    let v = Future.result (response r q t) in
    distribute-Apart r qs ts (settle q.future v fs) a h.1 ∙ settle_ne q.future a v fs h.0

finish-Apart :
    (batch : List TranslationRequest) (o : Result BatchResult) (fs : Futures) (a : ℕ)
    → ((r : BatchResult) → o ≡ Result.ok r → r.requests ≡ batch)
    → Apart a batch
    → (finish batch o fs).1 a ≡ fs a
unfolding finish
finish-Apart batch (Result.err e) fs a own h = fail_all-Apart e batch fs a h
finish-Apart batch (Result.ok r) fs a own h =
    let same = distribute-Apart r r.requests r.translations fs a (rw (own r refl) h) in
    elim (Bool-cases (distribute r r.requests r.translations fs).0) [
      | inl all ↦ rw all same
      | inr some_left ↦ rw some_left (
          fail_all-Apart BatchException.length_mismatch batch
            (distribute r r.requests r.translations fs).1 a h
          ∙ same)
    ]

pub process_collected-Apart :
    (t : Timing) (batch : List TranslationRequest) (b : SmartBatcher) (fs : Futures) (a : ℕ)
    → Apart a batch
    → (process_collected t batch b fs).2 a ≡ fs a
unfolding process_collected
process_collected-Apart t [] b fs a h = refl
process_collected-Apart t (first ∷ rest) b fs a h =
    finish-Apart (first ∷ rest) (process_batch t (first ∷ rest) b).0 fs a
      (λ r e. process_batch_requests t (first ∷ rest) b r e) h

process_batch_queue :
    (t : Timing) (batch : List TranslationRequest) (b : SmartBatcher)
    → (process_batch t batch b).1.queue ≡ b.queue
unfolding process_batch count_batch
process_batch_queue t [] b = refl
process_batch_queue t (first ∷ rest) b = ground arith

pub process_collected_queue :
    (t : Timing) (batch : List TranslationRequest) (b : SmartBatcher) (fs : Futures)
    → (process_collected t batch b fs).1.queue ≡ b.queue
unfolding process_collected
process_collected_queue t [] b fs = refl
process_collected_queue t (first ∷ rest) b fs = process_batch_queue t (first ∷ rest) b
