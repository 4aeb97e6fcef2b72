-- ===== src/Batch/Process/Delivery.antt =====
-- What the submitters of a batch find in their futures when it has been processed.
use mathlib.Core.Path.{subst}
use unitra_service_api.Common.{
  ℕ, zero, suc, ◌≡◌, ◌≢◌, refl, ap, ◌∙◌, true, Option, some, List, [], ◌∷◌, get_elem?, All, arith,
  Bool-cases, inl, inr,
}
use unitra_service_api.Common.Text.{Text}
use unitra_service_api.Batch.Request.{TranslationRequest}
use unitra_service_api.Batch.Processor.{BatchException, Result}
use unitra_service_api.Batch.Process.{
  BatchResult, Future, Futures, is_done, settle, SmartBatcher, Timing, process_batch, response,
  distribute, fail_all, finish, process_collected,
}
use unitra_service_api.Batch.Process.Settling.{
  settle_self, settle_pending, settle_ne, fail_all_done, distribute_done,
}

-- The futures of these requests are done.
abbrev pub AllDone : List TranslationRequest → Futures → Type 0
AllDone qs fs = All (λ q. is_done (fs q.future) ≡ true) qs

fail_all-AllDone :
    (e : BatchException) (qs : List TranslationRequest) (fs : Futures)
    → AllDone qs (fail_all e qs fs)
unfolding fail_all
fail_all-AllDone e [] fs = tt
fail_all-AllDone e (q ∷ qs) fs =
    let fs' = settle q.future (Future.exception e) fs in
    let d = settle_self q.future (Future.exception e) fs refl in
    (rw (fail_all_done e qs fs' q.future d) d, fail_all-AllDone e qs fs')

distribute-AllDone :
    (r : BatchResult) (qs : List TranslationRequest) (ts : List Text) (fs : Futures)
    → (distribute r qs ts fs).0 ≡ true
    → AllDone qs (distribute r qs ts fs).1
unfolding distribute
distribute-AllDone r [] ts fs c = tt
distribute-AllDone r (q ∷ qs) [] fs c = cc
distribute-AllDone r (q ∷ qs) (t ∷ ts) fs c =
    let v = Future.result (response r q t) in
    let fs' = settle q.future v fs in
    let d = settle_self q.future v fs refl in
    (rw (distribute_done r qs ts fs' q.future d) d, distribute-AllDone r qs ts fs' c)

finish-AllDone :
    (batch : List TranslationRequest) (o : Result BatchResult) (fs : Futures)
    → ((r : BatchResult) → o ≡ Result.ok r → r.requests ≡ batch)
    → AllDone batch (finish batch o fs).1
unfolding finish
finish-AllDone batch (Result.err e) fs h = fail_all-AllDone e batch fs
finish-AllDone batch (Result.ok r) fs h =
    let (complete, fs') = distribute r r.requests r.translations fs in
    elim (Bool-cases (distribute r r.requests r.translations fs).0) [
      | inl all ↦ rw all (
          subst (λ b. AllDone b fs') (h r refl)
            (distribute-AllDone r r.requests r.translations fs all))
      | inr some_left ↦ rw some_left (fail_all-AllDone BatchException.length_mismatch batch fs')
    ]

pub process_batch_requests :
    (t : Timing) (batch : List TranslationRequest) (b : SmartBatcher) (r : BatchResult)
    → (process_batch t batch b).0 ≡ Result.ok r
    → r.requests ≡ batch
unfolding process_batch
process_batch_requests t [] b r e = cc
process_batch_requests t (first ∷ rest) b r e = ground arith

-- When a batch has been processed, every request in it has its result, its exception or its
-- cancellation, whatever the service answered: no submitter is left waiting.
pub process_collected-AllDone :
    (t : Timing) (batch : List TranslationRequest) (b : SmartBatcher) (fs : Futures)
    → AllDone batch (process_collected t batch b fs).2
unfolding process_collected
process_collected-AllDone t [] b fs = tt
process_collected-AllDone t (first ∷ rest) b fs =
    finish-AllDone (first ∷ rest) (process_batch t (first ∷ rest) b).0 fs
      λ r e. process_batch_requests t (first ∷ rest) b r e

-- Neither loop changes a future that was done.
finish_done :
    (batch : List TranslationRequest) (o : Result BatchResult) (fs : Futures) (a : ℕ)
    → is_done (fs a) ≡ true
    → (finish batch o fs).1 a ≡ fs a
unfolding finish
finish_done batch (Result.err e) fs a d = fail_all_done e batch fs a d
finish_done batch (Result.ok r) fs a d =
    let same = distribute_done r r.requests r.translations fs a d in
    elim (Bool-cases (distribute r r.requests r.translations fs).0) [
      | inl all ↦ rw all same
      | inr some_left ↦ rw some_left (
          fail_all_done BatchException.length_mismatch batch
            (distribute r r.requests r.translations fs).1 a (rw same d)
          ∙ same)
    ]

-- A future that is done when the results are handed out, such as the cancelled one of a submitter
-- that gave up waiting, keeps its value.
pub process_collected_keeps_done :
    (t : Timing) (batch : List TranslationRequest) (b : SmartBatcher) (fs : Futures) (a : ℕ)
    → is_done (fs a) ≡ true
    → (process_collected t batch b fs).2 a ≡ fs a
unfolding process_collected
process_collected_keeps_done t [] b fs a d = refl
process_collected_keeps_done t (first ∷ rest) b fs a d =
    finish_done (first ∷ rest) (process_batch t (first ∷ rest) b).0 fs a d

-- No two requests share a future.
abbrev pub Distinct : List TranslationRequest → Type 0
Distinct [] = Unit
Distinct (q ∷ qs) = All (λ r. q.future ≢ r.future) qs × Distinct qs

All-get_elem? :
    (P : TranslationRequest → Type 0) (qs : List TranslationRequest) (i : ℕ)
    (q : TranslationRequest)
    → All P qs
    → get_elem? qs i ≡ some q
    → P q
All-get_elem? P [] i q a e = cc
All-get_elem? P (x ∷ qs) zero q a e = let same : x ≡ q = cc in rw (← same) (a.0)
All-get_elem? P (x ∷ qs) (suc i) q a e = All-get_elem? P qs i q a.1 e

distribute_delivers :
    (r : BatchResult) (qs : List TranslationRequest) (ts : List Text) (fs : Futures) (i : ℕ)
    (q : TranslationRequest) (t : Text)
    → Distinct qs
    → get_elem? qs i ≡ some q
    → get_elem? ts i ≡ some t
    → fs q.future ≡ Future.pending
    → (distribute r qs ts fs).1 q.future ≡ Future.result (response r q t)
unfolding distribute
distribute_delivers r [] ts fs i q t d e f p = cc
distribute_delivers r (x ∷ qs) [] fs i q t d e f p = cc
distribute_delivers r (x ∷ qs) (y ∷ ts) fs zero q t d e f p =
    let same : x ≡ q = cc in
    let text : y ≡ t = cc in
    let v = Future.result (response r x y) in
    let set : settle x.future v fs q.future ≡ Future.result (response r q t) =
      rw (same, text) (settle_pending q.future _ fs p) in
    distribute_done r qs ts (settle x.future v fs) q.future (rw set refl) ∙ set
distribute_delivers r (x ∷ qs) (y ∷ ts) fs (suc i) q t d e f p =
    let v = Future.result (response r x y) in
    let apart = All-get_elem? (λ z. x.future ≢ z.future) qs i q d.0 e in
    distribute_delivers r qs ts (settle x.future v fs) i q t d.1 e f
      (settle_ne x.future q.future v fs apart ∙ p)

finish_succeeded :
    (batch : List TranslationRequest) (o : Result BatchResult) (fs : Futures) (r : BatchResult)
    → (finish batch o fs).0 ≡ Result.ok (some r)
    → (o ≡ Result.ok r) × ((finish batch o fs).1 ≡ (distribute r r.requests r.translations fs).1)
unfolding finish
finish_succeeded batch (Result.err e) fs r h = cc
finish_succeeded batch (Result.ok r') fs r h =
    elim (Bool-cases (distribute r' r'.requests r'.translations fs).0) [
      | inl all ↦
          let same : r' ≡ r = some_ok (rw all at h) in
          (rw same, rw all (ap (λ z. (distribute z z.requests z.translations fs).1) same))
      | inr some_left ↦ let f = rw some_left at h in cc
    ]
  where
    some_ok :
        ◌≡◌ {A = Result (Option BatchResult)} (Result.ok (some r')) (Result.ok (some r)) → r' ≡ r
    some_ok e = cc

-- If processing succeeds, the requests of the batch have futures of their own, and one of them is
-- still waited for, then that future receives the translation at the request's own place in the
-- batch, with the languages and the id of the request.
pub process_collected_delivers :
    (t : Timing) (batch : List TranslationRequest) (b : SmartBatcher) (fs : Futures)
    (r : BatchResult) (i : ℕ) (q : TranslationRequest) (translation : Text)
    → Distinct batch
    → (process_collected t batch b fs).0 ≡ Result.ok (some r)
    → get_elem? batch i ≡ some q
    → get_elem? r.translations i ≡ some translation
    → fs q.future ≡ Future.pending
    → (process_collected t batch b fs).2 q.future ≡ Future.result (response r q translation)
unfolding process_collected
process_collected_delivers t [] b fs r i q translation d ok_lem e f p = cc
process_collected_delivers t (first ∷ rest) b fs r i q translation d succeeded e f p =
    let o = (process_batch t (first ∷ rest) b).0 in
    let (is_r, given) = finish_succeeded (first ∷ rest) o fs r succeeded in
    let same : r.requests ≡ first ∷ rest = process_batch_requests t (first ∷ rest) b r is_r in
    ap (λ z. z q.future) given
    ∙ distribute_delivers r r.requests r.translations fs i q translation (rw same d) (rw same e) f p
