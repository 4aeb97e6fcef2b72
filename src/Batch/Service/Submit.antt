-- ===== src/Batch/Service/Submit.antt =====
-- What the callers of `translate` and `translate_batch` put into the queue.
use mathlib.Core.List.{Perm, perm_middle}
use mathlib.Core.List.Perm
use unitra_service_api.Common.{
  ℕ, ◌+◌, ◌≡◌, ◌≢◌, refl, ap, sym, ◌∙◌, true, false, some, List, [], ◌∷◌, ◌++◌, length, arith,
}
use unitra_service_api.Batch.Request.{TranslationRequest}
use unitra_service_api.Batch.Queue.{Heap, waiting}
use unitra_service_api.Batch.Queue.Content.{put-perm}
use unitra_service_api.Batch.Process.{Future, Futures, is_done}
use unitra_service_api.Batch.Process.Settling.{settle_pending, settle_ne}
use unitra_service_api.Batch.Service.{
  System, Submission, request_of, accept, submit, submit_all, awaited, await_future,
}
use unitra_service_api.Batch.Service.Steps.{queue_of}

-- `k` addresses from `n` on.
abbrev pub addresses {ℓ} : {A : Type ℓ} → ℕ → List A → List ℕ
addresses n [] = []
addresses n (c ∷ cs) = n ∷ addresses (n + 1) cs

abbrev pub requests_of : ℕ → List Submission → List TranslationRequest
requests_of n [] = []
requests_of n (c ∷ cs) = request_of c n ∷ requests_of (n + 1) cs

-- What a batch of submissions leaves.
pub record IsSubmitted ⦃H : Heap⦄ (cs : List Submission) (s s' : System) (made : List ℕ)
    : Type 0 where
  pub made_in_order : made ≡ addresses s.next cs
  pub next : s'.next ≡ s.next + length cs
  pub futures : s'.futures ≡ s.futures
  pub queued : Perm (waiting (queue_of s')) (requests_of s.next cs ++ waiting (queue_of s))

module _ ⦃H : Heap⦄ where
  submit_running :
      (c : Submission) (s : System)
      → s.service.running ≡ true
      → submit c s ≡ (some s.next, accept c s)
  unfolding submit
  submit_running c s e = simp e refl

  one_more :
      (c : Submission) (cs : List Submission) (s s' : System) (made : List ℕ)
      → IsSubmitted cs (accept c s) s' made
      → IsSubmitted (c ∷ cs) s s' (s.next ∷ made)
  unfolding accept
  one_more c cs s s' made v =
      let rs = requests_of (s.next + 1) cs in
      let r = request_of c s.next in
      record {
        made_in_order = ap (λ l. s.next ∷ l) v.made_in_order;
        next = omega (arith, v.next);
        futures = v.futures;
        queued = Perm.trans v.queued (
            Perm.trans (Perm.append_left rs (put-perm c.put_at r (queue_of s)))
              (perm_middle rs (waiting (queue_of s))));
      }

  -- On a running service, a call of `translate_batch` puts exactly one request for each text into
  -- the queue, with its own new future, in the order of the texts; no future gets a value, and none
  -- of the requests that already waited leaves the queue.
  pub submit_all_running :
      (cs : List Submission) (s : System)
      → s.service.running ≡ true
      → ((submit_all cs s).0 ≡ true) × IsSubmitted cs s (submit_all cs s).2 (submit_all cs s).1
  unfolding submit_all accept
  submit_all_running [] s e = (
    refl,
    record { made_in_order = refl; next = omega arith; futures = refl; queued = Perm.refl _ },
  )
  submit_all_running (c ∷ cs) s e =
      let (complete, rest) = submit_all_running cs (accept c s) e in
      rw (submit_all, submit_running c s e) (complete, one_more c cs s _ _ rest)

awaited_done :
    (a : ℕ) (fs : Futures) (v : Future)
    → fs a ≡ v
    → (is_done ((awaited a v fs).1 a) ≡ true)
      × ((b : ℕ) → a ≢ b → (awaited a v fs).1 b ≡ fs b)
      × (is_done (fs a) ≡ true → (awaited a v fs).1 ≡ fs)
awaited_done a fs Future.pending e = (
  ap is_done (settle_pending a Future.cancelled fs e),
  λ b h. settle_ne a b Future.cancelled fs h,
  λ d. let no : false ≡ true = ap is_done (sym e) ∙ d in cc,
)
awaited_done a fs (Future.result r) e = (ap is_done e, λ b h. refl, λ d. refl)
awaited_done a fs (Future.exception x) e = (ap is_done e, λ b h. refl, λ d. refl)
awaited_done a fs Future.cancelled e = (ap is_done e, λ b h. refl, λ d. refl)

-- When the wait of `translate` is over, its future is done, by the timeout if by nothing else; no
-- other future has changed, and if the future was done before, none has.
pub await_future_done :
    (a : ℕ) (fs : Futures)
    → (is_done ((await_future a fs).1 a) ≡ true)
      × ((b : ℕ) → a ≢ b → (await_future a fs).1 b ≡ fs b)
      × (is_done (fs a) ≡ true → (await_future a fs).1 ≡ fs)
unfolding await_future
await_future_done a fs = awaited_done a fs (fs a) refl
