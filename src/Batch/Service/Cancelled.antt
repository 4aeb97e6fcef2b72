-- ===== src/Batch/Service/Cancelled.antt =====
-- What becomes of the requests that a worker holds when `stop` cancels it after its timeout.
use unitra_service_api.Common.{ℕ, ◌≤◌, ◌<◌, ◌≡◌, ◌∙◌, ◌⊎◌, arith, inl, inr}
use unitra_service_api.Batch.Queue.{Heap}
use unitra_service_api.Batch.Process.{Future}
use unitra_service_api.Batch.Service.{System, clear_workers}
use unitra_service_api.Batch.Service.Steps.{Steps, force_cancel}
use unitra_service_api.Batch.Service.Places.{held, places}
use unitra_service_api.Batch.Service.Evolution.{Evolves, Step-Evolves}
use unitra_service_api.Batch.Service.Invariant.{new_system, reachable-IsTracked}

-- A future that was made, that is pending or was cancelled, and whose request is nowhere.
record IsLost (a : ℕ) (s : System) : Type 0 where
  made : a < s.next
  nowhere : places a s ≡ 0
  unanswered : (s.futures a ≡ Future.pending) ⊎ (s.futures a ≡ Future.cancelled)

Evolves-IsLost : (a : ℕ) {s s' : System} → Evolves a s s' → IsLost a s → IsLost a s'
Evolves-IsLost a {s} {s'} (Evolves.born was is f p) v =
    let made = v.made in let no : ⊥ = omega arith in elim no [ ]
Evolves-IsLost a {s} {s'} (Evolves.moved later made_before fewer stays absent kept) v =
    let made = v.made in
    let nowhere = v.nowhere in
    record {
      made = omega arith;
      nowhere = omega arith;
      unanswered = elim (absent nowhere) [
        | inr c ↦ inr c.1
        | inl f ↦ elim v.unanswered [ inl p ↦ inl (f ∙ p) | inr c ↦ inr (f ∙ c) ]
      ];
    }

module _ ⦃H : Heap⦄ where
  Steps-IsLost : (a : ℕ) (s s' : System) → Steps s s' → IsLost a s → IsLost a s'
  Steps-IsLost a s s' (Steps.done _) v = v
  Steps-IsLost a s s' (Steps.step {s' = before} earlier last) v =
      Evolves-IsLost a (Step-Evolves a last) (Steps-IsLost a s before earlier v)

  -- If `stop` times out and cancels its workers while one of them holds the request of a pending
  -- future, then that future never receives a result or an exception, whatever happens afterwards,
  -- a restart included: it stays pending until its submitter's own timeout cancels it.
  pub force_cancel_unanswered :
      (a num_workers max_retries window : ℕ) (s s' : System)
      → Steps (new_system num_workers max_retries window) s
      → a < s.next
      → s.futures a ≡ Future.pending
      → 1 ≤ held a s.service.workers
      → Steps (force_cancel s) s'
      → (s'.futures a ≡ Future.pending) ⊎ (s'.futures a ≡ Future.cancelled)
  unfolding force_cancel clear_workers
  force_cancel_unanswered a n r w s s' path made p one later =
      let once = (reachable-IsTracked a n r w s path).once in
      (Steps-IsLost a (force_cancel s) s' later
        (record { made = made; nowhere = omega arith; unanswered = inl p })).unanswered
