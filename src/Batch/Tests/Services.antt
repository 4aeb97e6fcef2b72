-- ===== src/Batch/Tests/Services.antt =====
-- A run of the whole batch service: one worker, one request.
use unitra_service_api.Common.{◌≡◌, refl, true, some, [], ◌∷◌, ◌⊎◌, arith}
use unitra_service_api.Common.Int.{neg_ℤ, ◌+ℤ◌, ◌*ℕ◌}
use unitra_service_api.Common.Text.{codes}
use unitra_service_api.Batch.Config.{UserTier, tier_configs}
use unitra_service_api.Batch.Request.{TranslationRequest, get_priority}
use unitra_service_api.Batch.Http.{answered}
use unitra_service_api.Batch.Queue.{get, TranslationQueue, new_queue, put, get_locked}
use unitra_service_api.Batch.Collect.{FirstWait, collect_batch, effective_max, expired}
use unitra_service_api.Batch.Process.{Future, Timing, new_batcher}
use unitra_service_api.Batch.Tests.{heapq}
use unitra_service_api.Batch.Tests.Batches.{tick_at, reply}
use unitra_service_api.Batch.Service.{
  Task, System, Submission, TierArgument, start, submit, submit_all, accept, new_service,
  create_tasks, next_test, normalize_tier,
}
use unitra_service_api.Batch.Service.Steps.{
  Work, Step, Steps, queue_of, in_queue, with_workers, process, asks, force_cancel,
}
use unitra_service_api.Batch.Service.Places.{places}
use unitra_service_api.Batch.Service.Invariant.{new_system, pending_in_one_place, outcome_final}
use unitra_service_api.Batch.Service.Progress.{Serves, worker_can_finish}
use unitra_service_api.Batch.Service.Cancelled.{force_cancel_unanswered}
use unitra_service_api.Batch.Service.Submit.{IsSubmitted, submit_all_running}

abbrev submission : Submission
submission = record {
  text = codes "hello";
  source_lang = codes "en";
  target_lang = codes "de";
  user_id = codes "u";
  tier = TierArgument.member UserTier.pro;
  request_id = codes "r";
  created_at = 0;
  put_at = 0;
}

abbrev started : System
started = let s = new_system 1 2 1000 in record s { service = start s.service }

abbrev submitted : System
submitted = (submit submission started).1

abbrev awake : System
awake = with_workers (next_test submitted.service ∷ []) submitted

abbrev request : TranslationRequest
request = record {
  text = codes "hello";
  source_lang = codes "en";
  target_lang = codes "de";
  user_id = codes "u";
  tier = UserTier.pro;
  request_id = codes "r";
  timestamp = 0;
  future = 0;
}

abbrev left : TranslationQueue
left = (get_locked 0 (queue_of awake)).1

abbrev took : Task
took =
    Task.collecting request 0 (effective_max true (tier_configs UserTier.pro) left) (request ∷ [])

abbrev taken : System
taken = with_workers (took ∷ []) (in_queue left awake)

abbrev holding : System
holding = with_workers (Task.processing (request ∷ []) ∷ []) taken

abbrev timing : Timing
timing = record {
  collect_end = 1;
  process_start = 1;
  call_start = 1;
  process_end = 5;
  exchange = record {
    post = λ _. answered (record reply { translations = some (codes "hallo" ∷ []) });
    replied_at = λ n. n;
  };
}

abbrev processed : Task × System
processed = process (λ i. 9) timing (request ∷ []) holding

abbrev answered_all : System
answered_all = with_workers (processed.0 ∷ []) processed.1

to_submitted : Steps (new_system 1 2 1000) submitted
to_submitted = Steps.step (Steps.step (Steps.done _) (Step.starts _)) (Step.submits submission _)

to_awake : Steps (new_system 1 2 1000) awake
unfolding new_system new_service start create_tasks submit accept
to_awake = Steps.step to_submitted (Step.works [] [] Task.ready _ _ _ refl (Work.tests _))

to_taken : Steps (new_system 1 2 1000) taken
unfolding new_system new_service new_batcher new_queue start create_tasks submit accept next_test
    put normalize_tier get_locked get_priority neg_ℤ ◌+ℤ◌ ◌*ℕ◌
to_taken = Steps.step to_awake (
    Step.works [] [] Task.waiting_first took awake (in_queue left awake) refl
      (Work.takes 0 0 request left awake refl))

to_holding : Steps (new_system 1 2 1000) holding
unfolding new_system new_service new_batcher new_queue start create_tasks submit accept next_test
    put normalize_tier get_locked get_priority neg_ℤ ◌+ℤ◌ ◌*ℕ◌ effective_max asks expired
to_holding = Steps.step to_taken (
    Step.works [] [] took (Task.processing (request ∷ [])) taken taken refl
      (Work.completes (tick_at 100000) request 0 _ (request ∷ []) taken refl))

to_end : Steps (new_system 1 2 1000) answered_all
to_end = Steps.step to_holding (
    Step.works [] [] (Task.processing (request ∷ [])) processed.0 holding processed.1 refl
      (Work.processes (λ i. 9) timing (request ∷ []) holding))

pending_in_one_place_example : places 0 holding ≡ 1
unfolding new_system new_service new_batcher new_queue start create_tasks submit accept
pending_in_one_place_example = pending_in_one_place 0 1 2 1000 holding to_holding (omega arith) refl

force_cancel_unanswered_example :
    ((force_cancel holding).futures 0 ≡ Future.pending)
    ⊎ ((force_cancel holding).futures 0 ≡ Future.cancelled)
unfolding new_system new_service new_batcher new_queue start create_tasks submit accept
force_cancel_unanswered_example =
    force_cancel_unanswered 0 1 2 1000 holding (force_cancel holding) to_holding (omega arith) refl
      (omega arith) (Steps.done _)

-- The submitter has given up before its batch is processed.
abbrev given_up : System
given_up = record holding { futures = λ a. Future.cancelled }

abbrev processed_late : Task × System
processed_late = process (λ i. 9) timing (request ∷ []) given_up

outcome_final_example :
    (with_workers (processed_late.0 ∷ []) processed_late.1).futures 0 ≡ Future.cancelled
outcome_final_example =
    outcome_final 0 given_up (with_workers (processed_late.0 ∷ []) processed_late.1)
      (Steps.step (Steps.done _) (
        Step.works [] [] (Task.processing (request ∷ [])) processed_late.0 given_up processed_late.1
          refl (Work.processes (λ i. 9) timing (request ∷ []) given_up)))
      refl

submit_all_running_example :
    ((submit_all (submission ∷ []) started).0 ≡ true)
    × IsSubmitted
        (submission ∷ [])
        started
        (submit_all (submission ∷ []) started).2
        (submit_all (submission ∷ []) started).1
unfolding new_system new_service start
submit_all_running_example = submit_all_running (submission ∷ []) started refl

abbrev wait_now : FirstWait
wait_now = record { wakes = []; now = 0; start = 0 }

collected_one :
    collect_batch true wait_now (tick_at 100000 ∷ []) (queue_of awake) ≡ some (request ∷ [], left)
unfolding collect_batch get new_system new_service new_batcher new_queue start submit accept
    next_test put normalize_tier get_locked get_priority neg_ℤ ◌+ℤ◌ ◌*ℕ◌
collected_one = refl

worker_can_finish_example : Serves (λ i. 9) timing (request ∷ []) took taken
worker_can_finish_example = worker_can_finish (λ i. 9) timing took taken
