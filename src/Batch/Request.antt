-- ===== src/Batch/Request.antt =====
-- app/services/batch/queue.py, `TranslationRequest` and `PrioritizedRequest`. Times are whole
-- microseconds, the starvation boost is in millionths of a priority level per second, and so a
-- priority is a whole number of 10^-12 levels: the arithmetic on floats without its rounding.
use unitra_service_api.Common.{ℕ, ◌*◌}
use unitra_service_api.Common.Int.{ℤ, pos, sub_ℕ, ◌+ℤ◌, ◌*ℕ◌, neg_ℤ}
use unitra_service_api.Common.Text.{Text}
use unitra_service_api.Batch.Config.{UserTier, tier_configs}

-- `future` is the address of the future that the submitter waits on.
pub record TranslationRequest : Type 0 where
  pub text : Text
  pub source_lang : Text
  pub target_lang : Text
  pub user_id : Text
  pub tier : UserTier
  pub request_id : Text
  pub timestamp : ℕ
  pub future : ℕ

-- One level of priority.
abbrev pub level : ℕ
level = 1000000000000

-- `0.5` levels a second, the default of `TranslationQueue` and of `get_priority`.
abbrev pub default_boost : ℕ
default_boost = 500000

-- `get_priority`: the clock may have been set back, so the wait is an integer.
unfoldable pub get_priority : ℕ → ℕ → TranslationRequest → ℤ
get_priority boost now r =
    let base_priority = (tier_configs r.tier).priority in
    let wait_time = sub_ℕ now r.timestamp in
    let time_boost = wait_time *ℕ boost in neg_ℤ (pos (base_priority * level) +ℤ time_boost)

-- `get_wait_time_ms`, in microseconds.
unfoldable pub get_wait_time : ℕ → TranslationRequest → ℤ
get_wait_time now r = sub_ℕ now r.timestamp

-- The wrapper compares by `priority` alone.
pub record PrioritizedRequest : Type 0 where
  pub priority : ℤ
  pub request : TranslationRequest

abbrev pub priority_of : PrioritizedRequest → ℤ
priority_of p = p.priority
