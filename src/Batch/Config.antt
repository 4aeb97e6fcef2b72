-- ===== src/Batch/Config.antt =====
-- app/services/batch/config.py: the tiers and what each is promised.
use unitra_service_api.Common.{ℕ, ◌≤◌, ◌≡◌, Option, none, some, List, [], ◌∷◌, if◌then◌else◌, arith}
use unitra_service_api.Common.Text.{Text, codes, text_eq}

pub data UserTier : Type 0 where
  free basic pro enterprise : UserTier

pub record TierConfig : Type 0 where
  pub priority : ℕ
  pub max_batch_size : ℕ
  pub min_batch_size : ℕ
  pub max_wait_ms : ℕ
  pub target_latency_ms : ℕ

-- `TIER_CONFIGS`, a total table over the enum.
abbrev pub tier_configs : UserTier → TierConfig
tier_configs UserTier.free = record {
  priority = 1;
  max_batch_size = 32;
  min_batch_size = 8;
  max_wait_ms = 100;
  target_latency_ms = 200;
}
tier_configs UserTier.basic = record {
  priority = 2;
  max_batch_size = 16;
  min_batch_size = 4;
  max_wait_ms = 60;
  target_latency_ms = 160;
}
tier_configs UserTier.pro = record {
  priority = 3;
  max_batch_size = 12;
  min_batch_size = 4;
  max_wait_ms = 40;
  target_latency_ms = 135;
}
tier_configs UserTier.enterprise = record {
  priority = 4;
  max_batch_size = 8;
  min_batch_size = 2;
  max_wait_ms = 20;
  target_latency_ms = 110;
}

unfoldable pub get_tier_config : UserTier → TierConfig
get_tier_config tier = tier_configs tier

-- `list(UserTier)`, in the order of the enum.
abbrev pub user_tiers : List UserTier
user_tiers = UserTier.free ∷ UserTier.basic ∷ UserTier.pro ∷ UserTier.enterprise ∷ []

-- `UserTier.value` and `str(tier)`.
abbrev pub value : UserTier → Text
value UserTier.free = codes "free"
value UserTier.basic = codes "basic"
value UserTier.pro = codes "pro"
value UserTier.enterprise = codes "enterprise"

-- `UserTier(s)`: the member with that value, or a ValueError.
unfoldable pub tier_of_value : Text → Option UserTier
tier_of_value s =
    if text_eq s (codes "free")
    then some UserTier.free
    else if text_eq s (codes "basic")
    then some UserTier.basic
    else if text_eq s (codes "pro")
    then some UserTier.pro
    else if text_eq s (codes "enterprise")
    then some UserTier.enterprise
    else none

-- `tier_from_string` after `tier_str.lower()`, which the caller passes.
unfoldable pub tier_from_lower : Text → UserTier
unfolding tier_of_value
tier_from_lower s = elim (tier_of_value s) [ some tier ↦ tier | none ↦ UserTier.free ]

-- What the batcher relies on: a batch of one fits, and the smallest worthwhile one too.
pub tier_configs_sizes :
    (t : UserTier)
    → (1 ≤ (tier_configs t).min_batch_size)
      × ((tier_configs t).min_batch_size ≤ (tier_configs t).max_batch_size)
tier_configs_sizes UserTier.free = omega arith
tier_configs_sizes UserTier.basic = omega arith
tier_configs_sizes UserTier.pro = omega arith
tier_configs_sizes UserTier.enterprise = omega arith

pub priority_bounds :
    (t : UserTier) → (1 ≤ (tier_configs t).priority) × ((tier_configs t).priority ≤ 4)
priority_bounds UserTier.free = omega arith
priority_bounds UserTier.basic = omega arith
priority_bounds UserTier.pro = omega arith
priority_bounds UserTier.enterprise = omega arith

pub tier_of_value-value : (t : UserTier) → tier_of_value (value t) ≡ some t
unfolding tier_of_value text_eq
tier_of_value-value UserTier.free = ground arith
tier_of_value-value UserTier.basic = ground arith
tier_of_value-value UserTier.pro = ground arith
tier_of_value-value UserTier.enterprise = ground arith

pub max_wait_bound : (t : UserTier) → (tier_configs t).max_wait_ms ≤ 100
max_wait_bound UserTier.free = omega arith
max_wait_bound UserTier.basic = omega arith
max_wait_bound UserTier.pro = omega arith
max_wait_bound UserTier.enterprise = omega arith
