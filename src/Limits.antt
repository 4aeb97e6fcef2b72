-- ===== src/Limits.antt =====
-- app/core/limits.py: what each tier may use.
use unitra_service_api.Common.{ℕ, Bool, true, false, Option, none, some, if◌then◌else◌}
use unitra_service_api.Common.Text.{Text, codes, text_eq}

pub data Tier : Type 0 where
  free basic pro enterprise : Tier

pub record TierLimits : Type 0 where
  pub tokens_per_week : ℕ
  pub requests_per_minute : ℕ
  pub cloud_mt_allowed : Bool
  pub priority_support : Bool

-- `TIER_LIMITS`
abbrev pub tier_limits : Tier → TierLimits
tier_limits Tier.free = record {
  tokens_per_week = 10000;
  requests_per_minute = 20;
  cloud_mt_allowed = false;
  priority_support = false;
}
tier_limits Tier.basic = record {
  tokens_per_week = 100000;
  requests_per_minute = 60;
  cloud_mt_allowed = true;
  priority_support = false;
}
tier_limits Tier.pro = record {
  tokens_per_week = 500000;
  requests_per_minute = 120;
  cloud_mt_allowed = true;
  priority_support = true;
}
tier_limits Tier.enterprise = record {
  tokens_per_week = 5000000;
  requests_per_minute = 300;
  cloud_mt_allowed = true;
  priority_support = true;
}

-- `Tier(s)`: the member with that value, or a ValueError.
unfoldable pub tier_of_value : Text → Option Tier
tier_of_value s =
    if text_eq s (codes "free")
    then some Tier.free
    else if text_eq s (codes "basic")
    then some Tier.basic
    else if text_eq s (codes "pro")
    then some Tier.pro
    else if text_eq s (codes "enterprise")
    then some Tier.enterprise
    else none

-- `get_tier_limits`, of a text; a Tier is its text as well.
unfoldable pub get_tier_limits : Text → TierLimits
unfolding tier_of_value
get_tier_limits s = elim (tier_of_value s) [ some t ↦ tier_limits t | none ↦ tier_limits Tier.free ]
