-- ===== src/Batch/Queue/Priority.antt =====
-- The order of two waiting requests: what `get_priority` compares, and for how long an older request
-- can be passed over.
use unitra_service_api.Common.{ℕ, ◌+◌, ◌*◌, ◌≤◌, ◌≡◌, ◌↔◌, ap, arith}
use unitra_service_api.Common.Int.{
  pos, pos_part, neg_part, sub_ℕ, sub_ℕ_parts, ◌+ℤ◌, ◌*ℕ◌, ◌≤ℤ◌, *ℕ_parts, +ℤ_parts, neg_ℤ_parts,
}
use unitra_service_api.Batch.Config.{tier_configs, priority_bounds}
use unitra_service_api.Batch.Request.{TranslationRequest, level, default_boost, get_priority}

abbrev pub base : TranslationRequest → ℕ
base r = (tier_configs r.tier).priority

wait_parts : (a b n : ℕ) → pos_part (sub_ℕ a b *ℕ n) + b * n ≡ neg_part (sub_ℕ a b *ℕ n) + a * n
wait_parts a b n = omega (arith, *ℕ_parts (sub_ℕ a b) n, ap (λ (t : ℕ). t * n) (sub_ℕ_parts a b))

pub priority_parts :
    (boost now : ℕ) (r : TranslationRequest)
    → pos_part (get_priority boost now r) + base r * level + now * boost
      ≡ neg_part (get_priority boost now r) + r.timestamp * boost
unfolding get_priority
priority_parts boost now r = omega (
  arith,
  neg_ℤ_parts (pos (base r * level) +ℤ sub_ℕ now r.timestamp *ℕ boost),
  +ℤ_parts (pos (base r * level)) (sub_ℕ now r.timestamp *ℕ boost),
  wait_parts now r.timestamp boost,
)

module _ (boost now : ℕ) (r r' : TranslationRequest) where
  -- The clock does not matter to which of two requests goes first: both gain at one rate.
  pub priority_iff :
      (get_priority boost now r ≤ℤ get_priority boost now r')
      ↔ (base r' * level + r.timestamp * boost ≤ base r * level + r'.timestamp * boost)
  priority_iff = (
    λ h. omega (arith, priority_parts boost now r, priority_parts boost now r'),
    λ h. omega (arith, priority_parts boost now r, priority_parts boost now r'),
  )

-- At the default boost only a request that arrived less than 6 seconds later can go first.
pub overtaking_bound :
    (now : ℕ) (r r' : TranslationRequest)
    → get_priority default_boost now r ≤ℤ get_priority default_boost now r'
    → r.timestamp ≤ r'.timestamp + 6000000
overtaking_bound now r r' h = omega (
  arith,
  (priority_iff default_boost now r r').0 h,
  priority_bounds r.tier,
  priority_bounds r'.tier,
)
