-- ===== src/Auth/Tests/Accounts.antt =====
-- Runs of the hooks and of a registration.
use unitra_service_api.Common.{inl, List, ◌≡◌, refl, true, none, some, []}
use unitra_service_api.Common.Int.{negsuc}
use unitra_service_api.Common.Text.{codes, text_eq}
use unitra_service_api.Common.Str.{before, strip}
use mathlib.Core.List.{Mem}
use unitra_service_api.Application.{defaults}
use unitra_service_api.Application.Logging.{setup_logging, is_emitted}
use unitra_service_api.Batch.Config.{UserTier, tier_of_value}
use unitra_service_api.Auth.Hooks.{Hook, run_hook}
use unitra_service_api.Auth.Events.{Value, Event, ip_address, registered}
use unitra_service_api.Auth.Registration.{
  UserCreate, UserCreation, register, hook_failed, registered_as, register_own_tier,
}
use unitra_service_api.Auth.Hooks.Account.{argument, token_emitted}
use unitra_service_api.Auth.Users.{User, on_after_register, tier_minutes}
use unitra_service_api.Auth.Tests.{user}

-- A registration sets the minutes of the tier, and a tier that is not known raises.
registrations :
    (run_hook Hook.after_register user ≡ some (user, registered user))
    × (run_hook Hook.after_register (record user { tier = codes "gold" }) ≡ none)
unfolding run_hook on_after_register tier_of_value text_eq
registrations = (refl, refl)

token_emitted_example :
    (events : List Event) × (run_hook (Hook.after_forgot_password (codes "t")) user
      ≡ some (user, events))
    × ((e : Event) × Mem e events
        × (argument (codes "token") e.fields ≡ some (Value.text (codes "t")))
        × (is_emitted (setup_logging defaults) (codes "app.auth.manager") e.level ≡ true))
token_emitted_example =
    token_emitted defaults (codes "t") (Hook.after_forgot_password (codes "t")) user (inl refl)

-- The first address of the header counts, and the connection's without it.
addresses :
    (ip_address
        (some (record { forwarded = some (codes " 1.2.3.4 , 5.6.7.8"); client = some (codes "9") }))
      ≡ codes "1.2.3.4")
    × (ip_address (some (record { forwarded = some []; client = some (codes "9") })) ≡ codes "9")
    × (ip_address (some (record { forwarded = none; client = none })) ≡ codes "unknown")
unfolding ip_address before strip
addresses = (refl, refl, refl)

stored_tier :
    (r : UserCreate) (u : User)
    → some (record user { email = r.email; tier = r.tier }) ≡ some u
    → u.tier ≡ r.tier
stored_tier r u h = cc

-- fastapi-users that accepts every request.
abbrev accepting : UserCreation
accepting = record {
  create = λ r. some (record user { email = r.email; tier = r.tier });
  create-tier = stored_tier;
}

-- Someone who registers as enterprise.
abbrev bold : UserCreate
bold = record { email = codes "b@x.org"; password = codes "p"; tier = codes "enterprise" }

register_own_tier_example :
    ((t : UserTier)
      → tier_of_value bold.tier ≡ some t
      → (v : User) × (register accepting bold ≡ registered_as v)
        × (v.tier ≡ bold.tier)
        × (v.translation_minutes_limit ≡ tier_minutes t))
    × (tier_of_value bold.tier ≡ none
        → register accepting bold
          ≡ hook_failed (record user { email = bold.email; tier = bold.tier }))
register_own_tier_example =
    register_own_tier accepting bold (record user { email = bold.email; tier = bold.tier }) refl

unlimited :
    register accepting bold
    ≡ registered_as
        (record user { email = bold.email; tier = bold.tier; translation_minutes_limit = negsuc 0 })
unfolding register on_after_register tier_of_value text_eq
unlimited = refl
