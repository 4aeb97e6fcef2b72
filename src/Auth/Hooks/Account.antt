-- ===== src/Auth/Hooks/Account.antt =====
-- What the hooks of app/auth/manager.py leave of a user, what they log, and what of it is emitted.
use mathlib.Core.List.{Mem, mem-cons_self, mem-cons_of_mem}
use unitra_service_api.Common.{
  ◌≡◌, ◌≢◌, refl, true, Bool-cases, Option, none, some, List, [], ◌∷◌, ◌++◌, ◌⊎◌, inl, inr,
  Option-cases, All, if◌then◌else◌,
}
use unitra_service_api.Common.Text.{Text, codes, text_eq}
use unitra_service_api.Batch.Config.{UserTier, tier_of_value}
use unitra_service_api.Application.{Settings}
use unitra_service_api.Application.Logging.{warning, setup_logging, is_emitted, level_of}
use unitra_service_api.Auth.Users.{User, on_after_register, on_after_login}
use unitra_service_api.Auth.Hooks.{Hook, run_hook, with_events}
use unitra_service_api.Auth.Events.{
  Value, text, Event, subscription_cancellation, registered, token_event, token_requested,
}

-- The value of a keyword argument.
unfoldable pub argument : Text → List (Text × Value) → Option Value
argument k [] = none
argument k ((j, v) ∷ fields) = let rest = argument k fields in if text_eq j k then some v else rest

-- The event has the id of the user.
abbrev pub IsAbout : User → Event → Type 0
IsAbout user e = argument (codes "user_id") e.fields ≡ some (text user.id)

-- The two users are the same to anyone who checks access.
abbrev pub SameAccess : User → User → Type 0
SameAccess u v =
    (u.id ≡ v.id) × (u.email ≡ v.email) × (u.tier ≡ v.tier) × (u.is_active ≡ v.is_active)

-- What a run of a hook leaves and logs, if it does not raise, is about its user.
abbrev About : User → Option (User × List Event) → Type 0
About user none = Unit
About user (some (after, events)) = SameAccess user after × All (IsAbout user) events

cancellation-IsAbout :
    (user : User) (o : Option Text) (e : Event)
    → IsAbout user e
    → All (IsAbout user) (subscription_cancellation user o ++ e ∷ [])
unfolding argument text_eq
cancellation-IsAbout user none e h = (h, tt)
cancellation-IsAbout user (some []) e h = (h, tt)
cancellation-IsAbout user (some (c ∷ s)) e h = (refl, (h, tt))

registered-About : (user : User) → About user (with_events registered (on_after_register user))
unfolding on_after_register argument text_eq
registered-About user = elim (Option-cases (tier_of_value user.tier)) [
  | inl unknown ↦ rw (on_after_register, unknown) tt
  | inr (tier, known) ↦
      rw (on_after_register, known) ((refl, refl, refl, refl), (refl, (refl, (refl, tt))))
]

run_hook-About : (h : Hook) (user : User) → About user (run_hook h user)
unfolding run_hook argument text_eq on_after_login
run_hook-About Hook.after_register user = registered-About user
run_hook-About (Hook.after_login now request) user = ((refl, refl, refl, refl), (refl, tt))
run_hook-About (Hook.after_forgot_password token) user =
    ((refl, refl, refl, refl), (refl, (refl, tt)))
run_hook-About Hook.after_reset_password user = ((refl, refl, refl, refl), (refl, (refl, tt)))
run_hook-About (Hook.after_request_verify token) user =
    ((refl, refl, refl, refl), (refl, (refl, tt)))
run_hook-About Hook.after_verify user = ((refl, refl, refl, refl), (refl, (refl, tt)))
run_hook-About Hook.before_delete user =
    ((refl, refl, refl, refl), (refl, cancellation-IsAbout user user.stripe_subscription_id _ refl))
run_hook-About Hook.after_delete user = ((refl, refl, refl, refl), (refl, tt))
run_hook-About (Hook.after_update names) user = ((refl, refl, refl, refl), (refl, tt))

-- No hook changes the id, the email, the tier or the activity of its user, and every event that it
-- logs names the user by the id.
pub run_hook-IsAbout :
    (h : Hook) (user after : User) (events : List Event)
    → run_hook h user ≡ some (after, events)
    → SameAccess user after × All (IsAbout user) events
run_hook-IsAbout h user after events run = rw run at (run_hook-About h user)

registered_returns :
    (user : User) (tier : UserTier)
    → tier_of_value user.tier ≡ some tier
    → with_events registered (on_after_register user) ≢ none
unfolding on_after_register
registered_returns user tier known = rw (on_after_register, known) (λ h. cc)

-- A hook raises only after a registration, of a user whose tier is none of the known ones.
pub run_hook_raises :
    (h : Hook) (user : User)
    → run_hook h user ≡ none
    → (h ≡ Hook.after_register) × (tier_of_value user.tier ≡ none)
unfolding run_hook
run_hook_raises Hook.after_register user h = elim (Option-cases (tier_of_value user.tier)) [
  | inl unknown ↦ (refl, unknown)
  | inr (tier, known) ↦ absurd (registered_returns user tier known h)
]
run_hook_raises (Hook.after_login now request) user h = cc
run_hook_raises (Hook.after_forgot_password token) user h = cc
run_hook_raises Hook.after_reset_password user h = cc
run_hook_raises (Hook.after_request_verify token) user h = cc
run_hook_raises Hook.after_verify user h = cc
run_hook_raises Hook.before_delete user h = cc
run_hook_raises Hook.after_delete user h = cc
run_hook_raises (Hook.after_update names) user h = cc

abbrev logger_name : Text
logger_name = codes "app.auth.manager"

warnings_emitted :
    (settings : Settings) → is_emitted (setup_logging settings) logger_name warning ≡ true
unfolding is_emitted setup_logging level_of text_eq
warnings_emitted settings = elim (Bool-cases settings.debug) [
  | inl on ↦ rw (setup_logging, on) refl
  | inr off ↦ rw (setup_logging, off) refl
]

token_requested_emitted :
    (settings : Settings) (requested placeholder token : Text) (user : User)
    → (e : Event) × Mem e (token_requested requested placeholder token user)
      × (argument (codes "token") e.fields ≡ some (text token))
      × (is_emitted (setup_logging settings) logger_name e.level ≡ true)
unfolding argument text_eq
token_requested_emitted settings requested placeholder token user = (
  token_event placeholder token user,
  mem-cons_of_mem _ mem-cons_self,
  refl,
  warnings_emitted settings,
)

-- Whatever the settings, in production also, the token that resets a user's password and the one
-- that verifies the email are in the log, in an event that is emitted.
pub token_emitted :
    (settings : Settings) (token : Text) (h : Hook) (user : User)
    → (h ≡ Hook.after_forgot_password token) ⊎ (h ≡ Hook.after_request_verify token)
    → (events : List Event) × (run_hook h user ≡ some (user, events))
      × ((e : Event) × Mem e events
          × (argument (codes "token") e.fields ≡ some (text token))
          × (is_emitted (setup_logging settings) logger_name e.level ≡ true))
unfolding run_hook argument text_eq
token_emitted settings token h user (inl e) =
    let (event, found, named, emitted) =
      token_requested_emitted settings (codes "password_reset_requested")
        (codes "password_reset_token_placeholder") token user in
    rw e (_, refl, (event, found, named, emitted))
token_emitted settings token h user (inr e) =
    let (event, found, named, emitted) =
      token_requested_emitted settings (codes "verification_requested")
        (codes "verification_token_placeholder") token user in
    rw e (_, refl, (event, found, named, emitted))
