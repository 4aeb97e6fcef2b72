-- ===== src/Auth/Hooks.antt =====
-- app/auth/manager.py: the hooks that fastapi-users calls, with what they log. The hooks that
-- change the user are in `Auth.Users`, the events in `Auth.Events`.
pub mod Address
pub mod Account
use unitra_service_api.Common.{ℕ, Option, none, some, List, [], ◌∷◌, ◌++◌, map}
use unitra_service_api.Common.Int.{ℤ, pos}
use unitra_service_api.Common.Text.{Text, codes}
use unitra_service_api.Common.Str.{before, strip}
use unitra_service_api.Application.Logging.{Level, debug, info, warning}
use unitra_service_api.Auth.Users.{User, on_after_register, on_after_login}
use unitra_service_api.Auth.Events.{
  Value, Event, ClientRequest, host_or_unknown, forwarded_or_client, ip_address, user_id_field,
  email_field, registered, logged_in, token_event, token_requested, password_reset, verified,
  subscription_cancellation, deletion_requested, deleted, updated_events,
}

-- A call of a hook, with its arguments beside the user.
pub data Hook : Type 0 where
  after_register after_reset_password after_verify before_delete after_delete : Hook
  -- the time of the login
  after_login : ℕ → Option ClientRequest → Hook
  after_forgot_password after_request_verify : Text → Hook
  -- the keys of `update_dict`
  after_update : List Text → Hook

abbrev pub with_events : (User → List Event) → Option User → Option (User × List Event)
with_events events none = none
with_events events (some user) = some (user, events user)

-- What a hook leaves of the user and logs; `none` where it raises.
unfoldable pub run_hook : Hook → User → Option (User × List Event)
run_hook Hook.after_register user = with_events registered (on_after_register user)
run_hook (Hook.after_login now request) user =
    with_events (logged_in request) (some (on_after_login now user))
run_hook (Hook.after_forgot_password token) user = some (
  user,
  token_requested (codes "password_reset_requested") (codes "password_reset_token_placeholder")
      token user,
)
run_hook Hook.after_reset_password user = some (user, password_reset user)
run_hook (Hook.after_request_verify token) user = some (
  user,
  token_requested (codes "verification_requested") (codes "verification_token_placeholder") token
      user,
)
run_hook Hook.after_verify user = some (user, verified user)
run_hook Hook.before_delete user = some (user, deletion_requested user)
run_hook Hook.after_delete user = some (user, deleted user)
run_hook (Hook.after_update names) user = some (user, updated_events names user)
