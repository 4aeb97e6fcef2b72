-- ===== src/Auth/Events.antt =====
-- What the hooks of app/auth/manager.py log.
use unitra_service_api.Common.{Option, none, some, List, [], ◌∷◌, ◌++◌}
use unitra_service_api.Common.Int.{ℤ, pos}
use unitra_service_api.Common.Text.{Text, codes}
use unitra_service_api.Common.Str.{before, strip}
use unitra_service_api.Application.Logging.{Level, debug, info, warning}
use unitra_service_api.Auth.Users.{User}

pub data Value : Type 0 where
  text : Text → Value
  number : ℤ → Value
  texts : List Text → Value

-- A call of the module's logger: the level, the event and the keyword arguments.
pub record Event : Type 0 where
  pub level : Level
  pub event : Text
  pub fields : List (Text × Value)

-- What a hook reads of `Request`.
pub record ClientRequest : Type 0 where
  -- the header X-Forwarded-For
  pub forwarded : Option Text
  -- `request.client.host`
  pub client : Option Text

abbrev pub host_or_unknown : Option Text → Text
host_or_unknown none = codes "unknown"
host_or_unknown (some host) = host

abbrev pub forwarded_or_client : Option Text → Option Text → Text
forwarded_or_client none client = host_or_unknown client
forwarded_or_client (some []) client = host_or_unknown client
forwarded_or_client (some (c ∷ s)) client = strip (before b',' (c ∷ s))

-- The IP address of `on_after_login`.
unfoldable pub ip_address : Option ClientRequest → Text
ip_address none = codes "unknown"
ip_address (some request) = forwarded_or_client request.forwarded request.client

-- The fields that all of the hooks' events start with, and what most go on with.
abbrev pub user_id_field : User → Text × Value
user_id_field user = (codes "user_id", Value.text user.id)

abbrev pub email_field : User → Text × Value
email_field user = (codes "email", Value.text user.email)

abbrev message_field : Text → Text × Value
message_field m = (codes "message", Value.text m)

-- The events of `on_after_register`.
abbrev pub registered : User → List Event
registered user =
    record {
      level = info;
      event = codes "user_registered";
      fields =
          user_id_field user
          ∷ email_field user
          ∷ (codes "tier", Value.text user.tier)
          ∷ (codes "minutes_limit", Value.number user.translation_minutes_limit)
          ∷ [];
    }
    ∷ record {
      level = debug;
      event = codes "stripe_customer_creation_placeholder";
      fields =
          user_id_field user
          ∷ message_field (codes "Stripe customer creation will be implemented in billing module")
          ∷ [];
    }
    ∷ record {
      level = debug;
      event = codes "welcome_email_placeholder";
      fields =
          user_id_field user
          ∷ email_field user
          ∷ message_field (codes "Welcome email will be sent when email service is configured")
          ∷ [];
    }
    ∷ []

-- The event of `on_after_login`.
abbrev pub logged_in : Option ClientRequest → User → List Event
logged_in request user =
    record {
      level = info;
      event = codes "user_logged_in";
      fields =
          user_id_field user
          ∷ email_field user
          ∷ (codes "ip_address", Value.text (ip_address request))
          ∷ (codes "login_count", Value.number (pos user.login_count))
          ∷ [];
    }
    ∷ []

abbrev pub token_event : Text → Text → User → Event
token_event placeholder token user = record {
  level = warning;
  event = placeholder;
  fields =
      user_id_field user
      ∷ (codes "token", Value.text token)
      ∷ message_field (codes "Send this token via email in production")
      ∷ [];
}

-- The events of `on_after_forgot_password` and `on_after_request_verify`, which log a token.
abbrev pub token_requested : Text → Text → Text → User → List Event
token_requested requested placeholder token user =
    record { level = info; event = requested; fields = user_id_field user ∷ email_field user ∷ [] }
    ∷ token_event placeholder token user
    ∷ []

abbrev pub password_reset : User → List Event
password_reset user =
    record {
      level = info;
      event = codes "password_reset_completed";
      fields = user_id_field user ∷ email_field user ∷ [];
    }
    ∷ record {
      level = debug;
      event = codes "session_invalidation_placeholder";
      fields =
          user_id_field user
          ∷ message_field
              (codes "Session invalidation will be implemented with refresh token rotation")
          ∷ [];
    }
    ∷ []

abbrev pub verified : User → List Event
verified user =
    record {
      level = info;
      event = codes "user_verified";
      fields = user_id_field user ∷ email_field user ∷ [];
    }
    ∷ record {
      level = debug;
      event = codes "verification_success_email_placeholder";
      fields =
          user_id_field user
          ∷ email_field user
          ∷ message_field
              (codes "Verification success email will be sent when email service is configured")
          ∷ [];
    }
    ∷ []

-- `if user.stripe_subscription_id:`
abbrev pub subscription_cancellation : User → Option Text → List Event
subscription_cancellation user none = []
subscription_cancellation user (some []) = []
subscription_cancellation user (some (c ∷ s)) =
    record {
      level = debug;
      event = codes "stripe_subscription_cancellation_placeholder";
      fields =
          user_id_field user
          ∷ (codes "subscription_id", Value.text (c ∷ s))
          ∷ message_field
              (codes "Stripe subscription cancellation will be implemented in billing module")
          ∷ [];
    }
    ∷ []

-- The events of `on_before_delete`.
abbrev pub deletion_requested : User → List Event
deletion_requested user =
    record {
      level = info;
      event = codes "user_deletion_requested";
      fields = user_id_field user ∷ email_field user ∷ (codes "tier", Value.text user.tier) ∷ [];
    }
    ∷ (subscription_cancellation user user.stripe_subscription_id
        ++ record {
          level = debug;
          event = codes "user_data_archival_placeholder";
          fields =
              user_id_field user
              ∷ message_field (codes "User data archival will be implemented for compliance")
              ∷ [];
        }
          ∷ [])

abbrev pub deleted : User → List Event
deleted user =
    record {
      level = info;
      event = codes "user_deleted";
      fields = user_id_field user ∷ email_field user ∷ [];
    }
    ∷ []

abbrev pub updated_events : List Text → User → List Event
updated_events names user =
    record {
      level = info;
      event = codes "user_updated";
      fields = user_id_field user ∷ (codes "updated_fields", Value.texts names) ∷ [];
    }
    ∷ []
