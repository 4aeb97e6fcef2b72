-- ===== src/Database/Models.antt =====
-- The tables that the models of app/models and app/auth/models.py declare. A default that the
-- models compute themselves is not one of the server's.
use unitra_service_api.Common.{Bool, true, false, none, List, [], ◌∷◌, if◌then◌else◌}
use unitra_service_api.Common.Text.{Text, codes, text_eq}
use unitra_service_api.Database.Schema.{
  uuid, boolean, integer, big_integer, timestamp, string, now, Column, Table, column, primary,
  foreign_key, unique_column, defaulted,
}

-- `TimestampMixin`
abbrev pub timestamps : List Column
timestamps =
    defaulted (codes "created_at") timestamp now ∷ defaulted (codes "updated_at") timestamp now ∷ []

-- `Subscription`
abbrev pub subscription_model : Table
subscription_model = record {
  name = codes "subscriptions";
  columns =
      primary (codes "id") uuid
      ∷ foreign_key (codes "user_id") (codes "users")
      ∷ unique_column (codes "stripe_subscription_id") (string 255)
      ∷ column (codes "plan") (string 50)
      ∷ column (codes "status") (string 50)
      ∷ column (codes "current_period_start") timestamp
      ∷ column (codes "current_period_end") timestamp
      ∷ column (codes "cancel_at_period_end") boolean
      ∷ timestamps;
}

-- `UsageLog`
abbrev pub usage_log_model : Table
usage_log_model = record {
  name = codes "usage_logs";
  columns =
      primary (codes "id") big_integer
      ∷ foreign_key (codes "user_id") (codes "users")
      ∷ column (codes "tokens_used") integer
      ∷ column (codes "source_lang") (string 10)
      ∷ column (codes "target_lang") (string 10)
      ∷ column (codes "processing_location") (string 20)
      ∷ defaulted (codes "created_at") timestamp now
      ∷ [];
}

-- `RefreshToken`
abbrev pub refresh_token_model : Table
refresh_token_model = record {
  name = codes "refresh_tokens";
  columns =
      primary (codes "id") uuid
      ∷ foreign_key (codes "user_id") (codes "users")
      ∷ unique_column (codes "token_hash") (string 255)
      ∷ column (codes "expires_at") timestamp
      ∷ column (codes "revoked") boolean
      ∷ timestamps;
}

-- The columns that `User` declares itself; those of its base class come with fastapi-users.
abbrev pub user_columns : List Column
user_columns =
    column (codes "tier") (string 50)
    ∷ record (unique_column (codes "stripe_customer_id") (string 255)) { nullable = true }
    ∷ record (unique_column (codes "stripe_subscription_id") (string 255)) { nullable = true }
    ∷ column (codes "translation_minutes_used") integer
    ∷ column (codes "translation_minutes_limit") integer
    ∷ defaulted (codes "created_at") timestamp now
    ∷ defaulted (codes "updated_at") timestamp now
    ∷ record (column (codes "last_login_at") timestamp) { nullable = true }
    ∷ column (codes "login_count") integer
    ∷ []

-- The columns that the base class of `User` brings, by the comment on `User`.
abbrev pub inherited_names : List Text
inherited_names =
    codes "id"
    ∷ codes "email"
    ∷ codes "hashed_password"
    ∷ codes "is_active"
    ∷ codes "is_superuser"
    ∷ codes "is_verified"
    ∷ []

-- A column without what only the server fills in.
abbrev pub stored : Column → Column
stored c = record c { server_default = none }

-- The columns among some names that a table lacks.
unfoldable pub has_column : Text → List Column → Bool
has_column n [] = false
has_column n (c ∷ cs) = let rest = has_column n cs in if text_eq c.name n then true else rest

unfoldable pub missing : List Text → List Column → List Text
unfolding has_column
missing [] cs = []
missing (n ∷ ns) cs = let rest = missing ns cs in if has_column n cs then rest else n ∷ rest
