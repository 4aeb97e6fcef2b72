-- ===== src/Database/Migrations.antt =====
-- alembic/versions: the two migrations, in the order of their `down_revision`.
pub mod RoundTrip
pub mod Columns
use unitra_service_api.Common.{Bool, true, Option, none, some, List, [], ◌∷◌, ◌++◌}
use unitra_service_api.Common.Text.{Text, codes}
use unitra_service_api.Database.Schema.{
  ColumnType, uuid, boolean, integer, big_integer, timestamp, string, literal, now, Column, Table,
  Change, create_table, create_index, drop_table, drop_index, Alembic, run, ◌>>=◌, column, primary,
  foreign_key, unique_column, defaulted,
}

pub record Revision : Type 0 where
  pub revision : Text
  pub down_revision : Option Text
  pub upgrade : List Change
  pub downgrade : List Change

-- 001_initial_schema.py
abbrev pub users_table : Table
users_table = record {
  name = codes "users";
  columns =
      primary (codes "id") uuid
      ∷ unique_column (codes "email") (string 255)
      ∷ column (codes "password_hash") (string 255)
      ∷ defaulted (codes "tier") (string 50) (literal (codes "free"))
      ∷ record (unique_column (codes "stripe_customer_id") (string 255)) { nullable = true }
      ∷ defaulted (codes "is_active") boolean (literal (codes "true"))
      ∷ defaulted (codes "is_verified") boolean (literal (codes "false"))
      ∷ defaulted (codes "created_at") timestamp now
      ∷ defaulted (codes "updated_at") timestamp now
      ∷ [];
}

abbrev pub subscriptions_table : Table
subscriptions_table = record {
  name = codes "subscriptions";
  columns =
      primary (codes "id") uuid
      ∷ foreign_key (codes "user_id") (codes "users")
      ∷ unique_column (codes "stripe_subscription_id") (string 255)
      ∷ column (codes "plan") (string 50)
      ∷ column (codes "status") (string 50)
      ∷ column (codes "current_period_start") timestamp
      ∷ column (codes "current_period_end") timestamp
      ∷ defaulted (codes "cancel_at_period_end") boolean (literal (codes "false"))
      ∷ defaulted (codes "created_at") timestamp now
      ∷ defaulted (codes "updated_at") timestamp now
      ∷ [];
}

abbrev pub usage_logs_table : Table
usage_logs_table = record {
  name = codes "usage_logs";
  columns =
      primary (codes "id") big_integer
      ∷ foreign_key (codes "user_id") (codes "users")
      ∷ column (codes "tokens_used") integer
      ∷ column (codes "source_lang") (string 10)
      ∷ column (codes "target_lang") (string 10)
      ∷ column (codes "processing_location") (string 20)
      ∷ defaulted (codes "created_at") timestamp now
      ∷ [];
}

abbrev pub refresh_tokens_table : Table
refresh_tokens_table = record {
  name = codes "refresh_tokens";
  columns =
      primary (codes "id") uuid
      ∷ foreign_key (codes "user_id") (codes "users")
      ∷ unique_column (codes "token_hash") (string 255)
      ∷ column (codes "expires_at") timestamp
      ∷ defaulted (codes "revoked") boolean (literal (codes "false"))
      ∷ defaulted (codes "created_at") timestamp now
      ∷ defaulted (codes "updated_at") timestamp now
      ∷ [];
}

unfoldable pub initial_schema : Revision
initial_schema = record {
  revision = codes "001_initial_schema";
  down_revision = none;
  upgrade =
      create_table users_table
      ∷ create_index (codes "ix_users_email") (codes "users") (codes "email" ∷ [])
      ∷ create_index (codes "ix_users_stripe_customer_id") (codes "users")
          (codes "stripe_customer_id" ∷ [])
      ∷ create_table subscriptions_table
      ∷ create_index (codes "ix_subscriptions_user_id") (codes "subscriptions")
          (codes "user_id" ∷ [])
      ∷ create_table usage_logs_table
      ∷ create_index (codes "ix_usage_logs_user_created") (codes "usage_logs")
          (codes "user_id" ∷ codes "created_at" ∷ [])
      ∷ create_table refresh_tokens_table
      ∷ create_index (codes "ix_refresh_tokens_user_id") (codes "refresh_tokens")
          (codes "user_id" ∷ [])
      ∷ create_index (codes "ix_refresh_tokens_token_hash") (codes "refresh_tokens")
          (codes "token_hash" ∷ [])
      ∷ [];
  downgrade =
      drop_table (codes "refresh_tokens")
      ∷ drop_table (codes "usage_logs")
      ∷ drop_table (codes "subscriptions")
      ∷ drop_table (codes "users")
      ∷ [];
}

-- 9f1a74577453_add_user_tier_and_created_at_indexes.py
unfoldable pub user_indexes : Revision
user_indexes = record {
  revision = codes "9f1a74577453";
  down_revision = some (codes "001_initial_schema");
  upgrade =
      create_index (codes "ix_users_tier") (codes "users") (codes "tier" ∷ [])
      ∷ create_index (codes "ix_users_created_at") (codes "users") (codes "created_at" ∷ [])
      ∷ [];
  downgrade =
      drop_index (codes "ix_users_created_at") (codes "users")
      ∷ drop_index (codes "ix_users_tier") (codes "users")
      ∷ [];
}

module _ (op : Alembic) where
  -- `alembic upgrade head` on a database without revisions.
  unfoldable pub upgrade_head : op.State → Option op.State
  upgrade_head s = do s' ← run op initial_schema.upgrade s; run op user_indexes.upgrade s'

  -- `alembic downgrade base` from the head.
  unfoldable pub downgrade_base : op.State → Option op.State
  downgrade_base s = do s' ← run op user_indexes.downgrade s; run op initial_schema.downgrade s'
