-- ===== src/Database/Tests.antt =====
-- Runs of the migrations on a schema in memory, with the examples of the theorems about them.
use mathlib.Core.Option as Option
use unitra_service_api.Common.{◌≡◌, refl, none, some, [], ◌∷◌, ◌++◌, map}
use unitra_service_api.Common.Text.{codes}
use unitra_service_api.Database.Schema.{uuid, primary, run}
use unitra_service_api.Database.Schema.Memory.{memory, memory_runs}
use unitra_service_api.Database.Models.{user_columns, inherited_names, missing}
use unitra_service_api.Database.Migrations.{
  initial_schema, user_indexes, upgrade_head, downgrade_base,
}
use unitra_service_api.Database.Migrations.RoundTrip.{downgrade_base-upgrade_head}
use unitra_service_api.Database.Migrations.Columns.{upgrade_head_users}

-- A database that has a table of another program.
abbrev other_program : memory.State
other_program =
    (record { name = codes "events"; columns = primary (codes "id") uuid ∷ [] }, []) ∷ []

-- A database that has a table of users already.
abbrev taken : memory.State
taken = (record { name = codes "users"; columns = primary (codes "id") uuid ∷ [] }, []) ∷ []

-- ..., so the upgrade is refused.
refused_upgrade : upgrade_head memory taken ≡ none
unfolding memory_runs upgrade_head run initial_schema user_indexes
refused_upgrade = refl

migrated : (s : memory.State) × (upgrade_head memory other_program ≡ some s)
unfolding memory_runs upgrade_head run initial_schema user_indexes
migrated = (_, refl)

downgrade_base-upgrade_head_example : downgrade_base memory migrated.0 ≡ some other_program
downgrade_base-upgrade_head_example =
    downgrade_base-upgrade_head memory other_program migrated.0 migrated.1

upgrade_head_users_example :
    Option.map
      (missing (inherited_names ++ map (λ c. c.name) user_columns))
      (memory.columns (codes "users") migrated.0)
    ≡ some (
        codes "hashed_password"
        ∷ codes "is_superuser"
        ∷ codes "stripe_subscription_id"
        ∷ codes "translation_minutes_used"
        ∷ codes "translation_minutes_limit"
        ∷ codes "last_login_at"
        ∷ codes "login_count"
        ∷ [])
upgrade_head_users_example = upgrade_head_users memory other_program migrated.0 migrated.1
