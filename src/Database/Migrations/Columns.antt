-- ===== src/Database/Migrations/Columns.antt =====
-- The columns of the migrated database, whatever it held before, beside those of the models.
use unitra_service_api.Common.{
  ◌≡◌, refl, Option, some, List, [], ◌∷◌, ◌++◌, map, ◌⊎◌, inl, inr, if◌then◌else◌, All,
}
use mathlib.Core.Option as Option
use unitra_service_api.Common.Text.{Text, codes, text_eq}
use unitra_service_api.Database.Schema.{
  Column, Table, Change, create_table, create_index, drop_table, drop_index, Alembic, run,
}
use unitra_service_api.Database.Migrations.{initial_schema, user_indexes, upgrade_head}
use unitra_service_api.Database.Migrations.RoundTrip.{bind_some, run-append}
use unitra_service_api.Database.Models.{
  subscription_model, usage_log_model, refresh_token_model, user_columns, inherited_names, stored,
  missing, has_column,
}

-- A change that only adds.
abbrev Adds : Change → Type 0
Adds (create_table t) = Unit
Adds (create_index i t cs) = Unit
Adds (drop_table t) = ⊥
Adds (drop_index i t) = ⊥

-- The columns of a table after changes that only add: those of its last creation.
declared : Text → List Change → Option (List Column) → Option (List Column)
declared n [] before = before
declared n (create_table t ∷ cs) before =
    declared n cs (if text_eq t.name n then some t.columns else before)
declared n (c ∷ cs) before = declared n cs before

module _ (op : Alembic) where
  columns-run :
      (n : Text) (cs : List Change) (s s' : op.State)
      → All Adds cs
      → run op cs s ≡ some s'
      → op.columns n s' ≡ declared n cs (op.columns n s)
  unfolding run declared
  columns-run n [] s s' adds h = cc
  columns-run n (create_table t ∷ cs) s s' (_, adds) h =
      let (m, created, later) = bind_some (op.create_table t s) _ s' h in
      rw (columns-run n cs m s' adds later) (rw (op.columns-create_table t n s m created) refl)
  columns-run n (create_index i t is ∷ cs) s s' (_, adds) h =
      let (m, created, later) = bind_some (op.create_index i t is s) _ s' h in
      rw (columns-run n cs m s' adds later) (rw (op.columns-create_index i t is n s m created) refl)
  columns-run n (drop_table t ∷ cs) s s' (impossible, adds) h = absurd impossible
  columns-run n (drop_index i t ∷ cs) s s' (impossible, adds) h = absurd impossible

  columns-upgrade_head :
      (n : Text) (s s' : op.State)
      → upgrade_head op s ≡ some s'
      → op.columns n s'
        ≡ declared n (initial_schema.upgrade ++ user_indexes.upgrade) (op.columns n s)
  unfolding upgrade_head initial_schema user_indexes
  columns-upgrade_head n s s' h =
      columns-run n (initial_schema.upgrade ++ user_indexes.upgrade) s s'
        (tt, (tt, (tt, (tt, (tt, (tt, (tt, (tt, (tt, (tt, (tt, (tt, tt))))))))))))
        (rw (run-append op initial_schema.upgrade user_indexes.upgrade s) h)

  -- After the upgrade to the head, the tables of the subscriptions, usage logs and refresh tokens
  -- have exactly the columns that the models declare, whatever the database held before: the same
  -- names, types, keys and constraints, in the same order, but for the defaults of the server.
  pub upgrade_head_models :
      (t : Table) (s s' : op.State)
      → (t ≡ subscription_model) ⊎ (t ≡ usage_log_model) ⊎ (t ≡ refresh_token_model)
      → upgrade_head op s ≡ some s'
      → Option.map (map stored) (op.columns t.name s') ≡ some (map stored t.columns)
  unfolding declared initial_schema user_indexes text_eq
  upgrade_head_models t s s' (inl e) h =
      rw e (rw (columns-upgrade_head (codes "subscriptions") s s' h) refl)
  upgrade_head_models t s s' (inr (inl e)) h =
      rw e (rw (columns-upgrade_head (codes "usage_logs") s s' h) refl)
  upgrade_head_models t s s' (inr (inr e)) h =
      rw e (rw (columns-upgrade_head (codes "refresh_tokens") s s' h) refl)

  -- After the upgrade to the head, the table of the users lacks seven columns of the model `User`,
  -- the password hash under its name among them.
  pub upgrade_head_users :
      (s s' : op.State)
      → upgrade_head op s ≡ some s'
      → Option.map
          (missing (inherited_names ++ map Column.name user_columns))
          (op.columns (codes "users") s')
        ≡ some (
            codes "hashed_password"
            ∷ codes "is_superuser"
            ∷ codes "stripe_subscription_id"
            ∷ codes "translation_minutes_used"
            ∷ codes "translation_minutes_limit"
            ∷ codes "last_login_at"
            ∷ codes "login_count"
            ∷ [])
  unfolding declared initial_schema user_indexes text_eq missing has_column
  upgrade_head_users s s' h = rw (columns-upgrade_head (codes "users") s s' h) refl
