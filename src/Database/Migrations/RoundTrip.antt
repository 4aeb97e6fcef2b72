-- ===== src/Database/Migrations/RoundTrip.antt =====
-- The downgrades of alembic/versions undo the upgrades.
use unitra_service_api.Common.{
  ◌≡◌, refl, Option, none, some, List, [], ◌∷◌, ◌++◌, Option-cases, inl, inr,
}
use unitra_service_api.Common.Text.{Text, codes}
use unitra_service_api.Database.Schema.{
  Table, Change, create_table, create_index, drop_table, Alembic, change, run, ◌>>=◌,
}
use unitra_service_api.Database.Migrations.{
  users_table, subscriptions_table, usage_logs_table, refresh_tokens_table, initial_schema,
  user_indexes, upgrade_head, downgrade_base,
}

-- An index: its name and its columns.
abbrev Index : Type 0
Index = Text × List Text

abbrev index_all : Text → List Index → List Change
index_all t [] = []
index_all t ((i, cs) ∷ is) = create_index i t cs ∷ index_all t is

-- Tables with their indexes, created in order and dropped in the reverse order.
abbrev create_all : List (Table × List Index) → List Change
create_all [] = []
create_all ((t, is) ∷ bs) = create_table t ∷ (index_all t.name is ++ create_all bs)

abbrev drop_all : List (Table × List Index) → List Change
drop_all [] = []
drop_all ((t, _) ∷ bs) = drop_all bs ++ drop_table t.name ∷ []

abbrev tables : List (Table × List Index)
tables =
    (
      users_table,
      (codes "ix_users_email", codes "email" ∷ [])
          ∷ (codes "ix_users_stripe_customer_id", codes "stripe_customer_id" ∷ [])
          ∷ [],
    )
    ∷ (subscriptions_table, (codes "ix_subscriptions_user_id", codes "user_id" ∷ []) ∷ [])
    ∷ (
      usage_logs_table,
      (codes "ix_usage_logs_user_created", codes "user_id" ∷ codes "created_at" ∷ []) ∷ [],
    )
    ∷ (
      refresh_tokens_table,
      (codes "ix_refresh_tokens_user_id", codes "user_id" ∷ [])
          ∷ (codes "ix_refresh_tokens_token_hash", codes "token_hash" ∷ [])
          ∷ [],
    )
    ∷ []

module _ {A B : Type 0} where
  pub bind_some :
      (o : Option A) (f : A → Option B) (b : B)
      → (o >>= f) ≡ some b
      → (a : A) × (o ≡ some a) × (f a ≡ some b)
  bind_some none f b h = cc
  bind_some (some a) f b h = (a, refl, h)

module _ (op : Alembic) where
  pub run-append :
      (xs ys : List Change) (s : op.State) → run op (xs ++ ys) s ≡ (run op xs s >>= run op ys)
  unfolding run
  run-append [] ys s = refl
  run-append (x ∷ xs) ys s = elim (Option-cases (change op x s)) [
    | inl refused ↦ rw refused refl
    | inr (m, changed) ↦ rw changed (run-append xs ys m)
  ]

  run-index_all :
      (t : Text) (is : List Index) (rest : List Change) (s s' : op.State)
      → run op (index_all t is ++ rest) s ≡ some s'
      → (m : op.State) × (run op rest m ≡ some s') × (op.drop_table t m ≡ op.drop_table t s)
  unfolding run
  run-index_all t [] rest s s' h = (s, h, refl)
  run-index_all t ((i, cs) ∷ is) rest s s' h =
      let (m, created, later) = bind_some (op.create_index i t cs s) _ s' h in
      let (m', runs, same) = run-index_all t is rest m s' later in
      (m', runs, rw (same, op.drop_table-create_index i t cs s m created) refl)

  run-drop_all :
      (bs : List (Table × List Index)) (s s' : op.State)
      → run op (create_all bs) s ≡ some s'
      → run op (drop_all bs) s' ≡ some s
  unfolding run
  run-drop_all [] s s' h = cc
  run-drop_all ((t, is) ∷ bs) s s' h =
      let (m, created, later) = bind_some (op.create_table t s) _ s' h in
      let (m', runs, same) = run-index_all t.name is (create_all bs) m s' later in
      rw (run-append (drop_all bs) (drop_table t.name ∷ []) s')
        (rw (run-drop_all bs m' s' runs) (rw (same, op.drop_table-create_table t s m created) refl))

  initial_schema_undone :
      (s s' : op.State)
      → run op initial_schema.upgrade s ≡ some s'
      → run op initial_schema.downgrade s' ≡ some s
  unfolding initial_schema
  initial_schema_undone s s' h = run-drop_all tables s s' h

  user_indexes_undone :
      (s s' : op.State)
      → run op user_indexes.upgrade s ≡ some s'
      → run op user_indexes.downgrade s' ≡ some s
  unfolding user_indexes run
  user_indexes_undone s s' h =
      let (m, tier, more) = bind_some (op.create_index _ _ _ s) _ s' h in
      let (m', created_at, end) = bind_some (op.create_index _ _ _ m) _ s' more in
      let same : m' ≡ s' = cc in
      rw (← same) (
        rw (op.drop_index-create_index _ _ _ m m' created_at)
          (rw (op.drop_index-create_index _ _ _ s m tier) refl))

  -- If the upgrade to the head succeeds, then the downgrade to the base succeeds, and the database
  -- is as it was before: no table and no index is left, and nothing that was there before is lost.
  pub downgrade_base-upgrade_head :
      (s s' : op.State) → upgrade_head op s ≡ some s' → downgrade_base op s' ≡ some s
  unfolding upgrade_head downgrade_base
  downgrade_base-upgrade_head s s' h =
      let (m, initial, indexes) = bind_some (run op initial_schema.upgrade s) _ s' h in
      rw (user_indexes_undone m s' indexes) (initial_schema_undone s m initial)
