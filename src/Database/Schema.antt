-- ===== src/Database/Schema.antt =====
-- What app/models and alembic/versions say of tables: columns, tables and changes of a schema, and
-- the operations of Alembic on a database, which are not in the repository, as an interface.
pub mod Memory
use unitra_service_api.Common.{
  ℕ, ◌≡◌, Bool, true, false, Option, none, some, List, [], ◌∷◌, if◌then◌else◌,
}
use unitra_service_api.Common.Text.{Text, text_eq}

pub data ColumnType : Type 0 where
  -- `UUID(as_uuid=True)`, `Boolean`, `Integer`, `BigInteger` and `DateTime(timezone=True)`
  uuid boolean integer big_integer timestamp : ColumnType
  -- `String` with its length
  string : ℕ → ColumnType

pub data ServerDefault : Type 0 where
  literal : Text → ServerDefault
  -- `func.now()`
  now : ServerDefault

pub record Column : Type 0 where
  pub name : Text
  pub type : ColumnType
  pub nullable : Bool
  pub unique : Bool
  pub primary_key : Bool
  -- the table whose `id` the column refers to; its rows go with those of that table
  pub references : Option Text
  pub server_default : Option ServerDefault

pub record Table : Type 0 where
  pub name : Text
  pub columns : List Column

-- A call of `op`.
pub data Change : Type 0 where
  create_table : Table → Change
  -- index, table, columns
  create_index : Text → Text → List Text → Change
  drop_table : Text → Change
  drop_index : Text → Text → Change

-- The database under `op`: each operation gives nothing if the database refuses it.
pub record Alembic : Type 1 where
  pub State : Type 0
  pub create_table : Table → State → Option State
  pub create_index : Text → Text → List Text → State → Option State
  pub drop_table : Text → State → Option State
  pub drop_index : Text → Text → State → Option State
  -- the columns of a table, if it exists
  pub columns : Text → State → Option (List Column)
  pub drop_table-create_table :
      (t : Table) (s s' : State) → create_table t s ≡ some s' → drop_table t.name s' ≡ some s
  -- A table takes its indexes with it.
  pub drop_table-create_index :
      (i t : Text) (cs : List Text) (s s' : State)
      → create_index i t cs s ≡ some s'
      → drop_table t s' ≡ drop_table t s
  pub drop_index-create_index :
      (i t : Text) (cs : List Text) (s s' : State)
      → create_index i t cs s ≡ some s'
      → drop_index i t s' ≡ some s
  pub columns-create_table :
      (t : Table) (n : Text) (s s' : State)
      → create_table t s ≡ some s'
      → columns n s' ≡ (if text_eq t.name n then some t.columns else columns n s)
  pub columns-create_index :
      (i t : Text) (cs : List Text) (n : Text) (s s' : State)
      → create_index i t cs s ≡ some s'
      → columns n s' ≡ columns n s

infixl 5 ◌>>=◌
abbrev pub ◌>>=◌ : {A B : Type 0} → Option A → (A → Option B) → Option B
none >>= f = none
some a >>= f = f a

module _ (op : Alembic) where
  abbrev pub change : Change → op.State → Option op.State
  change (Change.create_table t) s = op.create_table t s
  change (Change.create_index i t cs) s = op.create_index i t cs s
  change (Change.drop_table t) s = op.drop_table t s
  change (Change.drop_index i t) s = op.drop_index i t s

  -- The calls of a migration, in one transaction: at the first that is refused it gives nothing.
  unfoldable pub run : List Change → op.State → Option op.State
  run [] s = some s
  run (c ∷ cs) s = do s' ← change c s; run cs s'

-- A column without a default that is neither unique nor null.
abbrev pub column : Text → ColumnType → Column
column name type = record {
  name = name;
  type = type;
  nullable = false;
  unique = false;
  primary_key = false;
  references = none;
  server_default = none;
}

abbrev pub primary : Text → ColumnType → Column
primary name type = record (column name type) { primary_key = true }

abbrev pub foreign_key : Text → Text → Column
foreign_key name table = record (column name ColumnType.uuid) { references = some table }

abbrev pub unique_column : Text → ColumnType → Column
unique_column name type = record (column name type) { unique = true }

abbrev pub defaulted : Text → ColumnType → ServerDefault → Column
defaulted name type default = record (column name type) { server_default = some default }
