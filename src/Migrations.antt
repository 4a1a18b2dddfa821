-- ===== src/Migrations.antt =====
-- alembic/versions: the operations of the migrations, over a database that carries them out.
pub mod Versions
pub mod Effects
pub mod Checkpoints
pub mod Downgrades
pub mod Models
pub mod Environment
use agentic_enterprise.Base.{ℕ, Bool, Option, List, [], ◌∷◌, Text, Result, ok, ◌>>=◌, ◌>>◌}

-- sa.Integer, sa.String(length), sa.Uuid, sa.Text, sa.DateTime(timezone=True), BYTEA and JSONB.
pub data ColumnType : Type 0 where
  integer uuid text timestamp bytea jsonb : ColumnType
  string : Option ℕ → ColumnType

-- sa.Column: `server_default` is the text of the default.
pub record Column : Type 0 where
  pub name : Text
  pub type_ : ColumnType
  pub nullable : Bool
  pub server_default : Option Text

-- op.create_table with its primary key, op.drop_table, op.create_index on a table's columns, and
-- op.drop_index.
pub data Operation : Type 0 where
  create_table : Text → List Column → List Text → Operation
  create_index : Text → Text → List Text → Operation
  drop_table : Text → Operation
  drop_index : Text → Operation

-- A version: its id, the one before it, and what its two functions do in order.
pub record Migration : Type 0 where
  pub revision : Text
  pub down_revision : Option Text
  pub upgrade : List Operation
  pub downgrade : List Operation

-- Operations one after the other; an error of the database ends the run.
unfoldable pub run_operations :
    {S : Type 0} → (Operation → S → Result S) → List Operation → S → Result S
run_operations execute [] s = ok s
run_operations execute (o ∷ os) s = do s' ← execute o s; run_operations execute os s'
