-- ===== src/Migrations/Models.antt =====
-- app/models.py as SQLAlchemy's metadata, against the tables that the versions create.
use agentic_enterprise.Base.{
  ◌≡◌, none, some, List, [], ◌∷◌, ◌++◌, All, Text, codes, text_eq, Result, ok,
}
use agentic_enterprise.Migrations.{integer, uuid, text, string, Column, Operation, run_operations}
use agentic_enterprise.Migrations.Versions.{
  required, optional, created_at, updated_at, baseline_upgrade, balance_query_upgrade,
  code_execution_upgrade, versions, upgrade_head,
}
use agentic_enterprise.Migrations.Effects.{new_table, HonoursDdl, tables_after, run_tables}

-- A class of app/models.py: its table, the columns of its own, and its primary key.
pub record Model : Type 0 where
  pub tablename : Text
  pub own_columns : List Column
  pub primary_key : List Text

-- With the columns of TimestampMixin.
unfoldable pub model_columns : Model → List Column
model_columns m = m.own_columns ++ created_at ∷ updated_at ∷ []

abbrev id_column : Column
id_column = required (codes "id") integer

abbrev pub agent_execution : Model
agent_execution = record {
  tablename = codes "agent_executions";
  own_columns =
      required (codes "id") uuid
      ∷ required (codes "request_id") uuid
      ∷ required (codes "agent_id") (string none)
      ∷ required (codes "status") (string none)
      ∷ [];
  primary_key = codes "id" ∷ [];
}

abbrev pub thread_ownership : Model
thread_ownership = record {
  tablename = codes "thread_ownership";
  own_columns =
      required (codes "thread_id") (string none)
      ∷ required (codes "owner_username") (string none)
      ∷ [];
  primary_key = codes "thread_id" ∷ [];
}

abbrev pub file_audit_event : Model
file_audit_event = record {
  tablename = codes "file_audit_events";
  own_columns =
      id_column
      ∷ required (codes "path") (string (some 1024))
      ∷ required (codes "action") (string (some 32))
      ∷ required (codes "byte_count") integer
      ∷ required (codes "preview") text
      ∷ [];
  primary_key = codes "id" ∷ [];
}

abbrev pub balance_query_event : Model
balance_query_event = record {
  tablename = codes "balance_query_events";
  own_columns =
      id_column
      ∷ required (codes "account_id") (string (some 64))
      ∷ optional (codes "thread_id") (string (some 128))
      ∷ optional (codes "username") (string (some 128))
      ∷ required (codes "outcome") (string (some 16))
      ∷ optional (codes "detail") (string (some 256))
      ∷ [];
  primary_key = codes "id" ∷ [];
}

abbrev pub code_execution_event : Model
code_execution_event = record {
  tablename = codes "code_execution_events";
  own_columns =
      id_column
      ∷ optional (codes "thread_id") (string (some 128))
      ∷ required (codes "code_length") integer
      ∷ required (codes "outcome") (string (some 16))
      ∷ optional (codes "detail") (string (some 512))
      ∷ [];
  primary_key = codes "id" ∷ [];
}

-- Base.metadata
abbrev pub metadata : List Model
metadata =
    agent_execution ∷ thread_ownership ∷ file_audit_event ∷ balance_query_event
    ∷ code_execution_event ∷ []

module _ {S : Type 0} (execute : Operation → S → Result S) (ddl : HonoursDdl execute) where
  abbrev pub IsMigrated : S → Model → Type 0
  IsMigrated s m = ddl.tables s m.tablename ≡ some (new_table (model_columns m) m.primary_key)

  -- After `alembic upgrade head`, each class of app/models.py has its table, new, with exactly its
  -- columns in their types and sizes, and with its primary key.
  pub versions_create_models :
      (s s' : S)
      → run_operations execute (upgrade_head versions) s ≡ ok s'
      → All (IsMigrated s') metadata
  unfolding upgrade_head baseline_upgrade balance_query_upgrade code_execution_upgrade tables_after
      text_eq model_columns
  versions_create_models s s' ran =
      let made : (t : Text)
          → ddl.tables s' t ≡ tables_after (upgrade_head versions) t (ddl.tables s t) =
        λ t. run_tables execute ddl (upgrade_head versions) s s' t ran in
      (
        made (codes "agent_executions"),
        (
          made (codes "thread_ownership"),
          (
            made (codes "file_audit_events"),
            (made (codes "balance_query_events"), (made (codes "code_execution_events"), tt)),
          ),
        ),
      )
