-- ===== src/Migrations/Versions.antt =====
-- alembic/versions: the three migrations, in the order of their revisions.
use agentic_enterprise.Base.{true, false, none, some, List, [], ◌∷◌, ◌++◌, Text, codes}
use agentic_enterprise.Migrations.{
  ColumnType, integer, uuid, text, timestamp, bytea, jsonb, string, Column, Operation, create_table,
  create_index, drop_table, drop_index, Migration,
}

abbrev pub required : Text → ColumnType → Column
required name type_ = record { name = name; type_ = type_; nullable = false; server_default = none }

abbrev pub optional : Text → ColumnType → Column
optional name type_ = record (required name type_) { nullable = true }

abbrev pub defaulted : Text → ColumnType → Text → Column
defaulted name type_ default = record (required name type_) { server_default = some default }

abbrev pub created_at : Column
created_at = defaulted (codes "created_at") timestamp (codes "now()")

abbrev pub updated_at : Column
updated_at = defaulted (codes "updated_at") timestamp (codes "now()")

unfoldable pub baseline_upgrade : List Operation
baseline_upgrade =
    create_table (codes "agent_executions")
      (required (codes "id") uuid
        ∷ required (codes "request_id") uuid
        ∷ required (codes "agent_id") (string none)
        ∷ required (codes "status") (string none)
        ∷ created_at
        ∷ updated_at
        ∷ [])
      (codes "id" ∷ [])
    ∷ create_index (codes "ix_agent_executions_request_id") (codes "agent_executions")
        (codes "request_id" ∷ [])
    ∷ create_table (codes "file_audit_events")
        (required (codes "id") integer
          ∷ required (codes "path") (string (some 1024))
          ∷ required (codes "action") (string (some 32))
          ∷ required (codes "byte_count") integer
          ∷ required (codes "preview") text
          ∷ created_at
          ∷ updated_at
          ∷ [])
        (codes "id" ∷ [])
    ∷ create_table (codes "thread_ownership")
        (required (codes "thread_id") (string none)
          ∷ required (codes "owner_username") (string none)
          ∷ created_at
          ∷ updated_at
          ∷ [])
        (codes "thread_id" ∷ [])
    ∷ create_index (codes "ix_thread_ownership_owner_username") (codes "thread_ownership")
        (codes "owner_username" ∷ [])
    ∷ []

unfoldable pub baseline_downgrade : List Operation
baseline_downgrade =
    drop_index (codes "ix_thread_ownership_owner_username")
    ∷ drop_table (codes "thread_ownership")
    ∷ drop_table (codes "file_audit_events")
    ∷ drop_index (codes "ix_agent_executions_request_id")
    ∷ drop_table (codes "agent_executions")
    ∷ []

abbrev pub baseline : Migration
baseline = record {
  revision = codes "5a228e071209";
  down_revision = none;
  upgrade = baseline_upgrade;
  downgrade = baseline_downgrade;
}

unfoldable pub balance_query_upgrade : List Operation
balance_query_upgrade =
    create_table (codes "balance_query_events")
      (required (codes "id") integer
        ∷ required (codes "account_id") (string (some 64))
        ∷ optional (codes "thread_id") (string (some 128))
        ∷ optional (codes "username") (string (some 128))
        ∷ required (codes "outcome") (string (some 16))
        ∷ optional (codes "detail") (string (some 256))
        ∷ created_at
        ∷ updated_at
        ∷ [])
      (codes "id" ∷ [])
    ∷ []

unfoldable pub balance_query_downgrade : List Operation
balance_query_downgrade = drop_table (codes "balance_query_events") ∷ []

abbrev pub balance_query : Migration
balance_query = record {
  revision = codes "6e8da6865934";
  down_revision = some (codes "5a228e071209");
  upgrade = balance_query_upgrade;
  downgrade = balance_query_downgrade;
}

unfoldable pub code_execution_upgrade : List Operation
code_execution_upgrade =
    create_table (codes "code_execution_events")
      (required (codes "id") integer
        ∷ optional (codes "thread_id") (string (some 128))
        ∷ required (codes "code_length") integer
        ∷ required (codes "outcome") (string (some 16))
        ∷ optional (codes "detail") (string (some 512))
        ∷ created_at
        ∷ updated_at
        ∷ [])
      (codes "id" ∷ [])
    ∷ drop_index (codes "checkpoints_thread_id_idx")
    ∷ drop_table (codes "checkpoints")
    ∷ drop_index (codes "checkpoint_blobs_thread_id_idx")
    ∷ drop_table (codes "checkpoint_blobs")
    ∷ drop_table (codes "checkpoint_migrations")
    ∷ drop_index (codes "checkpoint_writes_thread_id_idx")
    ∷ drop_table (codes "checkpoint_writes")
    ∷ []

unfoldable pub code_execution_downgrade : List Operation
code_execution_downgrade =
    create_table (codes "checkpoint_writes")
      (required (codes "thread_id") text
        ∷ defaulted (codes "checkpoint_ns") text (codes "''::text")
        ∷ required (codes "checkpoint_id") text
        ∷ required (codes "task_id") text
        ∷ required (codes "idx") integer
        ∷ required (codes "channel") text
        ∷ optional (codes "type") text
        ∷ required (codes "blob") bytea
        ∷ defaulted (codes "task_path") text (codes "''::text")
        ∷ [])
      (codes "thread_id"
        ∷ codes "checkpoint_ns"
        ∷ codes "checkpoint_id"
        ∷ codes "task_id"
        ∷ codes "idx"
        ∷ [])
    ∷ create_index (codes "checkpoint_writes_thread_id_idx") (codes "checkpoint_writes")
        (codes "thread_id" ∷ [])
    ∷ create_table (codes "checkpoint_migrations") (required (codes "v") integer ∷ [])
        (codes "v" ∷ [])
    ∷ create_table (codes "checkpoint_blobs")
        (required (codes "thread_id") text
          ∷ defaulted (codes "checkpoint_ns") text (codes "''::text")
          ∷ required (codes "channel") text
          ∷ required (codes "version") text
          ∷ required (codes "type") text
          ∷ optional (codes "blob") bytea
          ∷ [])
        (codes "thread_id" ∷ codes "checkpoint_ns" ∷ codes "channel" ∷ codes "version" ∷ [])
    ∷ create_index (codes "checkpoint_blobs_thread_id_idx") (codes "checkpoint_blobs")
        (codes "thread_id" ∷ [])
    ∷ create_table (codes "checkpoints")
        (required (codes "thread_id") text
          ∷ defaulted (codes "checkpoint_ns") text (codes "''::text")
          ∷ required (codes "checkpoint_id") text
          ∷ optional (codes "parent_checkpoint_id") text
          ∷ optional (codes "type") text
          ∷ required (codes "checkpoint") jsonb
          ∷ defaulted (codes "metadata") jsonb (codes "'{}'::jsonb")
          ∷ [])
        (codes "thread_id" ∷ codes "checkpoint_ns" ∷ codes "checkpoint_id" ∷ [])
    ∷ create_index (codes "checkpoints_thread_id_idx") (codes "checkpoints")
        (codes "thread_id" ∷ [])
    ∷ drop_table (codes "code_execution_events")
    ∷ []

abbrev pub code_execution : Migration
code_execution = record {
  revision = codes "4b3e4acd205a";
  down_revision = some (codes "6e8da6865934");
  upgrade = code_execution_upgrade;
  downgrade = code_execution_downgrade;
}

-- `alembic upgrade head` on a database without a revision.
abbrev pub versions : List Migration
versions = baseline ∷ balance_query ∷ code_execution ∷ []

unfoldable pub upgrade_head : List Migration → List Operation
upgrade_head [] = []
upgrade_head (m ∷ ms) = m.upgrade ++ upgrade_head ms
