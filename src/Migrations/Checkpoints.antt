-- ===== src/Migrations/Checkpoints.antt =====
-- alembic/versions/4b3e4acd205a_add_code_execution_events.py and the tables of the saver: the version
-- drops them, as tables that app/models.py does not name.
use agentic_enterprise.Base.{
  ℕ, zero, suc, ◌≡◌, ap, Option, none, some, List, [], ◌∷◌, take, Text, codes, text_eq, Result, ok,
  Raises,
}
use agentic_enterprise.Migrations.{Operation, run_operations}
use agentic_enterprise.Migrations.Versions.{
  baseline_upgrade, balance_query_upgrade, code_execution_upgrade, code_execution, versions,
  upgrade_head,
}
use agentic_enterprise.Migrations.Effects.{
  Table, table_after, off_table, index_after, HonoursDdl, tables_after, indexes_after, AllAllowed,
  run_tables, missing_index-Raises, run_accepts,
}

abbrev skip : {A : Type 0} → ℕ → List A → List A
skip zero xs = xs
skip (suc n) [] = []
skip (suc n) (x ∷ xs) = skip n xs

module _ {S : Type 0} (execute : Operation → S → Result S) (ddl : HonoursDdl execute) where
  open ddl use {tables, indexes}

  -- The three versions do not run on a database in which the saver has not made its tables yet:
  -- `alembic upgrade head` raises wherever there is no index checkpoints_thread_id_idx, as the last
  -- version comes to drop it.
  fresh_upgrade-Raises :
      (s : S)
      → indexes s (codes "checkpoints_thread_id_idx") ≡ none
      → Raises (run_operations execute (upgrade_head versions) s)
  unfolding upgrade_head baseline_upgrade balance_query_upgrade code_execution_upgrade indexes_after
      text_eq
  fresh_upgrade-Raises s fresh =
      let os = upgrade_head versions in
      missing_index-Raises execute ddl (take 7 os) (skip 8 os) (codes "checkpoints_thread_id_idx") s
        fresh

  -- The saver's tables, with their indexes.
  pub record HasCheckpoints (s : S) : Type 0 where
    pub checkpoints : Table
    pub blobs : Table
    pub writes : Table
    pub versions_table : Table
    pub has_checkpoints : tables s (codes "checkpoints") ≡ some checkpoints
    pub has_blobs : tables s (codes "checkpoint_blobs") ≡ some blobs
    pub has_writes : tables s (codes "checkpoint_writes") ≡ some writes
    pub has_versions : tables s (codes "checkpoint_migrations") ≡ some versions_table
    pub on_checkpoints : indexes s (codes "checkpoints_thread_id_idx") ≡ some (codes "checkpoints")
    pub on_blobs :
        indexes s (codes "checkpoint_blobs_thread_id_idx") ≡ some (codes "checkpoint_blobs")
    pub on_writes :
        indexes s (codes "checkpoint_writes_thread_id_idx") ≡ some (codes "checkpoint_writes")

  code_execution-AllAllowed :
      (s : S)
      → HasCheckpoints s
      → tables s (codes "code_execution_events") ≡ none
      → indexes s (codes "code_execution_events") ≡ none
      → AllAllowed code_execution_upgrade (tables s) (indexes s)
  unfolding code_execution_upgrade table_after index_after text_eq off_table
  code_execution-AllAllowed s has free unindexed =
      let apart = λ (o : Option Text).
        off_table (codes "checkpoint_migrations")
          (off_table (codes "checkpoint_blobs") (off_table (codes "checkpoints") o)) in
      (
        (free, unindexed),
        (
          (_, has.on_checkpoints),
          (
            (_, has.has_checkpoints),
            (
              (_, ap (off_table (codes "checkpoints")) has.on_blobs),
              (
                (_, has.has_blobs),
                ((_, has.has_versions), ((_, ap apart has.on_writes), ((_, has.has_writes), tt))),
              ),
            ),
          ),
        ),
      )

  -- On a database where the service has run, the version that adds code_execution_events is carried
  -- out, and the saved conversations are lost: afterwards none of the saver's four tables is there,
  -- whatever rows they had.
  pub upgrade_drops_conversations :
      (s : S)
      → HasCheckpoints s
      → tables s (codes "code_execution_events") ≡ none
      → indexes s (codes "code_execution_events") ≡ none
      → (s' : S) × (run_operations execute code_execution.upgrade s ≡ ok s')
        × (tables s' (codes "checkpoints") ≡ none)
        × (tables s' (codes "checkpoint_blobs") ≡ none)
        × (tables s' (codes "checkpoint_writes") ≡ none)
        × (tables s' (codes "checkpoint_migrations") ≡ none)
  unfolding code_execution_upgrade tables_after text_eq
  upgrade_drops_conversations s has free unindexed =
      let (s', ran) =
        run_accepts execute ddl code_execution_upgrade s
          (code_execution-AllAllowed s has free unindexed) in
      let left : (t : Text) → tables s' t ≡ tables_after code_execution_upgrade t (tables s t) =
        λ t. run_tables execute ddl code_execution_upgrade s s' t ran in
      (
        s',
        ran,
        left (codes "checkpoints"),
        left (codes "checkpoint_blobs"),
        left (codes "checkpoint_writes"),
        left (codes "checkpoint_migrations"),
      )
