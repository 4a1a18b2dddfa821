-- ===== src/Tests/Schemas.antt =====
-- A database of named tables and indexes that carries out the operations of a migration.
use agentic_enterprise.Base.{
  ◌≡◌, refl, ap, inl, inr, Bool, true, false, not, ◌&&◌, Option, none, some, [], ◌∷◌, ◌++◌,
  if◌then◌else◌, Bool-cases, All, Text, codes, text_eq, elem, failure, Result, err, ok,
}
use agentic_enterprise.Migrations.{
  Operation, create_table, create_index, drop_table, drop_index, run_operations,
}
use agentic_enterprise.Migrations.Versions.{
  baseline, baseline_upgrade, balance_query_upgrade, code_execution_upgrade, code_execution,
  versions, upgrade_head,
}
use agentic_enterprise.Migrations.Effects.{
  Table, table_after, off_table, index_after, Allowed, HonoursDdl, tables_after, indexes_after,
}
use agentic_enterprise.Migrations.Checkpoints.{HasCheckpoints, upgrade_drops_conversations}
use agentic_enterprise.Migrations.Downgrades.{IsFree, downgrade_restores}
use agentic_enterprise.Migrations.Models.{metadata, IsMigrated, versions_create_models}

pub record Catalog : Type 0 where
  tables : Text → Option Table
  indexes : Text → Option Text

abbrev is_there : {A : Type 0} → Option A → Bool
is_there none = false
is_there (some a) = true

abbrev is_allowed : Operation → Catalog → Bool
is_allowed (create_table name columns key) c =
    not (is_there (c.tables name)) && not (is_there (c.indexes name))
is_allowed (drop_table name) c = is_there (c.tables name)
is_allowed (create_index index table columns) c =
    is_there (c.tables table) && not (is_there (c.tables index)) && not (is_there (c.indexes index))
is_allowed (drop_index index) c = is_there (c.indexes index)

abbrev after : Operation → Catalog → Catalog
after o c = record {
  tables = λ t. table_after o t (c.tables t);
  indexes = λ i. index_after o i (c.indexes i);
}

abbrev pub execute : Operation → Catalog → Result Catalog
execute o c = if is_allowed o c then ok (after o c) else err failure

effect : (o : Operation) (s s' : Catalog) → execute o s ≡ ok s' → s' ≡ after o s
effect o s s' h = elim (Bool-cases (is_allowed o s)) [
  | inl allowed ↦ let g = rw allowed at h in cc
  | inr refused ↦ let g = rw refused at h in absurd (cc)
]

accepts :
    (o : Operation) (s : Catalog)
    → Allowed o s.tables s.indexes
    → (s' : Catalog) × (execute o s ≡ ok s')
accepts (create_table name columns key) s (free, unindexed) =
    (after (create_table name columns key) s, rw (free, unindexed) refl)
accepts (drop_table name) s (t, there) = (after (drop_table name) s, rw there refl)
accepts (create_index index table columns) s ((t, there), free, unindexed) =
    (after (create_index index table columns) s, rw (there, free, unindexed) refl)
accepts (drop_index index) s (t, there) = (after (drop_index index) s, rw there refl)

pub execute-HonoursDdl : HonoursDdl execute
execute-HonoursDdl = record {
  tables = λ c. c.tables;
  indexes = λ c. c.indexes;
  table_effect = λ o s s' t h. ap (λ c. c.tables t) (effect o s s' h);
  index_effect = λ o s s' i h. ap (λ c. c.indexes i) (effect o s s' h);
  accepts = accepts;
  no_table = λ t s h. (failure, rw h refl);
  no_index = λ i s h. (failure, rw h refl);
}

abbrev pub nothing : Catalog
nothing = record { tables = λ t. none; indexes = λ i. none }

-- A table with seven rows.
abbrev filled : Table
filled = record { columns = []; primary_key = []; rows = 7 }

abbrev saved : Catalog
saved = record {
  tables = λ t.
      if elem t (
        codes "checkpoints"
        ∷ codes "checkpoint_blobs"
        ∷ codes "checkpoint_writes"
        ∷ codes "checkpoint_migrations"
        ∷ [])
      then some filled
      else none;
  indexes = λ i.
      if text_eq (codes "checkpoints_thread_id_idx") i
      then some (codes "checkpoints")
      else if text_eq (codes "checkpoint_blobs_thread_id_idx") i
      then some (codes "checkpoint_blobs")
      else if text_eq (codes "checkpoint_writes_thread_id_idx") i
      then some (codes "checkpoint_writes")
      else none;
}

saved-HasCheckpoints : HasCheckpoints execute execute-HonoursDdl saved
unfolding execute-HonoursDdl elem text_eq
saved-HasCheckpoints = record {
  checkpoints = filled;
  blobs = filled;
  writes = filled;
  versions_table = filled;
  has_checkpoints = refl;
  has_blobs = refl;
  has_writes = refl;
  has_versions = refl;
  on_checkpoints = refl;
  on_blobs = refl;
  on_writes = refl;
}

upgrade_drops_conversations_example :
    (s' : Catalog) × (run_operations execute code_execution.upgrade saved ≡ ok s')
    × (s'.tables (codes "checkpoints") ≡ none)
    × (s'.tables (codes "checkpoint_blobs") ≡ none)
    × (s'.tables (codes "checkpoint_writes") ≡ none)
    × (s'.tables (codes "checkpoint_migrations") ≡ none)
unfolding execute-HonoursDdl elem text_eq
upgrade_drops_conversations_example =
    upgrade_drops_conversations execute execute-HonoursDdl saved saved-HasCheckpoints refl refl

abbrev migrated : Catalog
migrated = record {
  tables = λ t. tables_after (upgrade_head versions) t (saved.tables t);
  indexes = λ i. indexes_after (upgrade_head versions) i (saved.indexes i);
}

migrated_runs : run_operations execute (upgrade_head versions) saved ≡ ok migrated
unfolding run_operations upgrade_head baseline_upgrade balance_query_upgrade code_execution_upgrade
    table_after index_after off_table tables_after indexes_after elem text_eq
migrated_runs = refl

versions_create_models_example : All (IsMigrated execute execute-HonoursDdl migrated) metadata
versions_create_models_example =
    versions_create_models execute execute-HonoursDdl saved migrated migrated_runs

nothing-IsFree : IsFree execute execute-HonoursDdl nothing
unfolding execute-HonoursDdl
nothing-IsFree = record {
  executions = refl;
  executions_index = refl;
  audit = refl;
  audit_index = refl;
  ownership = refl;
  ownership_index = refl;
  by_request = refl;
  by_request_index = refl;
  by_owner = refl;
  by_owner_index = refl;
}

downgrade_restores_example :
    (s' : Catalog) × (run_operations execute (baseline.upgrade ++ baseline.downgrade) nothing
      ≡ ok s')
    × ((t : Text) → s'.tables t ≡ none)
unfolding execute-HonoursDdl
downgrade_restores_example = downgrade_restores execute execute-HonoursDdl nothing nothing-IsFree
