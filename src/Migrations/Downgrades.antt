-- ===== src/Migrations/Downgrades.antt =====
-- alembic/versions/5a228e071209_baseline_existing_models_file_audit_.py: its downgrade after its upgrade.
use mathlib.Core.Path.{subst}
use agentic_enterprise.Base.{
  ◌≡◌, refl, sym, ◌∙◌, Bool, true, false, Option, none, ◌++◌, if◌then◌else◌, Text, codes, text_eq,
  text_eq_iff, Result, ok,
}
use agentic_enterprise.Migrations.{Operation, run_operations}
use agentic_enterprise.Migrations.Versions.{baseline_upgrade, baseline_downgrade, baseline}
use agentic_enterprise.Migrations.Effects.{
  Table, table_after, off_table, index_after, HonoursDdl, tables_after, AllAllowed, run_tables,
  run_accepts,
}

-- Three names made and then dropped in the opposite order.
create_drop :
    (b c d : Bool) (x y z before : Option Table)
    → (b ≡ true → before ≡ none)
    → (c ≡ true → before ≡ none)
    → (d ≡ true → before ≡ none)
    → (if b
        then none
        else if c
        then none
        else if d
        then none
        else if d
        then z
        else if c
        then y
        else if b
        then x
        else before)
      ≡ before
create_drop true c d x y z before e a o = sym (e refl)
create_drop false true d x y z before e a o = sym (a refl)
create_drop false false true x y z before e a o = sym (o refl)
create_drop false false false x y z before e a o = refl

module _ {S : Type 0} (execute : Operation → S → Result S) (ddl : HonoursDdl execute) where
  open ddl use {tables, indexes}

  -- The names of the version are not in use yet.
  pub record IsFree (s : S) : Type 0 where
    pub executions : tables s (codes "agent_executions") ≡ none
    pub executions_index : indexes s (codes "agent_executions") ≡ none
    pub audit : tables s (codes "file_audit_events") ≡ none
    pub audit_index : indexes s (codes "file_audit_events") ≡ none
    pub ownership : tables s (codes "thread_ownership") ≡ none
    pub ownership_index : indexes s (codes "thread_ownership") ≡ none
    pub by_request : tables s (codes "ix_agent_executions_request_id") ≡ none
    pub by_request_index : indexes s (codes "ix_agent_executions_request_id") ≡ none
    pub by_owner : tables s (codes "ix_thread_ownership_owner_username") ≡ none
    pub by_owner_index : indexes s (codes "ix_thread_ownership_owner_username") ≡ none

  baseline-AllAllowed :
      (s : S)
      → IsFree s
      → AllAllowed (baseline_upgrade ++ baseline_downgrade) (tables s) (indexes s)
  unfolding baseline_upgrade baseline_downgrade table_after index_after text_eq off_table
  baseline-AllAllowed s f = (
    (f.executions, f.executions_index),
    (
      ((_, refl), f.by_request, f.by_request_index),
      (
        (f.audit, f.audit_index),
        (
          (f.ownership, f.ownership_index),
          (
            ((_, refl), f.by_owner, f.by_owner_index),
            ((_, refl), ((_, refl), ((_, refl), ((_, refl), ((_, refl), tt))))),
          ),
        ),
      ),
    ),
  )

  unchanged :
      (t : Text) (before : Option Table)
      → (text_eq (codes "agent_executions") t ≡ true → before ≡ none)
      → (text_eq (codes "file_audit_events") t ≡ true → before ≡ none)
      → (text_eq (codes "thread_ownership") t ≡ true → before ≡ none)
      → tables_after (baseline_upgrade ++ baseline_downgrade) t before ≡ before
  unfolding baseline_upgrade baseline_downgrade tables_after table_after
  unchanged t before e a o =
      create_drop (text_eq (codes "agent_executions") t) (text_eq (codes "file_audit_events") t)
        (text_eq (codes "thread_ownership") t) _ _ _ before e a o

  at_name :
      (s : S) (name t : Text) → tables s name ≡ none → text_eq name t ≡ true → tables s t ≡ none
  at_name s name t free same = subst (λ z. tables s z ≡ none) ((text_eq_iff name t).0 same) free

  -- On a database where the names of the first version are free, its upgrade and then its downgrade are
  -- carried out, and leave every table as it was before.
  pub downgrade_restores :
      (s : S)
      → IsFree s
      → (s' : S) × (run_operations execute (baseline.upgrade ++ baseline.downgrade) s ≡ ok s')
        × ((t : Text) → tables s' t ≡ tables s t)
  downgrade_restores s f =
      let os = baseline_upgrade ++ baseline_downgrade in
      let (s', ran) = run_accepts execute ddl os s (baseline-AllAllowed s f) in
      (
        s',
        ran,
        λ t.
            run_tables execute ddl os s s' t ran
            ∙ unchanged t (tables s t) (at_name s (codes "agent_executions") t f.executions)
                (at_name s (codes "file_audit_events") t f.audit)
                (at_name s (codes "thread_ownership") t f.ownership),
      )
