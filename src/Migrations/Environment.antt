-- ===== src/Migrations/Environment.antt =====
-- alembic/env.py: the connection and the transaction that the migrations run in, in online mode.
pub mod Atomic
use agentic_enterprise.Base.{
  Option, none, some, List, [], ◌∷◌, ◌++◌, Text, codes, Result, ok, err, ◌>>◌,
}
use agentic_enterprise.Mcp.FinanceApi.{remove_prefix}

-- s.replace(old, new, 1), for an `old` that is not empty
unfoldable pub replace_first : Text → Text → Text → Text
unfolding remove_prefix
replace_first old new [] = []
replace_first old new (c ∷ s) = elim (remove_prefix old (c ∷ s)) [
  | some rest ↦ new ++ rest
  | none ↦ c ∷ replace_first old new s
]

abbrev pub bare_scheme : Text
bare_scheme = codes "postgresql://"

abbrev pub psycopg_scheme : Text
psycopg_scheme = codes "postgresql+psycopg://"

-- `_sync_url`, from checkpoint_db_url
unfoldable pub sync_url : Text → Text
unfolding replace_first
sync_url checkpoint_db_url = replace_first bare_scheme psycopg_scheme checkpoint_db_url

-- Alembic on a connection: `context.begin_transaction()` round a body, and `context.run_migrations()` for
-- `alembic upgrade head`.
pub record Alembic (S : Type 0) : Type 0 where
  pub begin_transaction : (S → Result S) → S → Result (Unit {0}) × S
  pub run_migrations : S → Result S

-- `set_main_option` is that of Alembic's Config, over a configparser, which may refuse the URL; `connect`
-- is SQLAlchemy's, by the URL of the engine.
unfoldable pub run_migrations_online :
    {S : Type 0}
    → (Text → Result (Unit {0}))
    → (Text → Result (Unit {0}))
    → Alembic S
    → Text
    → S
    → Result (Unit {0}) × S
unfolding sync_url
run_migrations_online set_main_option connect alembic checkpoint_db_url s =
    let url = sync_url checkpoint_db_url in
    elim (set_main_option url >> connect url) [
      | ok u ↦ alembic.begin_transaction alembic.run_migrations s
      | err e ↦ (err e, s)
    ]
