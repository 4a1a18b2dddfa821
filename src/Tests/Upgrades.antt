-- ===== src/Tests/Upgrades.antt =====
-- The migration environment over a catalog.
use agentic_enterprise.Base.{
  ◌≡◌, refl, ◌⊎◌, Option, none, ◌++◌, All, Text, codes, starts_with, if◌then◌else◌, failure,
  value_error, contains, Exception, Result, ok, err,
}
use agentic_enterprise.Migrations.{run_operations}
use agentic_enterprise.Migrations.Versions.{versions, upgrade_head}
use agentic_enterprise.Migrations.Models.{metadata, IsMigrated}
use agentic_enterprise.Migrations.Environment.{
  bare_scheme, psycopg_scheme, Alembic, run_migrations_online,
}
use agentic_enterprise.Migrations.Environment.Atomic.{RunsVersions, online_upgrade_is_atomic}
use agentic_enterprise.Tests.Schemas.{Catalog, execute, execute-HonoursDdl, nothing}

abbrev revision : Catalog → Option Text
revision c = none

-- Only psycopg is installed.
abbrev connect : Text → Result (Unit {0})
connect url = if starts_with psycopg_scheme url then ok tt else err failure

-- configparser: a `%` that begins no reference is refused.
abbrev set_main_option : Text → Result (Unit {0})
set_main_option url = if contains (codes "%") url then err value_error else ok tt

abbrev alembic : Alembic Catalog
alembic = record {
  begin_transaction = λ body s. elim (body s) [ ok t ↦ (ok tt, t) | err e ↦ (err e, s) ];
  run_migrations = run_operations execute (upgrade_head versions);
}

upgrade-RunsVersions : RunsVersions execute execute-HonoursDdl revision alembic
upgrade-RunsVersions = record {
  raises = λ s e fresh h. h;
  returns = λ s s' fresh h. (s', h, λ name other. refl);
  commits = λ body s t h. rw h refl;
  rolls_back = λ body s e h. rw h refl;
}

online_upgrade_is_atomic_example :
    let (r, s') =
      run_migrations_online set_main_option connect alembic (bare_scheme ++ codes "db") nothing in
    ((e : Exception) × (run_operations execute (upgrade_head versions) nothing ≡ err e)
      × (r ≡ err e)
      × (s' ≡ nothing))
    ⊎ ((r ≡ ok tt) × All (IsMigrated execute execute-HonoursDdl s') metadata)
unfolding starts_with contains
online_upgrade_is_atomic_example =
    online_upgrade_is_atomic execute execute-HonoursDdl revision alembic upgrade-RunsVersions
      set_main_option connect (codes "db") nothing refl refl refl
