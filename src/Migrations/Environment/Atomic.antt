-- ===== src/Migrations/Environment/Atomic.antt =====
-- alembic/env.py with alembic/versions: what `alembic upgrade head` leaves.
use mathlib.Core.Path.{subst}
use agentic_enterprise.Base.{
  ◌≡◌, refl, sym, ap, ◌∙◌, ◌⊎◌, inl, inr, false, Option, none, ◌++◌, All, Text, codes, text_eq,
  Exception, Result, ok, err, Result-cases,
}
use agentic_enterprise.Migrations.{Operation, run_operations}
use agentic_enterprise.Migrations.Versions.{versions, upgrade_head}
use agentic_enterprise.Migrations.Effects.{HonoursDdl}
use agentic_enterprise.Migrations.Models.{metadata, IsMigrated, versions_create_models}
use agentic_enterprise.Migrations.Environment.{
  bare_scheme, psycopg_scheme, replace_first, sync_url, Alembic, run_migrations_online,
}

module _ {S : Type 0} (execute : Operation → S → Result S) (ddl : HonoursDdl execute)
    (revision : S → Option Text) (alembic : Alembic S) where
  -- What Alembic documents of `upgrade head` on a database without a revision: it runs the operations
  -- of the versions in their order, with an error of one of them as its own, and it writes its own
  -- table beside them; a transaction keeps what its body has done, or nothing when that raises.
  pub record RunsVersions : Type 0 where
    pub raises :
        (s : S) (e : Exception)
        → revision s ≡ none
        → run_operations execute (upgrade_head versions) s ≡ err e
        → alembic.run_migrations s ≡ err e
    pub returns :
        (s s' : S)
        → revision s ≡ none
        → run_operations execute (upgrade_head versions) s ≡ ok s'
        → (t : S) × (alembic.run_migrations s ≡ ok t)
          × ((name : Text)
              → text_eq (codes "alembic_version") name ≡ false
              → ddl.tables t name ≡ ddl.tables s' name)
    pub commits :
        (body : S → Result S) (s t : S)
        → body s ≡ ok t
        → alembic.begin_transaction body s ≡ (ok tt, t)
    pub rolls_back :
        (body : S → Result S) (s : S) (e : Exception)
        → body s ≡ err e
        → alembic.begin_transaction body s ≡ (err e, s)

  module _ (runs : RunsVersions) (set_main_option connect : Text → Result (Unit {0})) where
    reached :
        (rest : Text) (s : S)
        → set_main_option (psycopg_scheme ++ rest) ≡ ok tt
        → connect (psycopg_scheme ++ rest) ≡ ok tt
        → run_migrations_online set_main_option connect alembic (bare_scheme ++ rest) s
          ≡ alembic.begin_transaction alembic.run_migrations s
    unfolding run_migrations_online sync_url replace_first
    reached rest s taken open_ = rw (taken, open_, run_migrations_online) refl

    kept_tables :
        (s' t : S)
        → ((name : Text)
            → text_eq (codes "alembic_version") name ≡ false
            → ddl.tables t name ≡ ddl.tables s' name)
        → All (IsMigrated execute ddl s') metadata
        → All (IsMigrated execute ddl t) metadata
    unfolding text_eq
    kept_tables s' t same (a, (b, (c, (d, (e, u))))) = (
      same _ refl ∙ a,
      (same _ refl ∙ b, (same _ refl ∙ c, (same _ refl ∙ d, (same _ refl ∙ e, u)))),
    )

    -- `alembic upgrade head` in online mode, with a URL that the configuration takes, on a database without
    -- a revision that psycopg reaches, is all or nothing: it ends with the tables of app/models.py, each new and with exactly its columns, or
    -- it raises what an operation of a version raises, and the database is what it was.
    pub online_upgrade_is_atomic :
        (rest : Text) (s : S)
        → set_main_option (psycopg_scheme ++ rest) ≡ ok tt
        → connect (psycopg_scheme ++ rest) ≡ ok tt
        → revision s ≡ none
        → let (r, s') =
            run_migrations_online set_main_option connect alembic (bare_scheme ++ rest) s in
          ((e : Exception) × (run_operations execute (upgrade_head versions) s ≡ err e)
            × (r ≡ err e)
            × (s' ≡ s))
          ⊎ ((r ≡ ok tt) × All (IsMigrated execute ddl s') metadata)
    online_upgrade_is_atomic rest s taken open_ fresh =
        elim (Result-cases (run_operations execute (upgrade_head versions) s)) [
          | inl (e, h) ↦
              let ended =
                reached rest s taken open_
                ∙ runs.rolls_back alembic.run_migrations s e (runs.raises s e fresh h) in
              inl (e, h, ap (λ p. p.0) ended, ap (λ p. p.1) ended)
          | inr (s', h) ↦
              let (t, ran, same) = runs.returns s s' fresh h in
              let ended =
                reached rest s taken open_ ∙ runs.commits alembic.run_migrations s t ran in
              let made = kept_tables s' t same (versions_create_models execute ddl s s' h) in
              inr (
                ap (λ p. p.0) ended,
                subst (λ z. All (IsMigrated execute ddl z) metadata) (sym (ap (λ p. p.1) ended))
                    made,
              )
        ]
