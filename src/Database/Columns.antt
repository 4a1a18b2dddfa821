-- ===== src/Database/Columns.antt =====
-- The column types of app/models.py, over the database, which checks each row on INSERT.
use agentic_enterprise.Base.{
  ℕ, Option, none, some, List, [], ◌∷◌, ◌++◌, Text, Exception, Result, err, ok, ◌>>=◌,
}
use agentic_enterprise.Database.{FileAuditEvent, BalanceQueryEvent, CodeExecutionEvent}

-- Postgres: the error of a database that is out of reach, and what a column of each type stores of
-- a value.
pub record Postgres : Type 0 where
  pub outage : Option Exception
  pub string_column : ℕ → Text → Result Text
  pub text_column : Text → Result Text
  pub integer_column : ℕ → Result ℕ

module _ (pg : Postgres) where
  unfoldable pub nullable_column : ℕ → Option Text → Result (Option Text)
  nullable_column n none = ok none
  nullable_column n (some s) = do stored ← pg.string_column n s; ok (some stored)

  unfoldable pub file_audit_row : FileAuditEvent → Result FileAuditEvent
  file_audit_row e = do
    path ← pg.string_column 1024 e.path
    byte_count ← pg.integer_column e.byte_count
    preview ← pg.text_column e.preview
    ok (record e { path = path; byte_count = byte_count; preview = preview })

  unfoldable pub balance_query_row : BalanceQueryEvent → Result BalanceQueryEvent
  balance_query_row e = do
    account_id ← pg.string_column 64 e.account_id
    thread_id ← nullable_column 128 e.thread_id
    username ← nullable_column 128 e.username
    detail ← nullable_column 256 e.detail
    ok (record e {
      account_id = account_id;
      thread_id = thread_id;
      username = username;
      detail = detail;
    })

  unfoldable pub code_execution_row : CodeExecutionEvent → Result CodeExecutionEvent
  code_execution_row e = do
    thread_id ← nullable_column 128 e.thread_id
    code_length ← pg.integer_column e.code_length
    detail ← pg.string_column 512 e.detail
    ok (record e { thread_id = thread_id; code_length = code_length; detail = detail })

  -- A session of its own for one row: `session.add`, `session.commit`.
  unfoldable pub insert_row : {A : Type 0} → (A → Result A) → A → List A → Result (List A)
  insert_row checked row rows = elim pg.outage [
    | some e ↦ err e
    | none ↦ do stored ← checked row; ok (rows ++ stored ∷ [])
  ]
