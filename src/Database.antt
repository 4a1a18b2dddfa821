-- ===== src/Database.antt =====
-- app/models.py and app/database.py: the tables, and the session of one request. The columns that
-- Postgres fills in by itself (ids, timestamps) are left out: no code reads them.
pub mod Columns
pub mod Rows
pub mod Sessions
use agentic_enterprise.Base.{ℕ, Option, List, Text, Result, ok, err, Exception}

pub data ExecutionStatus : Type 0 where
  running completed failed : ExecutionStatus

pub record AgentExecution : Type 0 where
  pub request_id : Text
  pub agent_id : Text
  pub status : ExecutionStatus

pub record ThreadOwnership : Type 0 where
  pub thread_id : Text
  pub owner_username : Text

-- "read" | "write" | "create"
pub data FileAction : Type 0 where
  read write create : FileAction

pub record FileAuditEvent : Type 0 where
  pub path : Text
  pub action : FileAction
  pub byte_count : ℕ
  pub preview : Text

-- "ok" | "error"
pub data Outcome : Type 0 where
  success error : Outcome

pub record BalanceQueryEvent : Type 0 where
  pub account_id : Text
  pub thread_id : Option Text
  pub username : Option Text
  pub outcome : Outcome
  pub detail : Option Text

pub record CodeExecutionEvent : Type 0 where
  pub thread_id : Option Text
  pub code_length : ℕ
  pub outcome : Outcome
  pub detail : Text

-- The tables that the request handlers write through their session.
pub record Db : Type 0 where
  pub executions : List AgentExecution
  pub ownership : List ThreadOwnership

-- What a handler does with its session: the writes stay in the session when it raises.
abbrev pub Session : Type 0 → Type 0
Session A = Db → Result A × Db

infixl 5 ◌>>=◌ ◌>>◌
abbrev pub ◌>>=◌ : {A B : Type 0} → Session A → (A → Session B) → Session B
◌>>=◌ m f db = let (r, db') = m db in elim r [ ok a ↦ f a db' | err e ↦ (err e, db') ]

abbrev pub ◌>>◌ : {A B : Type 0} → Session A → Session B → Session B
m >> k = m >>= λ _. k

abbrev pub pure : {A : Type 0} → A → Session A
pure a db = (ok a, db)

abbrev pub raise : {A : Type 0} → Exception → Session A
raise e db = (err e, db)

-- A call that does not touch the session.
abbrev pub lift : {A : Type 0} → Result A → Session A
lift r db = (r, db)

-- `get_db` round a handler: commit when it returns, roll back and raise again when it raises.
unfoldable pub get_db : {A : Type 0} → Session A → Session A
get_db handler db = let (r, db') = handler db in elim r [ ok a ↦ (ok a, db') | err e ↦ (err e, db) ]
