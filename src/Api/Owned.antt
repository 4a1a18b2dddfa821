-- ===== src/Api/Owned.antt =====
-- Depends(require_thread_owner) and Depends(get_db) round a handler: both within one session.
use agentic_enterprise.Base.{Text}
use agentic_enterprise.Database.{Session, ◌>>=◌, get_db}
use agentic_enterprise.Auth.{require_thread_owner}
use agentic_enterprise.Api.{App}

module _ (app : App) where
  unfoldable pub owned : {A : Type 0} → Text → Text → (Text → Session A) → Session A
  owned thread_id username handler =
      get_db (require_thread_owner app.services.settings thread_id username >>= handler)
