-- ===== src/Api/Recall.antt =====
-- app/api/v1/endpoints.py: the two routes of the semantic memory.
use agentic_enterprise.Base.{
  ℕ, none, some, List, [], ◌∷◌, if◌then◌else◌, Text, validation_error, Result, err, ok, ◌>>=◌,
  or_raise,
}
use agentic_enterprise.Database.{Db}
use agentic_enterprise.Ownership.{is_admin, owned_thread_ids}
use agentic_enterprise.Memory.{MemoryHit, Store, hit, remember, search}
use agentic_enterprise.Auth.{require_thread_owner}
use agentic_enterprise.Api.{App}
use agentic_enterprise.Api.Owned.{owned}

-- MemoryHit requires a text.
unfoldable pub all_texts : List MemoryHit → Result (List MemoryHit)
all_texts [] = ok []
all_texts (hit ∷ hits) = do
  text ← or_raise hit.text validation_error
  rest ← all_texts hits
  ok (hit ∷ rest)

module _ (app : App) where
  -- `point_id` is the fresh uuid4. Qdrant has no part in the session: it is called for a caller that the
  -- check lets pass, and what it stores then stays, whatever the session does.
  unfoldable pub remember_thread_fact : Text → Text → Text → Text → Db → Result Text × Db × Store
  unfolding require_thread_owner remember
  remember_thread_fact point_id thread_id username text db =
      let (told, memories) =
        remember app.services.qdrant point_id thread_id text app.services.memories in
      let (result, db') = owned app thread_id username (λ user db. (told, db)) db in
      (
        result,
        db',
        elim (require_thread_owner app.services.settings thread_id username db).0 [
          | ok user ↦ memories
          | err e ↦ app.services.memories
        ],
      )

  unfoldable pub search_memory : Text → Text → ℕ → Db → Result (List MemoryHit)
  unfolding is_admin all_texts
  search_memory username q limit db =
      let q' = app.services.qdrant in
      let memories = app.services.memories in
      if is_admin app.services.settings username
      then (do hits ← search q' q limit none memories; all_texts hits)
      else (do
        hits ← search q' q limit (some (owned_thread_ids username db)) memories
        all_texts hits)
