-- ===== src/Api/Access.antt =====
-- app/api/v1/endpoints.py, the thread and memory routes: what other users' threads have to do with
-- them.
use agentic_enterprise.Base.{
  ℕ, ◌≡◌, refl, sym, ◌∙◌, true, false, some, List, [], ◌∷◌, All, Text, text_eq, http_exception, ok,
  err, >>=-eq-ok, or_raise,
}
use agentic_enterprise.Settings.{Settings}
use agentic_enterprise.Database.{Db, Session, get_db}
use agentic_enterprise.Ownership.{is_admin, owner_of, owned_thread_ids}
use agentic_enterprise.Ownership.Claims.{claim_or_check_verdict}
use agentic_enterprise.Auth.{require_thread_owner}
use agentic_enterprise.Memory.{remember, MemoryHit, search}
use agentic_enterprise.Memory.Isolation.{HonoursFilter, hit_in, search-All-hit_in}
use agentic_enterprise.Api.{App, Values}
use agentic_enterprise.Api.Owned.{owned}
use agentic_enterprise.Api.Threads.{
  thread_history, resume_thread, fork_thread, edit_thread_checkpoint, thread_branches,
}
use agentic_enterprise.Api.Recall.{all_texts, remember_thread_fact, search_memory}

module _ (settings : Settings) where
  require_thread_owner-foreign :
      (thread_id username owner : Text) (db : Db)
      → is_admin settings username ≡ false
      → owner_of thread_id db.ownership ≡ some owner
      → text_eq owner username ≡ false
      → (require_thread_owner settings thread_id username db).0 ≡ err (http_exception 403)
  unfolding require_thread_owner
  require_thread_owner-foreign thread_id username owner db user owned_by other =
      rw (claim_or_check_verdict settings thread_id username db, require_thread_owner)
        (rw user (rw owned_by (rw other refl)))

module _ (app : App) where
  owned-foreign :
      {A : Type 0} (handler : Text → Session A) (thread_id username owner : Text) (db : Db)
      → is_admin app.services.settings username ≡ false
      → owner_of thread_id db.ownership ≡ some owner
      → text_eq owner username ≡ false
      → owned app thread_id username handler db ≡ (err (http_exception 403), db)
  unfolding owned get_db
  owned-foreign handler thread_id username owner db user owned_by other =
      rw
        (
          require_thread_owner-foreign app.services.settings thread_id username owner db user
              owned_by other,
          owned,
          get_db,
        )
        refl

  remember-foreign :
      (id thread_id username owner text : Text) (db : Db)
      → is_admin app.services.settings username ≡ false
      → owner_of thread_id db.ownership ≡ some owner
      → text_eq owner username ≡ false
      → remember_thread_fact app id thread_id username text db
        ≡ (err (http_exception 403), db, app.services.memories)
  unfolding remember_thread_fact
  remember-foreign id thread_id username owner text db user owned_by other =
      let (told, memories) = remember app.services.qdrant id thread_id text app.services.memories in
      rw
        (
          owned-foreign (λ user d. (told, d)) thread_id username owner db user owned_by other,
          require_thread_owner-foreign app.services.settings thread_id username owner db user
              owned_by other,
          remember_thread_fact,
        )
        refl

  -- A caller other than the admin, on a thread that somebody else owns: every route of the thread ends
  -- with status 403 and leaves the database as it was, and nothing is added to the memory.
  pub foreign_thread_is_refused :
      (thread_id username owner : Text) (db : Db)
      → is_admin app.services.settings username ≡ false
      → owner_of thread_id db.ownership ≡ some owner
      → text_eq owner username ≡ false
      → (limit : ℕ) (id text node : Text) (values : Values)
      → (thread_history app thread_id username limit db ≡ (err (http_exception 403), db))
        × (resume_thread app thread_id username db ≡ (err (http_exception 403), db))
        × (fork_thread app thread_id username id text db ≡ (err (http_exception 403), db))
        × (edit_thread_checkpoint app thread_id username id node values db
            ≡ (err (http_exception 403), db))
        × (thread_branches app thread_id username limit db ≡ (err (http_exception 403), db))
        × (remember_thread_fact app id thread_id username text db
            ≡ (err (http_exception 403), db, app.services.memories))
  unfolding thread_history resume_thread fork_thread edit_thread_checkpoint thread_branches
  foreign_thread_is_refused thread_id username owner db user owned_by other limit id text node
        values =
      (
        owned-foreign _ thread_id username owner db user owned_by other,
        owned-foreign _ thread_id username owner db user owned_by other,
        owned-foreign _ thread_id username owner db user owned_by other,
        owned-foreign _ thread_id username owner db user owned_by other,
        owned-foreign _ thread_id username owner db user owned_by other,
        remember-foreign id thread_id username owner text db user owned_by other,
      )

  all_texts-eq : (hits found : List MemoryHit) → all_texts hits ≡ ok found → hits ≡ found
  unfolding all_texts
  all_texts-eq [] found e = cc
  all_texts-eq (h ∷ hits) found e =
      let (text, t, e') = >>=-eq-ok (or_raise h.text _) _ e in
      let (rest, r, e'') = >>=-eq-ok (all_texts hits) _ e' in
      let ih : hits ≡ rest = all_texts-eq hits rest r in cc

  -- What GET /admin/memory/search returns to a caller other than the admin stems from threads that
  -- this caller owns, if Qdrant honours the filter of a query.
  pub search_memory-All-hit_in :
      HonoursFilter app.services.qdrant
      → (username q : Text) (limit : ℕ) (db : Db) (hits : List MemoryHit)
      → is_admin app.services.settings username ≡ false
      → search_memory app username q limit db ≡ ok hits
      → All (λ h. hit_in (owned_thread_ids username db) h ≡ true) hits
  unfolding search_memory
  search_memory-All-hit_in f username q limit db hits user e =
      let (found, searched, kept) =
        >>=-eq-ok
          (search app.services.qdrant q limit (some (owned_thread_ids username db))
            app.services.memories)
          all_texts (sym (rw user refl) ∙ e) in
      let same : found ≡ hits = all_texts-eq found hits kept in
      rw (sym same) (
        search-All-hit_in app.services.qdrant f q limit (owned_thread_ids username db)
          app.services.memories found searched)
