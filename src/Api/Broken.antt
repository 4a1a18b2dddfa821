-- ===== src/Api/Broken.antt =====
-- app/api/v1/endpoints.py, analyze_investment and resume_thread: the callers whom they fail.
use agentic_enterprise.Base.{
  ℕ, suc, ◌≡◌, refl, ◌⊎◌, inl, inr, true, false, none, some, [], ◌∷◌, ◌++◌, arith, if◌then◌else◌,
  get_last?, Text, codes, Exception, attribute_error, validation_error, http_exception, ok, err,
  Raises, >>=-Raises,
}
use agentic_enterprise.Database.{Db, Session, get_db}
use agentic_enterprise.Ownership.{is_admin}
use agentic_enterprise.Ownership.Claims.{claim_or_check_verdict}
use agentic_enterprise.Graph.Engine.{
  Node, router, memory_retriever, act, run_node, workflow, Executor, FollowsGraph,
}
use agentic_enterprise.Api.{App, with_input, ainvoke, full_context, agent_response, last_content}
use agentic_enterprise.Auth.{require_thread_owner}
use agentic_enterprise.History.{checkpoint_config, is_interrupted}
use agentic_enterprise.Graph.Dispatch.{routed_state, run_routes, messages_of_routed}
use agentic_enterprise.Graph.State.{GraphState, RuntimeContext, initial_state}
use agentic_enterprise.Graph.Retriever.{allowed_threads, visible_hits, retrieve_semantic_memories}
use agentic_enterprise.Messages.{Message, human_message}
use agentic_enterprise.Graph.Revision.{Appends}
use agentic_enterprise.Api.Owned.{owned}
use agentic_enterprise.Api.Queries.{thread, analyze_investment}
use agentic_enterprise.Api.Threads.{resumed, resume_thread}

module _ (app : App) where
  analysis_context : Text → RuntimeContext
  analysis_context username = record {
    llm = app.get_sovereign_llm;
    tool_llm = none;
    db = none;
    username = username;
  }

  -- Without a session, the retriever raises for a caller other than the admin.
  retriever_raises :
      (username : Text) (s : GraphState) (m : Message)
      → is_admin app.services.settings username ≡ false
      → get_last? s.messages ≡ some m
      → run_node app.services (analysis_context username) memory_retriever s ≡ err attribute_error
  unfolding analysis_context run_node act retrieve_semantic_memories visible_hits allowed_threads
  retriever_raises username s m user last = rw last (rw user refl)

  run_raises :
      (e : Executor Node GraphState)
      → FollowsGraph e
      → (username : Text) (m : Message) (limit : ℕ)
      → is_admin app.services.settings username ≡ false
      → Appends app.services
      → e.run
          (workflow app.services (analysis_context username))
          (suc (suc limit))
          router
          (initial_state (m ∷ []))
        ≡ err attribute_error
  unfolding workflow initial_state
  run_raises e f username m limit user appends =
      let cx = analysis_context username in
      let s = initial_state (m ∷ []) in
      rw (run_routes app.services cx e f (suc limit) s m refl) (
        rw
          (f.one_step (workflow app.services cx) limit memory_retriever
            (routed_state app.services cx m s))
          (rw
            (retriever_raises username (routed_state app.services cx m s) m user
              (rw (messages_of_routed app.services cx s m) (rw (appends (m ∷ []) []) refl)))
            refl))

  -- POST /analyze by a caller other than the admin, on its fresh thread, with a graph that has been
  -- built and that appends new messages: whatever the ticker and the models are, it ends in an AttributeError, since the run has no
  -- session to look up the caller's threads in.
  pub analysis_needs_session :
      FollowsGraph app.executor
      → Appends app.services
      → (run_id username ticker : Text) → is_admin app.services.settings username ≡ false
      → app.build_workflow ≡ ok tt
      → app.saved (thread (codes "analyze:" ++ username ++ b':' ∷ run_id)) ≡ none
      → analyze_investment app run_id username ticker ≡ err attribute_error
  unfolding analyze_investment ainvoke with_input workflow analysis_context
  analysis_needs_session f appends run_id username ticker user built fresh =
      rw (built, analyze_investment)
        (rw fresh (
          rw
            (run_raises app.executor f username (human_message (codes "Analyze " ++ ticker)) 23 user
              appends)
            refl))

  verdict_cases :
      (thread_id username : Text) (db : Db)
      → ((require_thread_owner app.services.settings thread_id username db).0 ≡ ok username)
        ⊎ ((require_thread_owner app.services.settings thread_id username db).0
            ≡ err (http_exception 403))
  unfolding require_thread_owner
  verdict_cases thread_id username db =
      rw (claim_or_check_verdict app.services.settings thread_id username db, require_thread_owner)
        (ground arith)

  owned-Raises :
      {A : Type 0} (thread_id username : Text) (db : Db) (handler : Text → Session A)
      → ((db' : Db) → Raises (handler username db').0)
      → (e : Exception) × (owned app thread_id username handler db ≡ (err e, db))
  unfolding owned get_db
  owned-Raises thread_id username db handler raises = elim (verdict_cases thread_id username db) [
    | inl allowed ↦
        let (e, failing) =
          raises (require_thread_owner app.services.settings thread_id username db).1 in
        (e, rw (allowed, owned, get_db) (rw failing refl))
    | inr refused ↦ (http_exception 403, rw (refused, owned, get_db) refl)
  ]

  resumed-Raises :
      (thread_id username : Text) (db : Db)
      → app.is_uuid username ≡ false
      → Raises (resumed app thread_id username db)
  unfolding resumed agent_response
  resumed-Raises thread_id username db h = >>=-Raises (full_context app username db) _ (λ context.
      >>=-Raises (app.resume context (checkpoint_config thread_id none)) _
        (λ result. >>=-Raises (last_content result) _ (λ output. rw h (validation_error, refl))))

  -- POST .../resume by a caller whose name is not a UUID: it raises whatever the thread is, and leaves
  -- the database as it was.
  resume_needs_uuid :
      (thread_id username : Text) (db : Db)
      → app.is_uuid username ≡ false
      → (e : Exception) × (resume_thread app thread_id username db ≡ (err e, db))
  unfolding resume_thread
  resume_needs_uuid thread_id username db h = owned-Raises thread_id username db _ (λ db'.
      >>=-Raises app.build_workflow _ (λ u.
        >>=-Raises (is_interrupted app.checkpoints thread_id) _ (λ interrupted.
          elim interrupted
            as (λ b.
              Raises (if b then resumed app thread_id username db' else err (http_exception 404))) [
                | true ↦ resumed-Raises thread_id username db' h
                | false ↦ (http_exception 404, refl)
              ])))
