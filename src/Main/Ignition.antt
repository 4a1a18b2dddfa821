-- ===== src/Main/Ignition.antt =====
-- app/main.py: the smoke test completes without a session, since it runs as the admin.
use agentic_enterprise.Base.{
  ◌≡◌, refl, ap, ◌∙◌, none, some, List, [], ◌∷◌, ◌++◌, arith, get_last?, Text, codes, text_eq_refl,
  ◌⊎◌, inl, inr, timeout_error, http_exception, Result, err, ok,
}
use agentic_enterprise.Settings.{Settings}
use agentic_enterprise.Memory.{MemoryHit, Store, Qdrant, search}
use agentic_enterprise.Messages.{Message, human_message, ChatModel}
use agentic_enterprise.Ownership.{is_admin}
use agentic_enterprise.Graph.State.{
  general, memory_done, GraphState, Update, no_update, reduce, RuntimeContext, initial_state,
}
use agentic_enterprise.Graph.Router.{classify}
use agentic_enterprise.Graph.Workers.{pass_verdict}
use agentic_enterprise.Graph.Retriever.{
  max_context_chars, pack, visible_hits, retrieve_semantic_memories,
}
use agentic_enterprise.Graph.Engine.{
  router, memory_retriever, act, run_node, workflow, FollowsGraph,
}
use agentic_enterprise.Graph.Revision.{Replies, Appends}
use agentic_enterprise.Graph.Dispatch.{routed_state, messages_of_routed}
use agentic_enterprise.Api.{App, default_recursion_limit, with_input, ainvoke, last_content}
use agentic_enterprise.Graph.Runs.{general_run-Ends}
use agentic_enterprise.History.{RunnableConfig}
use agentic_enterprise.Api.Queries.{thread}
use agentic_enterprise.Main.Smoke.{
  SmokeTestResponse, SmokeTestRequest, WaitFor, smoke_run, smoke_status, run_smoke_test,
}

-- The admin's search has no filter, and needs no session.
admin_retrieves :
    (settings : Settings) (q : Qdrant) (store : Store) (cx : RuntimeContext) (s : GraphState)
    (m : Message) (hits : List MemoryHit) (texts : List Text)
    → cx.username ≡ settings.demo_username
    → get_last? s.messages ≡ some m
    → search q m.content 2 none store ≡ ok hits
    → pack max_context_chars hits ≡ ok texts
    → (u : Update) × (retrieve_semantic_memories settings q store cx s ≡ ok u)
unfolding retrieve_semantic_memories visible_hits is_admin
admin_retrieves settings q store cx s m hits texts admin last found packed = (
  record no_update { retrieved_context = some texts; internal_logs = memory_done ∷ [] },
  rw (last, admin, text_eq_refl settings.demo_username, found, packed) refl,
)

module _ (app : App) (wait_for : WaitFor) where
  abbrev pub smoke_context : ChatModel → RuntimeContext
  smoke_context tool_llm = record {
    llm = app.get_sovereign_llm;
    tool_llm = some tool_llm;
    db = none;
    username = app.services.settings.demo_username;
  }

  smoke_retrieval :
      Appends app.services
      → (tool_llm : ChatModel) (payload : Text) (hits : List MemoryHit) (texts : List Text)
      → search app.services.qdrant payload 2 none app.services.memories ≡ ok hits
      → pack max_context_chars hits ≡ ok texts
      → let cx = smoke_context tool_llm in
        let m = human_message payload in
        (t : GraphState) × (run_node app.services cx memory_retriever
            (routed_state app.services cx m (initial_state (m ∷ [])))
          ≡ ok t)
  unfolding run_node act initial_state
  smoke_retrieval appends tool_llm payload hits texts found packed =
      let sv = app.services in
      let cx = smoke_context tool_llm in
      let m = human_message payload in
      let s = initial_state (m ∷ []) in
      let last : get_last? (routed_state sv cx m s).messages ≡ some m =
        ap get_last? (messages_of_routed sv cx s m ∙ appends (m ∷ []) []) in
      let (u, retrieved) =
        admin_retrieves sv.settings sv.qdrant sv.memories cx (routed_state sv cx m s) m hits texts
          refl last found packed in
      (reduce sv.add_messages (routed_state sv cx m s) u, rw (retrieved, run_node) refl)

  abbrev pub passed : SmokeTestRequest → Message → SmokeTestResponse
  passed request answer = record {
    test_id = request.test_id;
    graph_state = codes "COMPLETED";
    llm_response = answer.content;
    status = codes "PASS";
  }

  -- From a run that ends, in time or not, to the answer of the test.
  smoke_answer :
      (request : SmokeTestRequest) (tool_llm : ChatModel) (s' : GraphState) (answer : Message)
      → app.build_workflow ≡ ok tt
      → app.bind_tools ≡ ok tool_llm
      → ainvoke app
          (smoke_context tool_llm)
          (thread (codes "smoke:" ++ request.test_id))
          (human_message request.payload ∷ [])
        ≡ ok s'
      → wait_for (ok s') ≡ ok s'
      → get_last? s'.messages ≡ some answer
      → run_smoke_test app wait_for request ≡ ok (passed request answer)
  unfolding run_smoke_test smoke_run last_content
  smoke_answer request tool_llm s' answer built bound ran in_time last =
      rw (built, bound, ran, in_time, last, run_smoke_test) refl

  smoke_timeout :
      (request : SmokeTestRequest) (tool_llm : ChatModel) (s' : GraphState)
      → app.build_workflow ≡ ok tt
      → app.bind_tools ≡ ok tool_llm
      → ainvoke app
          (smoke_context tool_llm)
          (thread (codes "smoke:" ++ request.test_id))
          (human_message request.payload ∷ [])
        ≡ ok s'
      → wait_for (ok s') ≡ err timeout_error
      → run_smoke_test app wait_for request ≡ err (http_exception 504)
  unfolding run_smoke_test smoke_run smoke_status
  smoke_timeout request tool_llm s' built bound ran late =
      rw (built, bound, ran, late, run_smoke_test) refl

  fresh_run :
      (cx : RuntimeContext) (config : RunnableConfig) (m : Message) (s' : GraphState)
      → app.saved config ≡ none
      → app.executor.run
          (workflow app.services cx)
          default_recursion_limit
          router
          (initial_state (m ∷ []))
        ≡ ok s'
      → ainvoke app cx config (m ∷ []) ≡ ok s'
  unfolding ainvoke with_input workflow
  fresh_run cx config m s' fresh ran = rw (fresh, ainvoke) ran

  -- The smoke test of a payload that the router takes for a general question, on a fresh test id, over
  -- a graph and tools that load, a model that answers every call, and a memory whose best two hits
  -- fit the budget or have texts to cut at it: without any session, the run itself ends with a state that
  -- has an answer and the critic's PASS. If asyncio's wait_for gives what the run gives or else raises
  -- TimeoutError, the test answers PASS with that answer in the first case, and raises status 504 in
  -- the second.
  pub smoke_test_completes :
      FollowsGraph app.executor
      → Appends app.services
      → Replies app.get_sovereign_llm
      → (request : SmokeTestRequest) (tool_llm : ChatModel) (hits : List MemoryHit)
        (texts : List Text)
      → app.build_workflow ≡ ok tt
      → app.bind_tools ≡ ok tool_llm
      → app.saved (thread (codes "smoke:" ++ request.test_id)) ≡ none
      → classify (app.services.lower request.payload) ≡ general
      → search app.services.qdrant request.payload 2 none app.services.memories ≡ ok hits
      → pack max_context_chars hits ≡ ok texts
      → ((run : Result GraphState) → (wait_for run ≡ run) ⊎ (wait_for run ≡ err timeout_error))
      → (s' : GraphState) × (answer : Message) × (ainvoke app
            (smoke_context tool_llm)
            (thread (codes "smoke:" ++ request.test_id))
            (human_message request.payload ∷ [])
          ≡ ok s')
        × (s'.critique ≡ some pass_verdict)
        × (get_last? s'.messages ≡ some answer)
        × (((wait_for (ok s') ≡ ok s')
              × (run_smoke_test app wait_for request ≡ ok (passed request answer)))
            ⊎ ((wait_for (ok s') ≡ err timeout_error)
                × (run_smoke_test app wait_for request ≡ err (http_exception 504))))
  unfolding initial_state
  smoke_test_completes f appends replies request tool_llm hits texts built bound fresh route found
        packed waits =
      let cx = smoke_context tool_llm in
      let m = human_message request.payload in
      let (t, retrieved) =
        smoke_retrieval appends tool_llm request.payload hits texts found packed in
      let (s', ran, graded_pass, counted, (answer, last)) =
        general_run-Ends app.services cx app.executor f appends replies (initial_state (m ∷ [])) t m
          default_recursion_limit refl route refl retrieved (omega arith) in
      let config = thread (codes "smoke:" ++ request.test_id) in
      let ended = fresh_run cx config m s' fresh ran in
      (
        s',
        answer,
        ended,
        graded_pass,
        last,
        elim (waits (ok s')) [
          | inl in_time ↦
              inl (in_time, smoke_answer request tool_llm s' answer built bound ended in_time last)
          | inr late ↦ inr (late, smoke_timeout request tool_llm s' built bound ended late)
        ],
      )
