-- ===== src/Legacy/Contexts.antt =====
-- server.py: what its missing context does to every request.
use agentic_enterprise.Base.{
  ℕ, suc, ◌≡◌, refl, inl, inr, [], ◌∷◌, get_last?, index_error, attribute_error, http_exception,
  err, ok, or_raise, Result-cases, Raises, >>=-Raises,
}
use agentic_enterprise.Graph.State.{GraphState}
use agentic_enterprise.Graph.Engine.{
  Node, router, memory_retriever, node, Services, next, CompiledGraph, Executor, FollowsGraph,
}
use agentic_enterprise.Messages.{human_message}
use agentic_enterprise.Api.{App, with_input}
use agentic_enterprise.Api.Queries.{thread}
use agentic_enterprise.Legacy.{
  AgentRequest, act_without_context, run_node_without_context, workflow_without_context, or_500,
  run_agent_endpoint,
}

retriever-Raises :
    (services : Services) (s : GraphState)
    → Raises (run_node_without_context services memory_retriever s)
unfolding run_node_without_context act_without_context
retriever-Raises services s =
    let acts : Raises (act_without_context services memory_retriever s) =
      >>=-Raises (or_raise (get_last? s.messages) index_error) _
        (λ last. (attribute_error, refl)) in
    (acts.0, rw (acts.1) refl)

-- The edge out of the router leads to the retriever.
from_router :
    (services : Services) (s : GraphState) → next services router s ≡ ok (node memory_retriever)
unfolding next
from_router services s = refl

module _ (services : Services) (e : Executor Node GraphState) (follows : FollowsGraph e) where
  g : CompiledGraph Node GraphState
  g = workflow_without_context services

  retriever_run-Raises :
      (limit : ℕ) (s : GraphState) → Raises (e.run g (suc limit) memory_retriever s)
  unfolding g workflow_without_context
  retriever_run-Raises limit s =
      let (x, raised) = retriever-Raises services s in
      (x, rw (follows.one_step g limit memory_retriever s) (rw raised refl))

  run-Raises : (limit : ℕ) (s : GraphState) → Raises (e.run g (suc (suc limit)) router s)
  unfolding g workflow_without_context
  run-Raises limit s = rw (follows.one_step g (suc limit) router s) (
      >>=-Raises (run_node_without_context services router s) _
        (λ s'. rw (from_router services s') (retriever_run-Raises limit s')))

-- Every request to /run-agent ends in HTTP status 500, whatever its text and its thread are: the run
-- has no context, and the retriever, which comes right after the router, reads it.
run_agent_endpoint-fails :
    (app : App)
    → FollowsGraph app.executor
    → (request : AgentRequest) → run_agent_endpoint app request ≡ err (http_exception 500)
unfolding run_agent_endpoint or_500 workflow_without_context g
run_agent_endpoint-fails app follows request = elim (Result-cases app.build_workflow) [
  | inl (x, raised) ↦ rw raised refl
  | inr (u, built) ↦
      let s =
        with_input app (app.saved (thread request.thread_id))
          (human_message request.input_text ∷ []) in
      let (x, raised) = run-Raises app.services app.executor follows 23 s in
      rw built (rw raised refl)
]
