-- ===== src/Graph/Dispatch.antt =====
-- app/graph/engine.py: from the keywords of the last message to the worker that answers it.
use agentic_enterprise.Base.{ℕ, suc, ◌≡◌, refl, ◌∙◌, some, [], ◌∷◌, get_last?, ok, >>=-eq-ok}
use agentic_enterprise.Messages.{Message}
use agentic_enterprise.Graph.State.{
  Route, technical, billing, general, investment, routed, router_decided, GraphState, no_update,
  reduce, RuntimeContext,
}
use agentic_enterprise.Graph.Router.{classify, route_request}
use agentic_enterprise.Graph.Budget.{retrieve-Retrieved}
use agentic_enterprise.Graph.Retriever.{retrieve_semantic_memories}
use agentic_enterprise.Graph.Engine.{
  Node, router, memory_retriever, agent, billing_node, general_node, fetch_metrics, node,
  after_memory_retriever, Services, act, next, run_node, workflow, Executor, FollowsGraph,
}

-- The worker of each route.
abbrev pub worker : Route → Node
worker technical = agent
worker billing = billing_node
worker investment = fetch_metrics
worker general = general_node

module _ (sv : Services) (cx : RuntimeContext) where
  -- The state after the router has seen the message `m`.
  unfoldable pub routed_state : Message → GraphState → GraphState
  routed_state m s =
      let decision = classify (sv.lower m.content) in
      reduce sv.add_messages s (record no_update {
        route_to = some decision;
        status = some routed;
        internal_logs = router_decided decision ∷ [];
      })

  pub router_step :
      (s : GraphState) (m : Message)
      → get_last? s.messages ≡ some m
      → run_node sv cx router s ≡ ok (routed_state m s)
  unfolding run_node act route_request routed_state
  router_step s m h = rw h

  pub route_of_routed :
      (s : GraphState) (m : Message)
      → (routed_state m s).route_to ≡ some (classify (sv.lower m.content))
  unfolding routed_state reduce
  route_of_routed s m = refl

  pub count_of_routed :
      (s : GraphState) (m : Message) → (routed_state m s).revision_count ≡ s.revision_count
  unfolding routed_state reduce
  count_of_routed s m = refl

  -- The retriever leaves the route and the count of drafts alone.
  pub memory_retriever_keeps :
      (s t : GraphState)
      → run_node sv cx memory_retriever s ≡ ok t
      → (t.route_to ≡ s.route_to) × (t.revision_count ≡ s.revision_count)
  unfolding run_node act retrieve_semantic_memories reduce
  memory_retriever_keeps s t h =
      let (u, found, merged) = >>=-eq-ok (act sv cx memory_retriever s) _ h in
      let updates = (retrieve-Retrieved sv.settings sv.qdrant sv.memories cx s u found).updates in
      let same : reduce sv.add_messages s u ≡ t = cc in rw (← same) (rw updates (refl, refl))

  pub router_edge : (s : GraphState) → next sv router s ≡ ok (node memory_retriever)
  unfolding next
  router_edge s = refl

  -- The first step of a run.
  pub run_routes :
      (e : Executor Node GraphState)
      → FollowsGraph e
      → (limit : ℕ) (s : GraphState) (m : Message) → get_last? s.messages ≡ some m
      → e.run (workflow sv cx) (suc limit) router s
        ≡ e.run (workflow sv cx) limit memory_retriever (routed_state m s)
  unfolding workflow
  run_routes e f limit s m last =
      rw (f.one_step (workflow sv cx) limit router s)
        (rw (router_step s m last) (rw (router_edge (routed_state m s)) refl))

  pub messages_of_routed :
      (s : GraphState) (m : Message) → (routed_state m s).messages ≡ sv.add_messages s.messages []
  unfolding routed_state reduce
  messages_of_routed s m = refl

  pub memory_retriever_edge :
      (s : GraphState) (r : Route)
      → s.route_to ≡ some r
      → next sv memory_retriever s ≡ ok (node (worker r))
  unfolding next
  memory_retriever_edge s technical h = rw (h, after_memory_retriever)
  memory_retriever_edge s billing h = rw (h, after_memory_retriever)
  memory_retriever_edge s investment h = rw (h, after_memory_retriever)
  memory_retriever_edge s general h = rw (h, after_memory_retriever)

  -- A run whose retrieval of facts does not raise takes two steps to the worker that the keywords of
  -- its last message select, with the state that the router and the retriever leave.
  pub run_dispatches :
      (e : Executor Node GraphState)
      → FollowsGraph e
      → (limit : ℕ) (s t : GraphState) (m : Message) → get_last? s.messages ≡ some m
      → run_node sv cx memory_retriever (routed_state m s) ≡ ok t
      → e.run (workflow sv cx) (suc (suc limit)) router s
        ≡ e.run (workflow sv cx) limit (worker (classify (sv.lower m.content))) t
  unfolding workflow
  run_dispatches e f limit s t m last found =
      let route = (memory_retriever_keeps (routed_state m s) t found).0 ∙ route_of_routed s m in
      rw (run_routes e f (suc limit) s m last) (
        rw (f.one_step (workflow sv cx) limit memory_retriever (routed_state m s))
          (rw found (rw (memory_retriever_edge t _ route))))
