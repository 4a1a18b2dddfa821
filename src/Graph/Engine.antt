-- ===== src/Graph/Engine.antt =====
-- The graph as `graph_builder` puts it together: the nodes, the edges, and what runs it.
use agentic_enterprise.Base.{
  ℕ, zero, suc, ◌≡◌, Bool, Option, none, some, List, if◌then◌else◌, Text, text_eq, key_error,
  graph_recursion_error, Result, ok, err, ◌>>=◌,
}
use agentic_enterprise.Settings.{Settings}
use agentic_enterprise.Memory.{Store, Qdrant}
use agentic_enterprise.Messages.{Message}
use agentic_enterprise.Graph.State.{
  Route, technical, billing, general, investment, GraphState, Update, no_update, reduce,
  RuntimeContext,
}
use agentic_enterprise.Graph.Router.{route_request}
use agentic_enterprise.Graph.Retriever.{retrieve_semantic_memories}
use agentic_enterprise.Graph.Workers.{pass_verdict, call_model, billing_worker, general_worker}
use agentic_enterprise.Graph.Critic.{critic}
use agentic_enterprise.Graph.Investment.{fetch_market_metrics, generate_structured_report}

pub data Node : Type 0 where
  router memory_retriever agent tools billing_node general_node : Node
  critic_node fetch_metrics format_report : Node

-- Where an edge leads: a node, or END.
pub data Target {ℓ} (N : Type ℓ) : Type ℓ where
  node : N → Target N
  finish : Target N

unfoldable pub after_memory_retriever : Option Route → Node
after_memory_retriever none = general_node
after_memory_retriever (some technical) = agent
after_memory_retriever (some billing) = billing_node
after_memory_retriever (some investment) = fetch_metrics
after_memory_retriever (some general) = general_node

-- `state["critique"] == "PASS"`
unfoldable pub after_critic : Option Text → Result (Target Node)
unfolding pass_verdict
after_critic none = err key_error
after_critic (some note) = ok (if text_eq note pass_verdict then finish else node general_node)

-- What the nodes and LangGraph's own parts need: Python's str.lower, the settings, the vector
-- store, the reducer of messages, the prebuilt tool node and `tools_condition`.
pub record Services : Type 0 where
  pub lower : Text → Text
  pub settings : Settings
  pub qdrant : Qdrant
  pub memories : Store
  pub add_messages : List Message → List Message → List Message
  pub run_tools : List Message → Result (List Message)
  pub tools_condition : List Message → Bool

unfoldable pub tool_node : Services → GraphState → Result Update
tool_node services state = do
  answers ← services.run_tools state.messages
  ok (record no_update { messages = answers })

-- add_node: the function that each node runs.
unfoldable pub act : Services → RuntimeContext → Node → GraphState → Result Update
act services context router state = route_request services.lower state
act services context memory_retriever state =
    retrieve_semantic_memories services.settings services.qdrant services.memories context state
act services context agent state = call_model context state
act services context tools state = tool_node services state
act services context billing_node state = billing_worker context state
act services context general_node state = general_worker context state
act services context critic_node state = critic services.lower state
act services context fetch_metrics state = fetch_market_metrics context state
act services context format_report state = generate_structured_report context state

-- add_edge and add_conditional_edges: where a run goes after a node.
unfoldable pub next : Services → Node → GraphState → Result (Target Node)
unfolding after_memory_retriever after_critic
next services router state = ok (node memory_retriever)
next services memory_retriever state = ok (node (after_memory_retriever state.route_to))
next services agent state =
    ok (if services.tools_condition state.messages then node tools else finish)
next services tools state = ok (node agent)
next services billing_node state = ok finish
next services general_node state = ok (node critic_node)
next services critic_node state = after_critic state.critique
next services fetch_metrics state = ok (node format_report)
next services format_report state = ok finish

-- A compiled graph: its steps, each a node's update merged into the state, and its edges.
pub record CompiledGraph (N S : Type 0) : Type 0 where
  pub entry : N
  pub step : N → S → Result S
  pub edge : N → S → Result (Target N)

-- A node's update, merged into the state by the reducers.
unfoldable pub run_node : Services → RuntimeContext → Node → GraphState → Result GraphState
run_node services context n state = do
  update ← act services context n state
  ok (reduce services.add_messages state update)

unfoldable pub workflow : Services → RuntimeContext → CompiledGraph Node GraphState
workflow services context = record {
  entry = router;
  step = run_node services context;
  edge = next services;
}

-- LangGraph's executor. `run limit n s` runs node `n` and what follows it, at most `limit` steps.
pub record Executor (N S : Type 0) : Type 0 where
  pub run : CompiledGraph N S → ℕ → N → S → Result S

-- What LangGraph does when the edge of a node leads to END, with `limit` steps left: it checks the limit
-- before it sees that no node is left to run.
abbrev pub ended : {S : Type 0} → ℕ → S → Result S
ended zero s = err graph_recursion_error
ended (suc limit) s = ok s

-- What LangGraph documents of it: a step runs one node and merges its update, the edges give the
-- next node, and the recursion limit bounds the number of steps; a run that ends needs one step more
-- than it has nodes.
pub record FollowsGraph {N S : Type 0} (e : Executor N S) : Type 0 where
  pub at_limit : (g : CompiledGraph N S) (n : N) (s : S) → e.run g 0 n s ≡ err graph_recursion_error
  pub one_step :
      (g : CompiledGraph N S) (limit : ℕ) (n : N) (s : S)
      → e.run g (suc limit) n s ≡ (
          g.step n s >>= λ s'.
          g.edge n s' >>= λ t. elim t [ node m ↦ e.run g limit m s' | finish ↦ ended limit s' ])
