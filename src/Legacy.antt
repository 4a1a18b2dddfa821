-- ===== src/Legacy.antt =====
-- server.py: the first gateway, which runs the graph of app/graph/engine.py without a context.
pub mod Contexts
use agentic_enterprise.Base.{
  [], ◌∷◌, get_last?, Text, index_error, attribute_error, http_exception, Result, err, ok, or_raise,
  ◌>>=◌, ◌>>◌,
}
use agentic_enterprise.Messages.{human_message}
use agentic_enterprise.Graph.State.{GraphState, Update, reduce}
use agentic_enterprise.Graph.Router.{route_request}
use agentic_enterprise.Graph.Critic.{critic}
use agentic_enterprise.Graph.Engine.{
  Node, router, memory_retriever, agent, tools, billing_node, general_node, critic_node,
  fetch_metrics, format_report, Services, tool_node, next, CompiledGraph,
}
use agentic_enterprise.Api.{App, default_recursion_limit, with_input}
use agentic_enterprise.Api.Queries.{thread}

pub record AgentRequest : Type 0 where
  pub input_text : Text
  pub thread_id : Text

-- `status` is its default.
pub record AgentResponse : Type 0 where
  pub final_state : GraphState

-- The nodes when runtime.context is None: reading one of its attributes raises. The retriever looks at
-- the last message before it does.
unfoldable pub act_without_context : Services → Node → GraphState → Result Update
act_without_context services router state = route_request services.lower state
act_without_context services memory_retriever state = do
  last ← or_raise (get_last? state.messages) index_error
  err attribute_error
act_without_context services agent state = err attribute_error
act_without_context services tools state = tool_node services state
act_without_context services billing_node state = err attribute_error
act_without_context services general_node state = err attribute_error
act_without_context services critic_node state = critic services.lower state
act_without_context services fetch_metrics state = err attribute_error
act_without_context services format_report state = err attribute_error

unfoldable pub run_node_without_context : Services → Node → GraphState → Result GraphState
unfolding act_without_context
run_node_without_context services n state = do
  update ← act_without_context services n state
  ok (reduce services.add_messages state update)

unfoldable pub workflow_without_context : Services → CompiledGraph Node GraphState
workflow_without_context services = record {
  entry = router;
  step = run_node_without_context services;
  edge = next services;
}

-- except Exception as e: raise HTTPException(status_code=500, detail=str(e))
unfoldable pub or_500 {ℓ} : {A : Type ℓ} → Result A → Result A
or_500 (ok a) = ok a
or_500 (err e) = err (http_exception 500)

-- The status of the input is dropped, since it is no field of GraphInput.
unfoldable pub run_agent_endpoint : App → AgentRequest → Result AgentResponse
unfolding or_500 with_input
run_agent_endpoint app request = or_500 (do
  app.build_workflow
  let g = workflow_without_context app.services
  let messages = human_message request.input_text ∷ []
  result ←
      app.executor.run g default_recursion_limit g.entry
        (with_input app (app.saved (thread request.thread_id)) messages)
  ok (record { final_state = result }))
