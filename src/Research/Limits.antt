-- ===== src/Research/Limits.antt =====
-- app/graph/research.py and run_research of app/api/v1/endpoints.py: the loop and its step limit.
use agentic_enterprise.Base.{
  ap, ◌∙◌, ℕ, zero, suc, ◌≡◌, refl, List, [], ◌∷◌, ◌++◌, get_last?-append, Text, Details, some,
  graph_recursion_error, max_recursion_error, err, ok,
}
use agentic_enterprise.Schemas.{ResearchRequest, validate_research}
use agentic_enterprise.Api.Queries.{or_max_recursion, run_research}
use agentic_enterprise.Messages.{ToolCall, Message}
use agentic_enterprise.Graph.Engine.{node, Executor, FollowsGraph}
use agentic_enterprise.Research.{
  ResearchState, ResearchNode, agent, tools, ResearchServices, append, by_tool_calls,
  should_continue, researcher, research_step, research_edge, research_workflow,
}

-- LangGraph's add_messages, for new messages.
abbrev pub Appends : ResearchServices → Type 0
Appends sv = (old new : List Message) → sv.add_messages old new ≡ old ++ new

-- A model that calls a tool in every answer, and tools that always answer.
abbrev pub CallsTools : ResearchServices → Type 0
CallsTools sv =
    (ms : List Message)
    → (reply : Message) × (sv.tool_llm.ainvoke ms ≡ ok reply)
      × ((call : ToolCall) × (calls : List ToolCall) × (reply.tool_calls ≡ call ∷ calls))

abbrev pub ToolsAnswer : ResearchServices → Type 0
ToolsAnswer sv = (ms : List Message) → (answers : List Message) × (sv.run_tools ms ≡ ok answers)

module _ (sv : ResearchServices) (appends : Appends sv) where
  agent_step :
      (s : ResearchState) (reply : Message)
      → sv.tool_llm.ainvoke s.messages ≡ ok reply
      → research_step sv agent s ≡ ok (append sv s (reply ∷ []))
  unfolding research_step researcher
  agent_step s reply h = rw h refl

  agent_edge :
      (s : ResearchState) (reply : Message)
      → research_edge sv agent (append sv s (reply ∷ []))
        ≡ ok (node (by_tool_calls reply.tool_calls))
  unfolding research_edge should_continue
  agent_edge s reply =
      rw (appends s.messages (reply ∷ [])) (rw (get_last?-append s.messages reply) refl)

  tools_step :
      (s : ResearchState) (answers : List Message)
      → sv.run_tools s.messages ≡ ok answers
      → research_step sv tools s ≡ ok (append sv s answers)
  unfolding research_step
  tools_step s answers h = rw h refl

  tools_edge : (s : ResearchState) → research_edge sv tools s ≡ ok (node agent)
  unfolding research_edge
  tools_edge s = refl

  -- One round of the loop: the model's answer, and where it leads.
  pub agent_round :
      (e : Executor ResearchNode ResearchState)
      → FollowsGraph e
      → (limit : ℕ) (s : ResearchState) (reply : Message)
      → sv.tool_llm.ainvoke s.messages ≡ ok reply
      → e.run (research_workflow sv) (suc limit) agent s
        ≡ e.run
            (research_workflow sv)
            limit
            (by_tool_calls reply.tool_calls)
            (append sv s (reply ∷ []))
  unfolding research_workflow
  agent_round e f limit s reply h =
      rw (f.one_step (research_workflow sv) limit agent s)
        (rw (agent_step s reply h) (rw (agent_edge s reply) refl))

  pub tools_round :
      (e : Executor ResearchNode ResearchState)
      → FollowsGraph e
      → (limit : ℕ) (s : ResearchState) (answers : List Message)
      → sv.run_tools s.messages ≡ ok answers
      → e.run (research_workflow sv) (suc limit) tools s
        ≡ e.run (research_workflow sv) limit agent (append sv s answers)
  unfolding research_workflow
  tools_round e f limit s answers h =
      rw (f.one_step (research_workflow sv) limit tools s)
        (rw (tools_step s answers h) (rw (tools_edge (append sv s answers)) refl))

  -- A run over tools that always answer, of a model that never stops calling them, ends at the limit.
  endless_run :
      (e : Executor ResearchNode ResearchState)
      → FollowsGraph e
      → CallsTools sv
      → ToolsAnswer sv
      → (limit : ℕ) (s : ResearchState)
      → e.run (research_workflow sv) limit agent s ≡ err graph_recursion_error
  unfolding by_tool_calls
  endless_run e f calls answer zero s = f.at_limit (research_workflow sv) agent s
  endless_run e f calls answer (suc zero) s =
      let (reply, h, (call, rest, called)) = calls s.messages in
      rw (agent_round e f 0 s reply h) (
        f.at_limit (research_workflow sv) (by_tool_calls reply.tool_calls)
          (append sv s (reply ∷ [])))
  endless_run e f calls answer (suc (suc limit)) s =
      let (reply, h, (call, rest, called)) = calls s.messages in
      let s' = append sv s (reply ∷ []) in
      let (answers, h') = answer s'.messages in
      rw (agent_round e f (suc limit) s reply h) (
        ap (λ cs. e.run (research_workflow sv) (suc limit) (by_tool_calls cs) s') called
        ∙ tools_round e f limit s' answers h'
        ∙ endless_run e f calls answer limit (append sv s' answers))

  -- POST /research on a valid request, with a model that calls a tool in every answer and tools that
  -- always answer: after 50 steps the loop is stopped and the route raises MaxRecursionError with
  -- its topic.
  pub endless_research_is_stopped :
      (e : Executor ResearchNode ResearchState)
      → FollowsGraph e
      → CallsTools sv
      → ToolsAnswer sv
      → (saved : Text → List Message) (r : ResearchRequest) → validate_research r ≡ ok r
      → run_research sv e (ok tt) (ok tt) saved r
        ≡ err (max_recursion_error (some (Details.topic r.topic)))
  unfolding run_research or_max_recursion research_workflow
  endless_research_is_stopped e f calls answer saved r valid =
      rw valid (rw (endless_run e f calls answer 50 _) refl)
