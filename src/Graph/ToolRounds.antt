-- ===== src/Graph/ToolRounds.antt =====
-- app/graph/engine.py: the round from the technical worker through its tools and back, when tools raise.
use agentic_enterprise.Base.{
  ℕ, suc, ◌≡◌, refl, ap, ◌∙◌, ◌⊎◌, inl, inr, true, false, some, List, [], ◌∷◌, ◌++◌, map, get_last?,
  get_last?-append, Text, ok,
}
use agentic_enterprise.Messages.{ToolCall, Message, tool_message}
use agentic_enterprise.Graph.State.{
  technical, completed, agent_done, GraphState, no_update, reduce, RuntimeContext,
}
use agentic_enterprise.Graph.Router.{classify}
use agentic_enterprise.Graph.Workers.{with_facts, agent_model, call_model}
use agentic_enterprise.Graph.Revision.{Appends}
use agentic_enterprise.Graph.Dispatch.{worker, routed_state, run_dispatches}
use agentic_enterprise.Graph.Tools.{ToolException, format_tool_error}
use agentic_enterprise.Graph.Engine.{
  Node, router, memory_retriever, agent, tools, node, finish, Services, tool_node, act, next,
  run_node, workflow, Executor, FollowsGraph,
}

-- How a tool ends: with its text, or with an exception, which the tools node hands to
-- format_tool_error.
abbrev pub answer : Text ⊎ ToolException → Message
answer (inl text) = tool_message text
answer (inr exc) = tool_message (format_tool_error exc)

-- What LangGraph documents of ToolNode(tools, handle_tool_errors=format_tool_error) and of
-- tools_condition: the calls of the last message are answered one by one, and there is something to
-- do exactly when it has calls.
pub record AnswersCalls (sv : Services) (call : ToolCall → Text ⊎ ToolException) : Type 0 where
  pub answers :
      (ms : List Message) (m : Message)
      → get_last? ms ≡ some m
      → sv.run_tools ms ≡ ok (map (λ c. answer (call c)) m.tool_calls)
  pub goes_on :
      (ms : List Message) (m : Message) (c : ToolCall) (cs : List ToolCall)
      → get_last? ms ≡ some m
      → m.tool_calls ≡ c ∷ cs
      → sv.tools_condition ms ≡ true
  pub ends :
      (ms : List Message) (m : Message)
      → get_last? ms ≡ some m
      → m.tool_calls ≡ []
      → sv.tools_condition ms ≡ false

-- The states after the model has spoken, and after the tools have.
spoken : Services → Message → GraphState → GraphState
spoken sv reply s = reduce sv.add_messages s (record no_update {
  messages = reply ∷ [];
  status = some completed;
  internal_logs = agent_done ∷ [];
})

told : Services → List Message → GraphState → GraphState
told sv ms s = reduce sv.add_messages s (record no_update { messages = ms })

module _ (sv : Services) (cx : RuntimeContext) (appends : Appends sv) where
  messages_of_spoken :
      (reply : Message) (s : GraphState) → (spoken sv reply s).messages ≡ s.messages ++ reply ∷ []
  unfolding spoken reduce
  messages_of_spoken reply s = appends s.messages (reply ∷ [])

  last_of_spoken :
      (reply : Message) (s : GraphState) → get_last? (spoken sv reply s).messages ≡ some reply
  last_of_spoken reply s = rw (messages_of_spoken reply s) (get_last?-append s.messages reply)

  messages_of_told :
      (ms : List Message) (s : GraphState) → (told sv ms s).messages ≡ s.messages ++ ms
  unfolding told reduce
  messages_of_told ms s = appends s.messages ms

  facts_of_told :
      (ms : List Message) (reply : Message) (s : GraphState)
      → (told sv ms (spoken sv reply s)).retrieved_context ≡ s.retrieved_context
  unfolding told spoken reduce
  facts_of_told ms reply s = refl

  agent_step :
      (s : GraphState) (reply : Message)
      → (agent_model cx).ainvoke (with_facts s.retrieved_context s.messages) ≡ ok reply
      → run_node sv cx agent s ≡ ok (spoken sv reply s)
  unfolding run_node act call_model spoken
  agent_step s reply said = rw said refl

  tools_step :
      (s : GraphState) (ms : List Message)
      → sv.run_tools s.messages ≡ ok ms
      → run_node sv cx tools s ≡ ok (told sv ms s)
  unfolding run_node act tool_node told
  tools_step s ms ran = rw ran refl

  asks_edge :
      (s : GraphState) → sv.tools_condition s.messages ≡ true → next sv agent s ≡ ok (node tools)
  unfolding next
  asks_edge s h = rw h refl

  ends_edge : (s : GraphState) → sv.tools_condition s.messages ≡ false → next sv agent s ≡ ok finish
  unfolding next
  ends_edge s h = rw h refl

  tools_edge : (s : GraphState) → next sv tools s ≡ ok (node agent)
  unfolding next
  tools_edge s = refl

  module _ (e : Executor Node GraphState) (follows : FollowsGraph e)
      (call : ToolCall → Text ⊎ ToolException) (node_answers : AnswersCalls sv call) where
    -- From the technical worker to END when the model calls no tool.
    reply_ends :
        (limit : ℕ) (s : GraphState) (reply : Message)
        → (agent_model cx).ainvoke (with_facts s.retrieved_context s.messages) ≡ ok reply
        → reply.tool_calls ≡ []
        → e.run (workflow sv cx) (suc (suc limit)) agent s ≡ ok (spoken sv reply s)
    unfolding workflow
    reply_ends limit s reply said calls =
        let there = node_answers.ends _ reply (last_of_spoken reply s) calls in
        rw (follows.one_step (workflow sv cx) (suc limit) agent s)
          (rw (agent_step s reply said) (rw (ends_edge (spoken sv reply s) there) refl))

    -- From the technical worker through the tools and back.
    tools_round :
        (limit : ℕ) (s : GraphState) (asking : Message) (c : ToolCall) (cs : List ToolCall)
        → (agent_model cx).ainvoke (with_facts s.retrieved_context s.messages) ≡ ok asking
        → asking.tool_calls ≡ c ∷ cs
        → e.run (workflow sv cx) (suc (suc limit)) agent s
          ≡ e.run
              (workflow sv cx)
              limit
              agent
              (told sv (map (λ d. answer (call d)) asking.tool_calls) (spoken sv asking s))
    unfolding workflow
    tools_round limit s asking c cs said calls =
        let last = last_of_spoken asking s in
        let more = node_answers.goes_on _ asking c cs last calls in
        let s₁ = spoken sv asking s in
        rw (follows.one_step (workflow sv cx) (suc limit) agent s) (
          rw (agent_step s asking said) (
            rw (asks_edge s₁ more) (
              rw (follows.one_step (workflow sv cx) limit tools s₁) (
                rw (tools_step s₁ _ (node_answers.answers _ asking last))
                  (rw (tools_edge (told sv _ s₁)) refl)))))

    -- A technical question for which the model calls tools is not ended by tools that raise: if the
    -- retrieval of facts does not raise and the recursion limit is at least 6, the model is called
    -- again with one answer per call, which for a tool that raised is the text of format_tool_error,
    -- and its next reply without calls ends the run as the last message.
    pub tool_errors_reach_the_model :
        (s t : GraphState) (m asking reply : Message) (c : ToolCall) (cs : List ToolCall)
        (limit : ℕ)
        → get_last? s.messages ≡ some m
        → classify (sv.lower m.content) ≡ technical
        → run_node sv cx memory_retriever (routed_state sv cx m s) ≡ ok t
        → (agent_model cx).ainvoke (with_facts t.retrieved_context t.messages) ≡ ok asking
        → asking.tool_calls ≡ c ∷ cs
        → (agent_model cx).ainvoke (
            with_facts t.retrieved_context
              (t.messages ++ asking ∷ [] ++ map (λ d. answer (call d)) asking.tool_calls))
          ≡ ok reply
        → reply.tool_calls ≡ []
        → (s' : GraphState) × (e.run
              (workflow sv cx)
              (suc (suc (suc (suc (suc (suc limit))))))
              router
              s
            ≡ ok s')
          × (s'.messages
              ≡ t.messages
                ++ asking ∷ []
                ++ map (λ d. answer (call d)) asking.tool_calls
                ++ reply ∷ [])
    tool_errors_reach_the_model s t m asking reply c cs limit last route found asked calls said
          done =
        let results = map (λ d. answer (call d)) asking.tool_calls in
        let s₂ = told sv results (spoken sv asking t) in
        let seen : s₂.messages ≡ t.messages ++ asking ∷ [] ++ results =
          messages_of_told results (spoken sv asking t)
          ∙ ap (λ z. z ++ results) (messages_of_spoken asking t) in
        let again : (agent_model cx).ainvoke (with_facts s₂.retrieved_context s₂.messages)
            ≡ ok reply =
          rw (facts_of_told results asking t, seen) said in
        (
          spoken sv reply s₂,
          run_dispatches sv cx e follows (suc (suc (suc (suc limit)))) s t m last found
              ∙ ap (λ r. e.run (workflow sv cx) (suc (suc (suc (suc limit)))) (worker r) t) route
              ∙ tools_round (suc (suc limit)) t asking c cs asked calls
              ∙ reply_ends limit s₂ reply again done,
          messages_of_spoken reply s₂ ∙ ap (λ z. z ++ reply ∷ []) seen,
        )
