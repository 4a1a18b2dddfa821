-- ===== src/Graph/Transcript.antt =====
-- app/graph/engine.py: the messages of a run: what each node says, and that no node takes any away.
use mathlib.Core.List.{append_assoc}
use agentic_enterprise.Base.{
  ℕ, zero, suc, ◌≡◌, sym, ap, ◌∙◌, List, [], ◌∷◌, ◌++◌, get_last?, index_error, key_error, ok,
  or_raise, >>=-eq-ok,
}
use agentic_enterprise.Messages.{Message}
use agentic_enterprise.Graph.State.{GraphState, Update, reduce, RuntimeContext}
use agentic_enterprise.Graph.Router.{route_request}
use agentic_enterprise.Graph.Workers.{
  get_or, fact_lines, note_lines, with_lines, with_facts, agent_model, call_model, billing_worker,
  general_worker,
}
use agentic_enterprise.Graph.Critic.{critic}
use agentic_enterprise.Graph.Investment.{
  get_market_metrics, head?, fetch_market_metrics, generate_structured_report,
}
use agentic_enterprise.Graph.Budget.{retrieve-Retrieved}
use agentic_enterprise.Graph.Engine.{
  Node, Target, router, memory_retriever, agent, tools, billing_node, general_node, critic_node,
  fetch_metrics, format_report, node, finish, Services, tool_node, act, next, run_node, workflow,
  Executor, FollowsGraph, ended,
}
use agentic_enterprise.Graph.Revision.{Appends}

-- What a node says in a state: a worker the one reply of its model, asked with the facts of the state
-- and, in a revision, the critic's note in front of the messages; the tools node the answers of the
-- tools; any other node nothing.
abbrev pub Says : Services → RuntimeContext → Node → GraphState → List Message → Type 0
Says sv cx agent s said =
    (reply : Message) × ((agent_model cx).ainvoke (with_facts s.retrieved_context s.messages)
      ≡ ok reply)
    × (said ≡ reply ∷ [])
Says sv cx billing_node s said =
    (reply : Message) × (cx.llm.ainvoke (with_facts s.retrieved_context s.messages) ≡ ok reply)
    × (said ≡ reply ∷ [])
Says sv cx general_node s said =
    (reply : Message) × (cx.llm.ainvoke (
        with_lines (fact_lines s.retrieved_context ++ note_lines (get_or s.critique [])) s.messages)
      ≡ ok reply)
    × (said ≡ reply ∷ [])
Says sv cx tools s said = sv.run_tools s.messages ≡ ok said
Says sv cx router s said = said ≡ []
Says sv cx memory_retriever s said = said ≡ []
Says sv cx critic_node s said = said ≡ []
Says sv cx fetch_metrics s said = said ≡ []
Says sv cx format_report s said = said ≡ []

-- A walk over the edges of the graph, from a node and a state to END and the last state, and what the
-- nodes on the way have said, in order.
pub data Walk (sv : Services) (cx : RuntimeContext)
    : Node → GraphState → GraphState → List Message → Type 0 where
  ends :
      {n : Node} {s s' : GraphState} (said : List Message)
      → run_node sv cx n s ≡ ok s'
      → Says sv cx n s said
      → next sv n s' ≡ ok finish
      → Walk sv cx n s s' said
  goes_on :
      {n m : Node} {s s₁ s' : GraphState} (said more : List Message)
      → run_node sv cx n s ≡ ok s₁
      → Says sv cx n s said
      → next sv n s₁ ≡ ok (node m)
      → Walk sv cx m s₁ s' more
      → Walk sv cx n s s' (said ++ more)

messages-ok : (u v : Update) → ok u ≡ ok v → v.messages ≡ u.messages
messages-ok u v e = let same : u ≡ v = cc in ap (λ z. z.messages) (sym same)

module _ (sv : Services) (cx : RuntimeContext) where
  act-Says :
      (n : Node) (s : GraphState) (u : Update) → act sv cx n s ≡ ok u → Says sv cx n s u.messages
  unfolding act route_request call_model tool_node billing_worker general_worker critic
      fetch_market_metrics generate_structured_report
  act-Says router s u h =
      let (m, _, done) = >>=-eq-ok (or_raise (get_last? s.messages) index_error) _ h in
      messages-ok _ u done
  act-Says memory_retriever s u h =
      ap (λ z. z.messages) (retrieve-Retrieved sv.settings sv.qdrant sv.memories cx s u h).updates
  act-Says agent s u h =
      let (reply, asked, done) =
        >>=-eq-ok ((agent_model cx).ainvoke (with_facts s.retrieved_context s.messages)) _ h in
      (reply, asked, messages-ok _ u done)
  act-Says tools s u h =
      let (answers, ran, done) = >>=-eq-ok (sv.run_tools s.messages) _ h in
      ran ∙ ap ok (sym (messages-ok _ u done))
  act-Says billing_node s u h =
      let (reply, asked, done) =
        >>=-eq-ok (cx.llm.ainvoke (with_facts s.retrieved_context s.messages)) _ h in
      (reply, asked, messages-ok _ u done)
  act-Says general_node s u h =
      let lines = fact_lines s.retrieved_context ++ note_lines (get_or s.critique []) in
      let (reply, asked, done) = >>=-eq-ok (cx.llm.ainvoke (with_lines lines s.messages)) _ h in
      (reply, asked, messages-ok _ u done)
  act-Says critic_node s u h =
      let (m, _, counts) = >>=-eq-ok (or_raise (get_last? s.messages) index_error) _ h in
      let (count, _, done) = >>=-eq-ok (or_raise s.revision_count key_error) _ counts in
      messages-ok _ u done
  act-Says fetch_metrics s u h =
      let (reply, _, called) = >>=-eq-ok (cx.llm.ainvoke_metrics_tool s.messages) _ h in
      let (call, _, fetched) = >>=-eq-ok (or_raise (head? reply.tool_calls) index_error) _ called in
      let (result, _, done) = >>=-eq-ok (get_market_metrics call.args) _ fetched in
      messages-ok _ u done
  act-Says format_report s u h =
      let (metrics, _, written) = >>=-eq-ok (or_raise s.tool_result key_error) _ h in
      let (analysis, _, done) = >>=-eq-ok (cx.llm.ainvoke_analysis metrics) _ written in
      messages-ok _ u done

module _ (sv : Services) (cx : RuntimeContext) (appends : Appends sv) where
  -- A node puts what it says after the messages that there are.
  node-Says :
      (n : Node) (s s' : GraphState)
      → run_node sv cx n s ≡ ok s'
      → (said : List Message) × Says sv cx n s said × (s'.messages ≡ s.messages ++ said)
  unfolding run_node reduce
  node-Says n s s' h =
      let (u, done, merged) = >>=-eq-ok (act sv cx n s) _ h in
      let same : reduce sv.add_messages s u ≡ s' = cc in
      (
        u.messages,
        act-Says sv cx n s u done,
        ap (λ z. z.messages) (sym same) ∙ appends s.messages u.messages,
      )

  -- The messages at the end of a walk.
  abbrev pub Walks : Node → GraphState → GraphState → Type 0
  Walks n s s' = (said : List Message) × Walk sv cx n s s' said × (s'.messages ≡ s.messages ++ said)

  target-Walks :
      (e : Executor Node GraphState) (limit : ℕ) (n : Node) (s s₁ s' : GraphState) (t : Target Node)
      → ((m : Node) (s s' : GraphState) → e.run (workflow sv cx) limit m s ≡ ok s' → Walks m s s')
      → run_node sv cx n s ≡ ok s₁
      → next sv n s₁ ≡ ok t
      → (elim t [ node m ↦ e.run (workflow sv cx) limit m s₁ | finish ↦ ended limit s₁ ]) ≡ ok s'
      → Walks n s s'
  target-Walks e limit n s s₁ s' (node m) rest ran edge h =
      let (said, says, messages) = node-Says n s s₁ ran in
      let (more, walk, later) = rest m s₁ s' h in
      (
        said ++ more,
        goes_on said more ran says edge walk,
        later ∙ ap (λ ms. ms ++ more) messages ∙ append_assoc s.messages said more,
      )
  target-Walks e zero n s s₁ s' finish rest ran edge h = absurd (cc)
  target-Walks e (suc limit) n s s₁ s' finish rest ran edge h =
      let same : s₁ ≡ s' = cc in
      let ran' : run_node sv cx n s ≡ ok s' = ran ∙ ap ok same in
      let (said, says, messages) = node-Says n s s' ran' in
      (said, ends said ran' says (ap (next sv n) (sym same) ∙ edge), messages)

  -- A run that returns has walked the graph to END, and has put what the nodes have said after the
  -- messages that it began with.
  pub run-Walks :
      (e : Executor Node GraphState)
      → FollowsGraph e
      → (limit : ℕ) (n : Node) (s s' : GraphState) → e.run (workflow sv cx) limit n s ≡ ok s'
      → Walks n s s'
  unfolding workflow
  run-Walks e f zero n s s' h =
      let raised = sym (f.at_limit (workflow sv cx) n s) ∙ h in absurd (cc)
  run-Walks e f (suc limit) n s s' h =
      let (s₁, ran, rest) =
        >>=-eq-ok (run_node sv cx n s) _ (sym (f.one_step (workflow sv cx) limit n s) ∙ h) in
      let (t, edge, there) = >>=-eq-ok (next sv n s₁) _ rest in
      target-Walks e limit n s s₁ s' t (run-Walks e f limit) ran edge there
