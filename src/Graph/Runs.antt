-- ===== src/Graph/Runs.antt =====
-- app/graph/engine.py: whole runs of general questions, from the router to END.
use agentic_enterprise.Base.{ℕ, zero, suc, ◌+◌, ◌≤◌, ◌≡◌, ap, ◌∙◌, none, some, arith, get_last?, ok}
use agentic_enterprise.Messages.{Message}
use agentic_enterprise.Graph.State.{general, GraphState, RuntimeContext}
use agentic_enterprise.Graph.Router.{classify}
use agentic_enterprise.Graph.Workers.{get_or}
use agentic_enterprise.Graph.Engine.{
  Node, router, memory_retriever, general_node, Services, run_node, workflow, Executor,
  FollowsGraph,
}
use agentic_enterprise.Graph.Revision.{
  Replies, Appends, graded, prompt, draft_round, verdict_at_limit, Ends, rounds,
}
use agentic_enterprise.Graph.Dispatch.{
  routed_state, count_of_routed, memory_retriever_keeps, run_dispatches,
}

module _ (sv : Services) (cx : RuntimeContext) (e : Executor Node GraphState)
    (follows : FollowsGraph e) (appends : Appends sv) where
  -- A general question on a thread without drafts, whose retrieval of facts does not raise, ends with
  -- the verdict PASS and an answer after at most three drafts, whatever the model answers, if it answers every call,
  -- new messages are appended, and the recursion limit is at least 9.
  pub general_run-Ends :
      Replies cx.llm
      → (s t : GraphState) (m : Message) (limit : ℕ) → get_last? s.messages ≡ some m
      → classify (sv.lower m.content) ≡ general
      → s.revision_count ≡ none
      → run_node sv cx memory_retriever (routed_state sv cx m s) ≡ ok t
      → 9 ≤ limit
      → Ends sv cx appends 3 (e.run (workflow sv cx) limit router s)
  general_run-Ends replies s t m zero last route fresh found room = absurd (omega arith)
  general_run-Ends replies s t m (suc zero) last route fresh found room = absurd (omega arith)
  general_run-Ends replies s t m (suc (suc limit)) last route fresh found room =
      let counted : t.revision_count ≡ none =
        (memory_retriever_keeps sv cx (routed_state sv cx m s) t found).1
        ∙ count_of_routed sv cx s m
        ∙ fresh in
      let none_yet : get_or t.revision_count 0 ≡ 0 = ap (λ o. get_or o 0) counted in
      let (s', ran, passed, (n, total, most), answered) =
        rounds sv cx appends e follows replies 2 limit t (omega (arith, none_yet)) (omega arith) in
      rw (run_dispatches sv cx e follows limit s t m last found)
        (rw route (s', ran, passed, (n, total, omega (arith, none_yet)), answered))

  -- On a thread whose state counts two drafts or more, the next draft that the model gives is final,
  -- however short it is: the critic forces PASS.
  pub later_draft_is_final :
      (s : GraphState) (reply : Message) (limit : ℕ)
      → 2 ≤ get_or s.revision_count 0
      → cx.llm.ainvoke (prompt sv cx appends s) ≡ ok reply
      → e.run (workflow sv cx) (suc (suc (suc limit))) general_node s ≡ ok (graded sv reply s)
  later_draft_is_final s reply limit seen h =
      rw (draft_round sv cx appends e follows (suc limit) s reply h) (
        rw (
          verdict_at_limit sv cx appends reply.content (get_or s.revision_count 0 + 1)
            (omega arith)))
