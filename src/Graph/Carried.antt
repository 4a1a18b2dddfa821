-- ===== src/Graph/Carried.antt =====
-- app/graph/engine.py: a general question on a thread whose state has counted two drafts before.
use mathlib.Core.List.{append-nil}
use agentic_enterprise.Base.{
  ℕ, suc, ◌+◌, ◌≤◌, ◌≡◌, sym, ap, ◌∙◌, some, [], ◌∷◌, ◌++◌, arith, get_last?, text_eq_iff, ok,
  >>=-eq-ok,
}
use agentic_enterprise.Messages.{Message}
use agentic_enterprise.Graph.State.{general, GraphState, reduce, RuntimeContext}
use agentic_enterprise.Graph.Router.{classify}
use agentic_enterprise.Graph.Workers.{pass_verdict, get_or}
use agentic_enterprise.Graph.Retriever.{retrieve_semantic_memories}
use agentic_enterprise.Graph.Budget.{retrieve-Retrieved}
use agentic_enterprise.Graph.Engine.{
  Node, router, memory_retriever, Services, act, run_node, workflow, Executor, FollowsGraph,
}
use agentic_enterprise.Graph.Revision.{
  Appends, graded, messages_of_graded, prompt, critique_of_graded, verdict_at_limit,
}
use agentic_enterprise.Graph.Dispatch.{
  routed_state, count_of_routed, messages_of_routed, memory_retriever_keeps, run_dispatches,
}
use agentic_enterprise.Graph.Runs.{later_draft_is_final}

module _ (sv : Services) (cx : RuntimeContext) (appends : Appends sv) where
  -- The router and the retriever add no message.
  dispatch_messages :
      (s t : GraphState) (m : Message)
      → run_node sv cx memory_retriever (routed_state sv cx m s) ≡ ok t
      → t.messages ≡ s.messages
  unfolding run_node act retrieve_semantic_memories reduce
  dispatch_messages s t m h =
      let r = routed_state sv cx m s in
      let (u, found, merged) = >>=-eq-ok (act sv cx memory_retriever r) _ h in
      let updates = (retrieve-Retrieved sv.settings sv.qdrant sv.memories cx r u found).updates in
      let same : reduce sv.add_messages r u ≡ t = cc in
      ap (λ z. z.messages) (sym same)
      ∙ ap (λ z. sv.add_messages r.messages z.messages) updates
      ∙ appends r.messages []
      ∙ append-nil r.messages
      ∙ messages_of_routed sv cx s m
      ∙ appends s.messages []
      ∙ append-nil s.messages

  -- A general question on such a thread is answered by one draft, which the critic passes, whatever it
  -- says.
  pub carried_run :
      (e : Executor Node GraphState)
      → FollowsGraph e
      → (s t : GraphState) (m reply : Message) (limit : ℕ) → get_last? s.messages ≡ some m
      → classify (sv.lower m.content) ≡ general
      → 2 ≤ get_or s.revision_count 0
      → run_node sv cx memory_retriever (routed_state sv cx m s) ≡ ok t
      → cx.llm.ainvoke (prompt sv cx appends t) ≡ ok reply
      → (s' : GraphState) × (e.run (workflow sv cx) (suc (suc (suc (suc (suc limit))))) router s
          ≡ ok s')
        × (s'.messages ≡ s.messages ++ reply ∷ [])
        × (s'.critique ≡ some pass_verdict)
  carried_run e follows s t m reply limit last route seen found answered =
      let counted : t.revision_count ≡ s.revision_count =
        (memory_retriever_keeps sv cx (routed_state sv cx m s) t found).1
        ∙ count_of_routed sv cx s m in
      let still : get_or t.revision_count 0 ≡ get_or s.revision_count 0 =
        ap (λ o. get_or o 0) counted in
      let final =
        later_draft_is_final sv cx e follows appends t reply limit (omega (arith, seen, still))
          answered in
      let passed =
        verdict_at_limit sv cx appends reply.content (get_or t.revision_count 0 + 1)
          (omega (arith, seen, still)) in
      (
        graded sv reply t,
        rw (run_dispatches sv cx e follows (suc (suc (suc limit))) s t m last found)
            (rw route final),
        messages_of_graded sv cx appends t reply
            ∙ ap (λ ms. ms ++ reply ∷ []) (dispatch_messages s t m found),
        critique_of_graded sv cx appends t reply ∙ ap some ((text_eq_iff _ _).0 passed),
      )
