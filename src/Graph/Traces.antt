-- ===== src/Graph/Traces.antt =====
-- app/graph/engine.py: the chunks of a streamed run of a general question.
use agentic_enterprise.Base.{
  ℕ, zero, suc, ◌+◌, ◌*◌, ◌≤◌, ◌≡◌, refl, ap, ◌∙◌, inl, inr, true, false, none, some, List, [], ◌∷◌,
  ◌++◌, map, arith, Bool-cases, Result-cases, codes, get_last?, Text, text_eq_iff, text_eq_refl, ok,
}
use agentic_enterprise.Messages.{Message}
use agentic_enterprise.Graph.State.{general, GraphState, RuntimeContext}
use agentic_enterprise.Graph.Router.{classify, route_request}
use agentic_enterprise.Graph.Workers.{pass_verdict, get_or}
use agentic_enterprise.Graph.Critic.{general_revision_limit, stub_verdict, verdict, critic}
use agentic_enterprise.Graph.Engine.{
  Node, router, memory_retriever, general_node, critic_node, node, finish, Services, act, next,
  run_node, workflow,
}
use agentic_enterprise.Graph.Revision.{
  Replies, Appends, drafted, graded, general_node_step, general_edge, critic_node_step, critic_edge,
  last_of_draft, count_of_draft, count_of_graded, stops, prompt, verdict_at_limit,
}
use agentic_enterprise.Graph.Dispatch.{
  routed_state, router_step, router_edge, route_of_routed, count_of_routed, memory_retriever_edge,
  memory_retriever_keeps,
}
use agentic_enterprise.Graph.Events.{
  route_name, routed_prefix, verdict_prefix, announced, reported, statuses, Chunk, custom, updates,
  Streamer, StreamsGraph,
}

-- The chunks of a draft and its grading.
abbrev pub round_chunks : Text → List Chunk
round_chunks v = updates general_node ∷ custom (verdict_prefix ++ v) ∷ updates critic_node ∷ []

-- The chunks of a loop that rejects `n` drafts and passes the next one.
unfoldable pub loop_chunks : ℕ → List Chunk
loop_chunks zero = round_chunks pass_verdict
loop_chunks (suc n) = round_chunks stub_verdict ++ loop_chunks n

module _ (sv : Services) (cx : RuntimeContext) (appends : Appends sv) (st : Streamer)
    (streams : StreamsGraph st) where
  abbrev chunks_of : ℕ → Node → GraphState → List Chunk
  chunks_of limit n s = (st.astream (workflow sv cx) (statuses sv cx) limit n s).0

  step_chunks :
      (limit : ℕ) (n m : Node) (s s' : GraphState)
      → run_node sv cx n s ≡ ok s'
      → next sv n s' ≡ ok (node m)
      → chunks_of (suc limit) n s
        ≡ map custom (statuses sv cx n s) ++ updates n ∷ chunks_of limit m s'
  unfolding workflow
  step_chunks limit n m s s' ran edge =
      ap (λ p. p.0) (streams.one_step (workflow sv cx) (statuses sv cx) limit n s)
      ∙ rw ran (rw edge refl)

  last_chunks :
      (limit : ℕ) (n : Node) (s s' : GraphState)
      → run_node sv cx n s ≡ ok s'
      → next sv n s' ≡ ok finish
      → chunks_of (suc limit) n s ≡ map custom (statuses sv cx n s) ++ updates n ∷ []
  unfolding workflow
  last_chunks limit n s s' ran edge =
      ap (λ p. p.0) (streams.one_step (workflow sv cx) (statuses sv cx) limit n s)
      ∙ rw ran (rw edge refl)

  router_statuses :
      (s : GraphState) (m : Message)
      → get_last? s.messages ≡ some m
      → statuses sv cx router s ≡ (routed_prefix ++ route_name (classify (sv.lower m.content))) ∷ []
  unfolding statuses announced reported act route_request
  router_statuses s m last = rw last refl

  critic_statuses :
      (s : GraphState) (reply : Message)
      → statuses sv cx critic_node (drafted sv reply s)
        ≡ (verdict_prefix ++ verdict sv.lower reply.content (get_or s.revision_count 0 + 1)) ∷ []
  unfolding statuses announced reported act critic
  critic_statuses s reply =
      rw (last_of_draft sv cx appends s reply) (rw (count_of_draft sv cx appends s reply) refl)

  retriever_statuses : (s : GraphState) → statuses sv cx memory_retriever s ≡ []
  unfolding statuses announced reported
  retriever_statuses s = elim (Result-cases (act sv cx memory_retriever s)) [
    | inl (e, h) ↦ rw h refl
    | inr (u, h) ↦ rw h refl
  ]

  worker_statuses : (s : GraphState) → statuses sv cx general_node s ≡ []
  unfolding statuses announced reported
  worker_statuses s = elim (Result-cases (act sv cx general_node s)) [
    | inl (e, h) ↦ rw h refl
    | inr (u, h) ↦ rw h refl
  ]

  verdict_of : GraphState → Message → Text
  verdict_of s reply = verdict sv.lower reply.content (get_or s.revision_count 0 + 1)

  draft_chunks :
      (limit : ℕ) (s : GraphState) (reply : Message)
      → cx.llm.ainvoke (prompt sv cx appends s) ≡ ok reply
      → chunks_of (suc limit) general_node s
        ≡ updates general_node ∷ chunks_of limit critic_node (drafted sv reply s)
  draft_chunks limit s reply h =
      step_chunks limit general_node critic_node s (drafted sv reply s)
        (general_node_step sv cx appends s reply h)
        (general_edge sv cx appends (drafted sv reply s))
      ∙ rw (worker_statuses s) refl

  final_round :
      (limit : ℕ) (s : GraphState) (reply : Message)
      → cx.llm.ainvoke (prompt sv cx appends s) ≡ ok reply
      → stops sv cx appends s reply ≡ true
      → chunks_of (suc (suc limit)) general_node s ≡ loop_chunks 0
  unfolding loop_chunks verdict_of
  final_round limit s reply h stop =
      let passed : verdict_of s reply ≡ pass_verdict = (text_eq_iff _ _).0 stop in
      draft_chunks (suc limit) s reply h
      ∙ ap (λ cs. updates general_node ∷ cs)
          (last_chunks limit critic_node (drafted sv reply s) (graded sv reply s)
              (critic_node_step sv cx appends s reply)
              (rw (critic_edge sv cx appends s reply) (rw stop refl))
            ∙ rw (critic_statuses s reply) (rw passed refl))

  rejected_verdict :
      (s : GraphState) (reply : Message)
      → stops sv cx appends s reply ≡ false
      → verdict_of s reply ≡ stub_verdict
  unfolding verdict_of verdict
  rejected_verdict s reply again = ground (arith, text_eq_refl pass_verdict)

  rejected_round :
      (limit : ℕ) (s : GraphState) (reply : Message)
      → cx.llm.ainvoke (prompt sv cx appends s) ≡ ok reply
      → stops sv cx appends s reply ≡ false
      → chunks_of (suc (suc limit)) general_node s
        ≡ round_chunks stub_verdict ++ chunks_of limit general_node (graded sv reply s)
  unfolding verdict_of
  rejected_round limit s reply h again =
      draft_chunks (suc limit) s reply h
      ∙ ap (λ cs. updates general_node ∷ cs)
          (step_chunks limit critic_node general_node (drafted sv reply s) (graded sv reply s)
              (critic_node_step sv cx appends s reply)
              (rw (critic_edge sv cx appends s reply) (rw again refl))
            ∙ rw (critic_statuses s reply) (rw (rejected_verdict s reply again) refl))

  -- `k` more rounds than one are left until the limit.
  loop :
      Replies cx.llm
      → (k limit : ℕ) (s : GraphState) → general_revision_limit ≤ get_or s.revision_count 0 + suc k
      → 2 * suc k ≤ limit
      → (n : ℕ) × (n ≤ k) × (chunks_of limit general_node s ≡ loop_chunks n)
  unfolding loop_chunks
  loop replies k zero s near room = absurd (omega arith)
  loop replies k (suc zero) s near room = absurd (omega arith)
  loop replies zero (suc (suc limit)) s near room =
      let (reply, h) = replies (prompt sv cx appends s) in
      (
        0,
        omega arith,
        final_round limit s reply h (verdict_at_limit sv cx appends reply.content _ near),
      )
  loop replies (suc k) (suc (suc limit)) s near room =
      let (reply, h) = replies (prompt sv cx appends s) in
      elim (Bool-cases (stops sv cx appends s reply)) [
        | inl stop ↦ (0, omega arith, final_round limit s reply h stop)
        | inr again ↦
            let counted = ap (λ o. get_or o 0) (count_of_graded sv cx appends s reply) in
            let (n, most, same) =
              loop replies k limit (graded sv reply s) (omega (arith, counted)) (omega arith) in
            (
              suc n,
              omega arith,
              rejected_round limit s reply h again
                  ∙ ap (λ cs. round_chunks stub_verdict ++ cs) same,
            )
      ]

  -- What a general question streams on a thread without drafts, if its retrieval of facts does not
  -- raise, the model answers every call, new messages are appended and the recursion limit is at least
  -- 8: the route, the router and the retriever, at most two rejected drafts, and the draft that passes.
  pub general_run_streams :
      Replies cx.llm
      → (s t : GraphState) (m : Message) (limit : ℕ) → get_last? s.messages ≡ some m
      → classify (sv.lower m.content) ≡ general
      → s.revision_count ≡ none
      → run_node sv cx memory_retriever (routed_state sv cx m s) ≡ ok t
      → 8 ≤ limit
      → (n : ℕ) × (n ≤ 2)
        × ((st.astream (workflow sv cx) (statuses sv cx) limit router s).0
            ≡ custom (codes "routed to general")
              ∷ updates router
              ∷ updates memory_retriever
              ∷ loop_chunks n)
  general_run_streams replies s t m zero last route fresh found room = absurd (omega arith)
  general_run_streams replies s t m (suc zero) last route fresh found room = absurd (omega arith)
  general_run_streams replies s t m (suc (suc limit)) last route fresh found room =
      let kept = memory_retriever_keeps sv cx (routed_state sv cx m s) t found in
      let counted : t.revision_count ≡ none = kept.1 ∙ count_of_routed sv cx s m ∙ fresh in
      let none_yet : get_or t.revision_count 0 ≡ 0 = ap (λ o. get_or o 0) counted in
      let routed = kept.0 ∙ route_of_routed sv cx s m ∙ ap some route in
      let (n, most, same) = loop replies 2 limit t (omega (arith, none_yet)) (omega arith) in
      (
        n,
        most,
        step_chunks (suc limit) router memory_retriever s (routed_state sv cx m s)
              (router_step sv cx s m last) (router_edge sv cx (routed_state sv cx m s))
            ∙ rw (router_statuses s m last) (
                rw route (
                  ap (λ cs. custom (codes "routed to general") ∷ updates router ∷ cs)
                    (step_chunks limit memory_retriever general_node (routed_state sv cx m s) t
                        found (memory_retriever_edge sv cx t general routed)
                      ∙ rw (retriever_statuses (routed_state sv cx m s))
                          (ap (λ cs. updates memory_retriever ∷ cs) same)))),
      )
