-- ===== src/Graph/Revision.antt =====
-- app/graph/engine.py: the loop between general_worker and critic, round by round.
use mathlib.Core.List.{append-nil}
use agentic_enterprise.Base.{
  ℕ, zero, suc, ◌+◌, ◌*◌, ◌≤◌, ◌≡◌, refl, ap, ◌∙◌, inl, inr, Bool, true, some, List, [], ◌∷◌, ◌++◌,
  arith, if◌then◌else◌, Bool-cases, get_last?, get_last?-append, Text, text_eq, text_eq_iff,
  text_eq_refl, Result, ok,
}
use agentic_enterprise.Messages.{Message, ChatModel}
use agentic_enterprise.Graph.State.{
  completed, critiqued, general_attempt, critic_verdict, GraphState, no_update, reduce,
  RuntimeContext,
}
use agentic_enterprise.Graph.Workers.{
  pass_verdict, get_or, fact_lines, note_lines, with_lines, general_worker,
}
use agentic_enterprise.Graph.Critic.{general_revision_limit, verdict, critic}
use agentic_enterprise.Graph.Engine.{
  Node, general_node, critic_node, node, finish, Services, act, next, run_node, workflow, Executor,
  FollowsGraph, ended,
}

-- A model that answers every call.
abbrev pub Replies : ChatModel → Type 0
Replies m = (ms : List Message) → (reply : Message) × (m.ainvoke ms ≡ ok reply)

-- LangGraph's add_messages, for the messages that the nodes make: each has a new id.
abbrev pub Appends : Services → Type 0
Appends sv = (old new : List Message) → sv.add_messages old new ≡ old ++ new

-- The state after a draft, and after its grading.
pub drafted : Services → Message → GraphState → GraphState
drafted sv reply s =
    let count = get_or s.revision_count 0 in
    reduce sv.add_messages s (record no_update {
      messages = reply ∷ [];
      status = some completed;
      internal_logs = general_attempt (count + 1) ∷ [];
      revision_count = some (count + 1);
    })

pub graded : Services → Message → GraphState → GraphState
graded sv reply s =
    let count = get_or s.revision_count 0 + 1 in
    let v = verdict sv.lower reply.content count in
    reduce sv.add_messages (drafted sv reply s) (record no_update {
      critique = some v;
      status = some critiqued;
      internal_logs = critic_verdict count v ∷ [];
    })

module _ (sv : Services) (cx : RuntimeContext) (appends : Appends sv) where
  pub general_node_step :
      (s : GraphState) (reply : Message)
      → cx.llm.ainvoke (
          with_lines
            (fact_lines s.retrieved_context ++ note_lines (get_or s.critique []))
            s.messages)
        ≡ ok reply
      → run_node sv cx general_node s ≡ ok (drafted sv reply s)
  unfolding run_node act general_worker drafted
  general_node_step s reply e = rw e

  pub last_of_draft :
      (s : GraphState) (reply : Message) → get_last? (drafted sv reply s).messages ≡ some reply
  unfolding drafted reduce
  last_of_draft s reply = rw (appends s.messages (reply ∷ [])) (get_last?-append s.messages reply)

  pub count_of_draft :
      (s : GraphState) (reply : Message)
      → (drafted sv reply s).revision_count ≡ some (get_or s.revision_count 0 + 1)
  unfolding drafted reduce
  count_of_draft s reply = refl

  pub critic_node_step :
      (s : GraphState) (reply : Message)
      → run_node sv cx critic_node (drafted sv reply s) ≡ ok (graded sv reply s)
  unfolding run_node act critic graded
  critic_node_step s reply = rw (last_of_draft s reply) (rw (count_of_draft s reply))

  pub critique_of_graded :
      (s : GraphState) (reply : Message)
      → (graded sv reply s).critique
        ≡ some (verdict sv.lower reply.content (get_or s.revision_count 0 + 1))
  unfolding graded reduce
  critique_of_graded s reply = refl

  pub count_of_graded :
      (s : GraphState) (reply : Message)
      → (graded sv reply s).revision_count ≡ some (get_or s.revision_count 0 + 1)
  unfolding graded drafted reduce
  count_of_graded s reply = refl

  abbrev pub stops : GraphState → Message → Bool
  stops s reply =
      text_eq (verdict sv.lower reply.content (get_or s.revision_count 0 + 1)) pass_verdict

  pub critic_edge :
      (s : GraphState) (reply : Message)
      → next sv critic_node (graded sv reply s)
        ≡ ok (if stops s reply then finish else node general_node)
  unfolding next graded reduce
  critic_edge s reply = refl

  pub general_edge : (s : GraphState) → next sv general_node s ≡ ok (node critic_node)
  unfolding next
  general_edge s = refl

  abbrev pub prompt : GraphState → List Message
  prompt s =
      with_lines (fact_lines s.retrieved_context ++ note_lines (get_or s.critique [])) s.messages

  -- What the loop does with a draft: stop on the verdict PASS, else draft again.
  pub draft_round :
      (e : Executor Node GraphState)
      → FollowsGraph e
      → (limit : ℕ) (s : GraphState) (reply : Message) → cx.llm.ainvoke (prompt s) ≡ ok reply
      → e.run (workflow sv cx) (suc (suc limit)) general_node s ≡ (
          if stops s reply
          then ended limit (graded sv reply s)
          else e.run (workflow sv cx) limit general_node (graded sv reply s))
  unfolding workflow
  draft_round e f limit s reply h = rw (f.one_step (workflow sv cx) (suc limit) general_node s) (
      rw (general_node_step s reply h) (
        rw (general_edge (drafted sv reply s)) (
          rw (f.one_step (workflow sv cx) limit critic_node (drafted sv reply s)) (
            rw (critic_node_step s reply) (
              rw (critic_edge s reply) (elim (Bool-cases (stops s reply)) [
                | inl stop ↦ rw stop
                | inr again ↦ rw again
              ]))))))

  -- The verdict is PASS as soon as the limit is reached.
  pub verdict_at_limit :
      (draft : Text) (count : ℕ)
      → general_revision_limit ≤ count
      → text_eq (verdict sv.lower draft count) pass_verdict ≡ true
  unfolding verdict
  verdict_at_limit draft count h = ground (arith, text_eq_refl pass_verdict)

  pub messages_of_graded :
      (s : GraphState) (reply : Message) → (graded sv reply s).messages ≡ s.messages ++ reply ∷ []
  unfolding graded drafted reduce
  messages_of_graded s reply =
      appends (drafted sv reply s).messages []
      ∙ append-nil (drafted sv reply s).messages
      ∙ appends s.messages (reply ∷ [])

  last_of_graded :
      (s : GraphState) (reply : Message) → get_last? (graded sv reply s).messages ≡ some reply
  unfolding graded reduce
  last_of_graded s reply =
      ap get_last? (appends (drafted sv reply s).messages [] ∙ append-nil _) ∙ last_of_draft s reply

  -- How the loop ends: on the verdict PASS, after how many drafts in all, and with an answer.
  abbrev pub Ends : ℕ → Result GraphState → Type 0
  Ends most r =
      (s' : GraphState) × (r ≡ ok s')
      × (s'.critique ≡ some pass_verdict)
      × ((n : ℕ) × (s'.revision_count ≡ some n) × (n ≤ most))
      × ((answer : Message) × (get_last? s'.messages ≡ some answer))

  graded-Ends :
      (s : GraphState) (reply : Message) (k : ℕ)
      → stops s reply ≡ true
      → Ends (get_or s.revision_count 0 + suc k) (ok (graded sv reply s))
  graded-Ends s reply k stop = (
    graded sv reply s,
    refl,
    critique_of_graded s reply ∙ ap some ((text_eq_iff _ _).0 stop),
    (get_or s.revision_count 0 + 1, count_of_graded s reply, omega arith),
    (reply, last_of_graded s reply),
  )

  -- `k` more rounds than one are left until the limit.
  pub rounds :
      (e : Executor Node GraphState)
      → FollowsGraph e
      → Replies cx.llm
      → (k limit : ℕ) (s : GraphState) → general_revision_limit ≤ get_or s.revision_count 0 + suc k
      → 2 * suc k + 1 ≤ limit
      → Ends (get_or s.revision_count 0 + suc k) (e.run (workflow sv cx) limit general_node s)
  rounds e f replies k zero s near room = absurd (omega arith)
  rounds e f replies k (suc zero) s near room = absurd (omega arith)
  rounds e f replies zero (suc (suc zero)) s near room = absurd (omega arith)
  rounds e f replies (suc k) (suc (suc zero)) s near room = absurd (omega arith)
  rounds e f replies zero (suc (suc (suc limit))) s near room =
      let (reply, h) = replies (prompt s) in
      let stop : stops s reply ≡ true = verdict_at_limit reply.content _ near in
      rw (draft_round e f (suc limit) s reply h) (rw stop (graded-Ends s reply zero stop))
  rounds e f replies (suc k) (suc (suc (suc limit))) s near room =
      let (reply, h) = replies (prompt s) in
      rw (draft_round e f (suc limit) s reply h) (elim (Bool-cases (stops s reply)) [
        | inl stop ↦ rw stop (graded-Ends s reply (suc k) stop)
        | inr again ↦
            let counted = ap (λ o. get_or o 0) (count_of_graded s reply) in
            let (s', ran, passed, (n, total, most), answered) =
              rounds e f replies k (suc limit) (graded sv reply s) (omega (arith, counted))
                (omega arith) in
            rw again (s', ran, passed, (n, total, omega (arith, counted)), answered)
      ])
