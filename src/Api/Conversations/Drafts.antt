-- ===== src/Api/Conversations/Drafts.antt =====
-- app/api/v1/endpoints.py and app/graph/engine.py: the drafts of one conversation over several calls of
-- POST /run.
use mathlib.Core.List.{append_assoc}
use agentic_enterprise.Base.{
  ◌≤◌, ◌≡◌, ap, ◌∙◌, some, [], ◌∷◌, ◌++◌, get_last?, get_last?-append, Text, ok,
}
use agentic_enterprise.Schemas.{AgentRequest}
use agentic_enterprise.Database.{Db}
use agentic_enterprise.Messages.{Message, human_message}
use agentic_enterprise.Graph.State.{general, GraphState, RuntimeContext}
use agentic_enterprise.Graph.Router.{classify}
use agentic_enterprise.Graph.Workers.{pass_verdict, get_or}
use agentic_enterprise.Graph.Engine.{FollowsGraph, memory_retriever, run_node, workflow}
use agentic_enterprise.Graph.Revision.{Appends, prompt}
use agentic_enterprise.Graph.Dispatch.{routed_state}
use agentic_enterprise.Graph.Carried.{carried_run}
use agentic_enterprise.Api.{App, with_input, full_context, ainvoke, run_with_message}
use agentic_enterprise.Api.Run.{run_config}
use agentic_enterprise.Api.Conversations.{Saver, app_at}

module _ {T : Type 0} (app : App) (follows : FollowsGraph app.executor)
    (appends : Appends app.services) (saver : Saver T) where
  -- On a conversation that has counted two drafts in its earlier answers, a general question whose
  -- retrieval does not raise gets the model's first draft as its answer, which the critic passes
  -- however short it is: POST /run saves the old messages, the question and this one draft.
  pub later_questions_get_one_draft :
      (username : Text) (payload : AgentRequest) (db : Db) (threads : T) (old t : GraphState)
      (context : RuntimeContext) (reply : Message)
      → saver.saved threads (run_config payload) ≡ some old
      → 2 ≤ get_or old.revision_count 0
      → classify (app.services.lower payload.task_description) ≡ general
      → full_context (app_at saver app threads) username db ≡ ok context
      → run_node app.services context memory_retriever (
          routed_state app.services context
            (human_message payload.task_description)
            (with_input app (some old) (human_message payload.task_description ∷ [])))
        ≡ ok t
      → context.llm.ainvoke (prompt app.services context appends t) ≡ ok reply
      → (s : GraphState) × (run_with_message
            (app_at saver app threads)
            username
            (run_config payload)
            payload.task_description
            db
          ≡ ok s)
        × (s.messages ≡ old.messages ++ human_message payload.task_description ∷ reply ∷ [])
        × (s.critique ≡ some pass_verdict)
  unfolding run_with_message ainvoke run_config with_input workflow
  later_questions_get_one_draft username payload db threads old t context reply saved seen route
        built found answered =
      let m = human_message payload.task_description in
      let asked : app.services.add_messages old.messages (m ∷ []) ≡ old.messages ++ m ∷ [] =
        appends old.messages (m ∷ []) in
      let input = with_input app (some old) (m ∷ []) in
      let last : get_last? input.messages ≡ some m = rw asked (get_last?-append old.messages m) in
      let (s, ran, messages, passed) =
        carried_run app.services context appends app.executor follows input t m reply 20 last route
          seen found answered in
      (
        s,
        rw built (rw saved ran),
        messages
            ∙ ap (λ ms. ms ++ reply ∷ []) asked
            ∙ append_assoc old.messages (m ∷ []) (reply ∷ []),
        passed,
      )
