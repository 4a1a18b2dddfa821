-- ===== src/Api.antt =====
-- app/api/v1/endpoints.py: what its routes share. The routes stand in the children.
pub mod Owned
pub mod Run
pub mod Queries
pub mod Threads
pub mod Recall
pub mod Rows
pub mod Access
pub mod Analyses
pub mod Broken
pub mod CacheKeys
pub mod Retention
pub mod Claiming
pub mod Streams
pub mod Conversations
use agentic_enterprise.Base.{
  ℕ, Bool, Option, none, some, List, [], ◌∷◌, if◌then◌else◌, get_last?, Text, index_error,
  validation_error, Result, ok, err, ◌>>=◌, ◌>>◌, or_raise,
}
use agentic_enterprise.Schemas.{ℤ}
use agentic_enterprise.Database.{Db}
use agentic_enterprise.Messages.{Message, human_message, ChatModel}
use agentic_enterprise.Graph.State.{GraphState, RuntimeContext, initial_state}
use agentic_enterprise.Graph.Engine.{Node, Services, workflow, Executor}
use agentic_enterprise.History.{RunnableConfig, Checkpoints}

-- The values that an edit may overwrite.
pub record Values : Type 0 where
  pub critique : Option Text
  pub revision_count : Option ℤ

-- What a route calls: the compiled graph (or the error of building it), the chat model and its
-- binding to the tools (or the error of loading them), LangGraph's executor, the checkpointer with
-- the state it has saved for a config, `ainvoke(None, ...)`, which continues an interrupted run,
-- `aupdate_state`, which returns the id of the new checkpoint, and Pydantic's UUID.
pub record App : Type 0 where
  pub services : Services
  pub build_workflow : Result (Unit {0})
  pub get_sovereign_llm : ChatModel
  pub bind_tools : Result ChatModel
  pub executor : Executor Node GraphState
  pub saved : RunnableConfig → Option GraphState
  pub resume : RuntimeContext → RunnableConfig → Result GraphState
  pub checkpoints : Checkpoints
  pub aupdate_state : RunnableConfig → Values → Text → Result (Option Text)
  pub is_uuid : Text → Bool

-- LangGraph's default recursion limit.
abbrev pub default_recursion_limit : ℕ
default_recursion_limit = 25

pub record AgentResponse : Type 0 where
  pub request_id : Text
  pub output : Text

module _ (app : App) where
  -- The state that a run with new messages starts from.
  unfoldable pub with_input : Option GraphState → List Message → GraphState
  with_input none messages = initial_state messages
  with_input (some s) messages = record s {
    messages = app.services.add_messages s.messages messages;
  }

  -- workflow.ainvoke({"messages": messages}, context, config)
  unfoldable pub ainvoke : RuntimeContext → RunnableConfig → List Message → Result GraphState
  unfolding with_input
  ainvoke context config messages =
      let g = workflow app.services context in
      app.executor.run g default_recursion_limit g.entry (with_input (app.saved config) messages)

  -- The models, and the context of a run that has a database session.
  unfoldable pub full_context : Text → Db → Result RuntimeContext
  full_context username db = do
    app.build_workflow
    tool_llm ← app.bind_tools
    ok (record {
      llm = app.get_sovereign_llm;
      tool_llm = some tool_llm;
      db = some db;
      username = username;
    })

  -- A run on a thread, as /run, /ask and the fork start it.
  unfoldable pub run_with_message : Text → RunnableConfig → Text → Db → Result GraphState
  unfolding full_context ainvoke
  run_with_message username config message db = do
    context ← full_context username db
    ainvoke context config (human_message message ∷ [])

  -- AgentResponse(request_id=..., output=..., status="success")
  unfoldable pub agent_response : Text → Text → Result AgentResponse
  agent_response request_id output =
      if app.is_uuid request_id
      then ok (record { request_id = request_id; output = output })
      else err validation_error

-- result["messages"][-1].content
unfoldable pub last_content : GraphState → Result Text
last_content s = do last ← or_raise (get_last? s.messages) index_error; ok last.content
