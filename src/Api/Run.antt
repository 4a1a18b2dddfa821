-- ===== src/Api/Run.antt =====
-- app/api/v1/endpoints.py: POST /run and POST /run/stream, a run of the graph and its row.
use agentic_enterprise.Base.{
  none, some, List, [], ◌∷◌, ◌++◌, Text, Details, Exception, graph_recursion_error,
  max_recursion_error, agentic_exception, Result, ok, err, ◌>>=◌,
}
use agentic_enterprise.Schemas.{AgentRequest}
use agentic_enterprise.Database.{ExecutionStatus, running, completed, failed, Db, Session, get_db}
use agentic_enterprise.Graph.State.{GraphState, RuntimeContext}
use agentic_enterprise.Messages.{human_message}
use agentic_enterprise.Graph.Engine.{Node, workflow}
use agentic_enterprise.Graph.Events.{statuses, Chunk, custom, updates, Streamer}
use agentic_enterprise.History.{RunnableConfig}
use agentic_enterprise.Api.{
  App, AgentResponse, default_recursion_limit, with_input, full_context, run_with_message,
  agent_response, last_content,
}

-- payload.conversation_id or str(payload.request_id)
unfoldable pub run_thread : AgentRequest → Text
run_thread payload = elim payload.conversation_id [
  | none ↦ payload.request_id
  | some id ↦ elim id [ [] ↦ payload.request_id | c ∷ rest ↦ c ∷ rest ]
]

unfoldable pub run_config : AgentRequest → RunnableConfig
unfolding run_thread
run_config payload = record { thread_id = run_thread payload; checkpoint_id = none }

-- db.add(execution), with the status that the row has in the end.
unfoldable pub add_execution : AgentRequest → ExecutionStatus → Db → Db
add_execution payload status db = record db {
  executions =
      db.executions
      ++ record { request_id = payload.request_id; agent_id = payload.agent_id; status = status }
        ∷ [];
}

-- The `except` clauses: the exception that leaves the handler, and the status of the row.
unfoldable pub raised : Text → Exception → Exception × ExecutionStatus
raised agent graph_recursion_error = (max_recursion_error (some (Details.agent_id agent)), failed)
raised agent (max_recursion_error details) = (max_recursion_error details, failed)
raised agent agentic_exception = (agentic_exception, failed)
raised agent e = (e, running)

module _ (app : App) where
  unfoldable pub respond : AgentRequest → GraphState → Result AgentResponse
  unfolding last_content agent_response
  respond payload s = do output ← last_content s; agent_response app payload.request_id output

  -- After the run: the response, or the `except` clauses.
  unfoldable pub finish_run : AgentRequest → Db → Result GraphState → Result AgentResponse × Db
  unfolding add_execution raised respond
  finish_run payload db (ok s) = (respond payload s, add_execution payload completed db)
  finish_run payload db (err e) =
      let (e', status) = raised payload.agent_id e in (err e', add_execution payload status db)

  unfoldable pub run_agent : Text → AgentRequest → Session AgentResponse
  unfolding finish_run run_config
  run_agent username payload db = finish_run payload db (
      run_with_message app username (run_config payload) payload.task_description
        (add_execution payload running db))

  -- The route: the handler within its database session.
  unfoldable pub run_route : Text → AgentRequest → Session AgentResponse
  run_route username payload = get_db (run_agent username payload)

-- A frame of the response, by its phase; a node frame has the content "step complete".
pub data Frame : Type 0 where
  status_frame : Text → Frame
  node_frame : Node → Frame
  done_frame error_frame : Frame

unfoldable pub frame_of : Chunk → Frame
frame_of (custom status) = status_frame status
frame_of (updates n) = node_frame n

-- `async for`: the chunks of a run until it ends or raises, with the frames that are yielded; then
-- the last frame. The exceptions that the generator does not catch leave it.
unfoldable pub events :
    AgentRequest → List Chunk × Result GraphState → Db → List Frame × Result (Unit {0}) × Db
unfolding frame_of add_execution
events payload ([], ok s) db = (done_frame ∷ [], ok tt, add_execution payload completed db)
events payload ([], err graph_recursion_error) db =
    (error_frame ∷ [], ok tt, add_execution payload failed db)
events payload ([], err e) db = ([], err e, add_execution payload running db)
events payload (chunk ∷ chunks, end) db =
    let (frames, left, db') = events payload (chunks, end) db in
    (frame_of chunk ∷ frames, left, db')

module _ (st : Streamer) (app : App) where
  -- workflow.astream({"messages": [HumanMessage(task)]}, ...): the chunks, and how the run ends.
  unfoldable pub astream_of :
      RuntimeContext → RunnableConfig → Text → List Chunk × Result GraphState
  unfolding with_input
  astream_of context config task =
      let g = workflow app.services context in
      st.astream g (statuses app.services context) default_recursion_limit g.entry
        (with_input app (app.saved config) (human_message task ∷ []))

  -- The chunks that `async for` sees, and how it ends.
  unfoldable pub stream_of : Text → AgentRequest → Db → List Chunk × Result GraphState
  unfolding run_config astream_of
  stream_of username payload db = elim (full_context app username db) [
    | ok context ↦ astream_of context (run_config payload) payload.task_description
    | err e ↦ ([], err e)
  ]

  -- The body of the response to /run/stream.
  unfoldable pub run_agent_stream : Text → AgentRequest → Db → List Frame × Result (Unit {0}) × Db
  unfolding events stream_of
  run_agent_stream username payload db =
      events payload (stream_of username payload (add_execution payload running db)) db
