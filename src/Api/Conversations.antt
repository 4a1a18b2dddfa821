-- ===== src/Api/Conversations.antt =====
-- app/api/v1/endpoints.py over the checkpointer: the messages of the threads from one POST /run to the
-- next, and GET /conversations. Proofs are in the children.
pub mod Replay
pub mod Drafts
use agentic_enterprise.Base.{
  Option, none, some, List, [], ◌∷◌, if◌then◌else◌, Text, text_eq, Result, ok, ◌>>=◌,
}
use agentic_enterprise.Schemas.{AgentRequest}
use agentic_enterprise.Database.{running, Db}
use agentic_enterprise.Graph.State.{GraphState}
use agentic_enterprise.History.{RunnableConfig, StateSnapshot, Checkpoints}
use agentic_enterprise.Api.{App, run_with_message}
use agentic_enterprise.Api.Run.{run_thread, run_config, add_execution, run_route}

-- LangGraph's checkpointer with the threads `T` that it keeps: the state that a run on a config starts
-- from, what `aget_state` returns, and the threads after a run on a thread has ended with a state.
pub record Saver (T : Type 0) : Type 0 where
  pub saved : T → RunnableConfig → Option GraphState
  pub aget_state : T → RunnableConfig → Result StateSnapshot
  pub save : Text → GraphState → T → T

module _ {T : Type 0} (saver : Saver T) where
  -- The service at a time at which the checkpointer has `threads`.
  abbrev pub app_at : App → T → App
  app_at app threads = record app {
    saved = saver.saved threads;
    checkpoints = record {
      aget_state_history = app.checkpoints.aget_state_history;
      aget_state = saver.aget_state threads;
    };
  }

  -- POST /run of one user: the run, which reads and writes its thread, and the tables that the route
  -- leaves. A run that raises ends the sequence.
  unfoldable pub turn : App → Text × AgentRequest → Db × T → Result (Db × T)
  unfolding run_config
  turn app (username, payload) (db, threads) = do
    s ←
        run_with_message (app_at app threads) username (run_config payload) payload.task_description
          (add_execution payload running db)
    ok (
      (run_route (app_at app threads) username payload db).1,
      saver.save (run_thread payload) s threads,
    )

  -- Calls of POST /run, one after the other.
  unfoldable pub converse : App → List (Text × AgentRequest) → Db × T → Result (Db × T)
  unfolding turn
  converse app [] w = ok w
  converse app (call ∷ calls) w = do w' ← turn app call w; converse app calls w'
