-- ===== src/Api/Threads.antt =====
-- app/api/v1/endpoints.py: the routes under /admin/threads/{thread_id}.
use agentic_enterprise.Base.{
  ℕ, Bool, true, false, Option, none, some, List, if◌then◌else◌, length, Text, key_error,
  http_exception, Result, ok, err, ◌>>=◌, ◌>>◌, or_raise,
}
use agentic_enterprise.Database.{Db, Session, lift}
use agentic_enterprise.History.{
  checkpoint_config, Summary, thread_timeline, is_interrupted, Tree, branch_tree, fork_points,
}
use agentic_enterprise.Api.Owned.{owned}
use agentic_enterprise.Api.{
  Values, App, AgentResponse, full_context, run_with_message, agent_response, last_content,
}

pub record ThreadHistory : Type 0 where
  pub interrupted : Bool
  pub checkpoint_count : ℕ
  pub checkpoints : List Summary

pub record Fork : Type 0 where
  pub forked_from : Text
  pub new_checkpoint_id : Text
  pub output : Text

pub record Edit : Type 0 where
  pub edited_from : Text
  pub new_checkpoint_id : Text
  pub values_written : Values

pub record Branches : Type 0 where
  pub checkpoint_count : ℕ
  pub fork_points : List (Option Text × ℕ)
  pub tree : Tree

-- `if not values`
unfoldable pub no_values : Values → Bool
no_values v = elim v.critique [
  | none ↦ elim v.revision_count [ none ↦ true | some n ↦ false ]
  | some c ↦ false
]

module _ (app : App) where
  unfoldable pub thread_history : Text → Text → ℕ → Session ThreadHistory
  thread_history thread_id username limit = owned app thread_id username (λ user. lift (do
    app.build_workflow
    timeline ← thread_timeline app.checkpoints thread_id limit
    interrupted ← is_interrupted app.checkpoints thread_id
    ok (record {
      interrupted = interrupted;
      checkpoint_count = length timeline;
      checkpoints = timeline;
    })))

  -- The run from the nodes that are pending.
  unfoldable pub resumed : Text → Text → Db → Result AgentResponse
  unfolding last_content agent_response
  resumed thread_id username db = do
    context ← full_context app username db
    result ← app.resume context (checkpoint_config thread_id none)
    output ← last_content result
    agent_response app username output

  unfoldable pub resume_thread : Text → Text → Session AgentResponse
  resume_thread thread_id username = owned app thread_id username (λ user db. (
    (do
      app.build_workflow
      interrupted ← is_interrupted app.checkpoints thread_id
      if interrupted then resumed thread_id user db else err (http_exception 404)),
    db,
  ))

  unfoldable pub forked : Text → Text → Text → Text → Db → Result Fork
  unfolding last_content
  forked thread_id username checkpoint_id message db = do
    result ←
        run_with_message app username (checkpoint_config thread_id (some checkpoint_id)) message db
    snapshot ← app.checkpoints.aget_state (checkpoint_config thread_id none)
    new_id ← or_raise snapshot.checkpoint_id key_error
    output ← last_content result
    ok (record { forked_from = checkpoint_id; new_checkpoint_id = new_id; output = output })

  unfoldable pub fork_thread : Text → Text → Text → Text → Session Fork
  fork_thread thread_id username checkpoint_id message =
      owned app thread_id username (λ user db. (forked thread_id user checkpoint_id message db, db))

  -- app/graph/history.py
  unfoldable pub edit_checkpoint : Text → Text → Values → Text → Result (Option Text)
  edit_checkpoint thread_id checkpoint_id values as_node =
      app.aupdate_state (checkpoint_config thread_id (some checkpoint_id)) values as_node

  -- The edit, after the check that there is a value to write.
  unfoldable pub edited : Text → Text → Text → Values → Result Edit
  unfolding no_values edit_checkpoint
  edited thread_id checkpoint_id as_node values =
      if no_values values then err (http_exception 422) else (do
        app.build_workflow
        new_config ← edit_checkpoint thread_id checkpoint_id values as_node
        new_id ← or_raise new_config key_error
        ok (record {
          edited_from = checkpoint_id;
          new_checkpoint_id = new_id;
          values_written = values;
        }))

  unfoldable pub edit_thread_checkpoint : Text → Text → Text → Text → Values → Session Edit
  edit_thread_checkpoint thread_id username checkpoint_id as_node values =
      owned app thread_id username (λ user. lift (edited thread_id checkpoint_id as_node values))

  unfoldable pub thread_branches : Text → Text → ℕ → Session Branches
  thread_branches thread_id username limit = owned app thread_id username (λ user. lift (do
    app.build_workflow
    timeline ← thread_timeline app.checkpoints thread_id limit
    ok (record {
      checkpoint_count = length timeline;
      fork_points = fork_points (branch_tree timeline);
      tree = branch_tree timeline;
    })))
