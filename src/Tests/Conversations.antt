-- ===== src/Tests/Conversations.antt =====
-- Conversations that POST /run begins.
use agentic_enterprise.Base.{◌≡◌, refl, none, some, [], codes, text_eq, http_exception, ok, err}
use agentic_enterprise.Ownership.{is_admin, owner_of}
use agentic_enterprise.Api.{App, Values}
use agentic_enterprise.History.{thread_timeline, is_interrupted}
use agentic_enterprise.Api.Run.{run_thread, run_route}
use agentic_enterprise.Api.Threads.{
  thread_history, resume_thread, fork_thread, edit_thread_checkpoint, thread_branches,
}
use agentic_enterprise.Api.Recall.{remember_thread_fact}
use agentic_enterprise.Api.Claiming.{history_of, conversation_goes_to_first_asker}
use agentic_enterprise.Tests.Parts.{db, user}
use agentic_enterprise.Tests.Routes.{app, payload}

-- Threads without checkpoints.
abbrev empty_app : App
empty_app = record app {
  checkpoints = record {
    aget_state_history = λ config limit. ok [];
    aget_state = λ config. ok (record {
      checkpoint_id = none;
      parent_config = none;
      next = [];
      messages = none;
      status = none;
      created_at = none;
      source = none;
      step = none;
    });
  };
}

abbrev no_values : Values
no_values = record { critique = none; revision_count = none }

conversation_goes_to_first_asker_example :
    let t = run_thread payload in
    let db₁ = (run_route empty_app user payload db).1 in
    let (seen, db₂) = thread_history empty_app t (codes "third") 5 db₁ in
    (seen ≡ history_of empty_app t 5)
    × (owner_of t db₂.ownership ≡ some (codes "third"))
    × (thread_history empty_app t user 5 db₂ ≡ (err (http_exception 403), db₂))
    × (resume_thread empty_app t user db₂ ≡ (err (http_exception 403), db₂))
    × (fork_thread empty_app t user (codes "c1") (codes "well") db₂
        ≡ (err (http_exception 403), db₂))
    × (edit_thread_checkpoint empty_app t user (codes "c1") (codes "critic") no_values db₂
        ≡ (err (http_exception 403), db₂))
    × (thread_branches empty_app t user 5 db₂ ≡ (err (http_exception 403), db₂))
    × (remember_thread_fact empty_app (codes "c1") t user (codes "well") db₂
        ≡ (err (http_exception 403), db₂, empty_app.services.memories))
unfolding is_admin owner_of text_eq run_thread thread_timeline is_interrupted
conversation_goes_to_first_asker_example =
    conversation_goes_to_first_asker empty_app payload user (codes "third") db 5 _ (codes "c1")
      (codes "well") (codes "critic") no_values refl refl refl refl refl
