-- ===== src/Tests/Routes.antt =====
-- The routes.
use agentic_enterprise.Base.{
  ◌≡◌, refl, false, none, some, List, [], codes, text_eq, attribute_error, failure, http_exception,
  Result, ok, err,
}
use agentic_enterprise.Schemas.{pos, AgentRequest}
use agentic_enterprise.Ownership.{is_admin, owner_of}
use agentic_enterprise.Memory.{MemoryHit}
use agentic_enterprise.Api.{Values, App}
use agentic_enterprise.Api.Run.{run_route}
use agentic_enterprise.Api.Rows.{Recorded, run_route-Recorded}
use agentic_enterprise.Api.Access.{foreign_thread_is_refused}
use agentic_enterprise.Api.Threads.{
  thread_history, resume_thread, fork_thread, edit_thread_checkpoint, thread_branches,
}
use agentic_enterprise.Api.Queries.{analyze_investment}
use agentic_enterprise.Api.Recall.{remember_thread_fact}
use agentic_enterprise.Api.Broken.{analysis_needs_session}
use agentic_enterprise.Tests.Parts.{
  driver, driver-FollowsGraph, llm, services, services-Appends, db, start, user,
}

abbrev pub app : App
app = record {
  services = services;
  build_workflow = ok tt;
  get_sovereign_llm = llm;
  bind_tools = ok llm;
  executor = driver;
  saved = λ config. none;
  resume = λ context config. ok start;
  checkpoints = record {
    aget_state_history = λ config limit. ok [];
    aget_state = λ config. err failure;
  };
  aupdate_state = λ config values node. ok (some (codes "c"));
  is_uuid = λ text. false;
}

abbrev pub payload : AgentRequest
payload = record {
  request_id = codes "r1";
  conversation_id = none;
  task_description = codes "hello there";
  agent_id = codes "a";
  priority = pos 1;
}

run_route-Recorded_example : Recorded payload db (run_route app user payload db)
run_route-Recorded_example = run_route-Recorded app user payload db

abbrev no_values : Values
no_values = record { critique = none; revision_count = none }

foreign_thread_is_refused_example :
    (thread_history app (codes "t2") user 5 db ≡ (err (http_exception 403), db))
    × (resume_thread app (codes "t2") user db ≡ (err (http_exception 403), db))
    × (fork_thread app (codes "t2") user [] [] db ≡ (err (http_exception 403), db))
    × (edit_thread_checkpoint app (codes "t2") user [] [] no_values db
        ≡ (err (http_exception 403), db))
    × (thread_branches app (codes "t2") user 5 db ≡ (err (http_exception 403), db))
    × (remember_thread_fact app [] (codes "t2") user [] db
        ≡ (err (http_exception 403), db, app.services.memories))
unfolding is_admin owner_of text_eq
foreign_thread_is_refused_example =
    foreign_thread_is_refused app (codes "t2") user (codes "third") db refl refl refl 5 [] [] []
      no_values

abbrev or_none : Result (List MemoryHit) → List MemoryHit
or_none (ok hits) = hits
or_none (err e) = []

analysis_needs_session_example :
    analyze_investment app (codes "1") user (codes "AAPL") ≡ err attribute_error
unfolding is_admin text_eq
analysis_needs_session_example =
    analysis_needs_session app driver-FollowsGraph services-Appends (codes "1") user (codes "AAPL")
      refl refl refl
