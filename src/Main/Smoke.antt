-- ===== src/Main/Smoke.antt =====
-- app/main.py: POST /test/smoke, a run of the graph as the admin without a session.
use agentic_enterprise.Base.{
  ℕ, none, some, [], ◌∷◌, ◌++◌, Text, codes, Exception, timeout_error, http_exception, Result, err,
  ok, ◌>>=◌, ◌>>◌,
}
use agentic_enterprise.Messages.{human_message}
use agentic_enterprise.Graph.State.{GraphState}
use agentic_enterprise.Api.{App, ainvoke, last_content}
use agentic_enterprise.Api.Queries.{thread}

pub record SmokeTestRequest : Type 0 where
  pub test_id : Text
  pub payload : Text

-- SmokeTestResponse, without its latency.
pub record SmokeTestResponse : Type 0 where
  pub test_id : Text
  pub graph_state : Text
  pub llm_response : Text
  pub status : Text

-- asyncio.wait_for(run, timeout=60) gives what the run gives, or raises TimeoutError.
abbrev pub WaitFor : Type 0
WaitFor = Result GraphState → Result GraphState

module _ (app : App) (wait_for : WaitFor) where
  unfoldable pub smoke_run : SmokeTestRequest → Result SmokeTestResponse
  unfolding ainvoke last_content
  smoke_run request = do
    app.build_workflow
    tool_llm ← app.bind_tools
    result ← wait_for (
        ainvoke app
          (record {
            llm = app.get_sovereign_llm;
            tool_llm = some tool_llm;
            db = none;
            username = app.services.settings.demo_username;
          })
          (thread (codes "smoke:" ++ request.test_id)) (human_message request.payload ∷ []))
    output ← last_content result
    ok (record {
      test_id = request.test_id;
      graph_state = codes "COMPLETED";
      llm_response = output;
      status = codes "PASS";
    })

  -- `except TimeoutError`, `except Exception`
  unfoldable pub smoke_status : Exception → ℕ
  smoke_status timeout_error = 504
  smoke_status e = 500

  unfoldable pub run_smoke_test : SmokeTestRequest → Result SmokeTestResponse
  unfolding smoke_run smoke_status
  run_smoke_test request = elim (smoke_run request) [
    | ok response ↦ ok response
    | err e ↦ err (http_exception (smoke_status e))
  ]
