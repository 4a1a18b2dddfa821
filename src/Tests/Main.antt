-- ===== src/Tests/Main.antt =====
-- The application: failures, the smoke test, the retention task, and calls of the ownership check.
use mathlib.Core.List.{Perm}
use agentic_enterprise.Ownership.{owner_of}
use agentic_enterprise.Ownership.Uniqueness.{IsUnique}
use agentic_enterprise.Messages.{Message, human_message}
use agentic_enterprise.Api.{ainvoke}
use agentic_enterprise.Api.Queries.{thread}
use agentic_enterprise.Graph.State.{GraphState}
use agentic_enterprise.Graph.Workers.{pass_verdict}
use agentic_enterprise.Base.{
  ℕ, ◌≡◌, refl, not, some, List, [], ◌∷◌, ◌++◌, length, filter, codes, text_eq, starts_with,
  contains, failure, err, ok, Result, ◌⊎◌, inl, get_last?, timeout_error, http_exception,
}
use agentic_enterprise.Settings.{defaults}
use agentic_enterprise.Gc.{is_stale, find_stale_threads}
use agentic_enterprise.Ownership.Refinement.{
  owners, Call, run_calls, replay, run_calls_refines, claimed, verdict, claims_commute,
}
use agentic_enterprise.Main.Errors.{graph_recursion, other_body, Response}
use agentic_enterprise.Main.Tracing.{Seen, failures_are_traced}
use agentic_enterprise.Main.Startup.{Wake, Task, gc_loop}
use agentic_enterprise.Main.Sweeps.{next_sweep_cleans}
use agentic_enterprise.Tests.Parts.{
  driver-FollowsGraph, services-Appends, llm, llm-Replies, user, db,
}
use agentic_enterprise.Tests.Routes.{app}
use agentic_enterprise.Memory.{MemoryHit, matches, search_in, search}
use agentic_enterprise.Graph.Router.{
  technical_words, billing_words, investment_words, mentions, classify,
}
use agentic_enterprise.Graph.Retriever.{pack}
use agentic_enterprise.Main.Smoke.{SmokeTestRequest, run_smoke_test}
use agentic_enterprise.Main.Ignition.{smoke_context, passed, smoke_test_completes}
use agentic_enterprise.Tests.Tenants.{saver, saver-DeletesThread, checkpoints}

abbrev http_handler : ℕ → Response
http_handler status = record {
  status_code = status;
  headers = [];
  body = other_body (codes "detail");
}

failures_are_traced_example : Seen http_handler (codes "n1") (some (codes "r7")) graph_recursion
failures_are_traced_example =
    failures_are_traced http_handler (λ status. (refl, (codes "detail", refl))) b'n' (codes "1")
      (some (codes "r7")) graph_recursion

-- A sweep whose saver has no connection, then one that works.
abbrev down : Wake
down = record {
  woken = 60;
  saver = record { connection = err failure; adelete_thread = λ t rows. (ok tt, rows) };
  meanwhile = λ rows. rows;
  finished = 60;
}

abbrev up : Wake
up = record { woken = 10_000_000; saver = saver; meanwhile = λ rows. rows; finished = 10_000_001 }

abbrev task : Task
task = record { due = 60; rows = checkpoints; sweeps = [] }

next_sweep_cleans_example :
    let before = gc_loop defaults 21600 (down ∷ []) task in
    let after = gc_loop defaults 21600 (down ∷ up ∷ []) task in
    (length before.sweeps ≡ 1)
    × (after.rows ≡ filter (λ r. not (is_stale 10_000_000 30 before.rows r.thread_id)) before.rows)
    × (after.sweeps
        ≡ before.sweeps
          ++ ok (record {
            deleted = length (find_stale_threads 10_000_000 30 before.rows);
            retention_days = 30;
          })
            ∷ [])
    × (after.due ≡ 10_021_601)
next_sweep_cleans_example = next_sweep_cleans defaults 21600 (down ∷ []) up task saver-DeletesThread

abbrev calls : List Call
calls = (codes "t3", codes "third") ∷ (codes "t3", user) ∷ []

run_calls_refines_example :
    let (verdicts, db') = run_calls defaults calls db in
    let (promised, m) = replay defaults calls (owners db) in
    (verdicts ≡ promised) × (owners db' ≡ m)
run_calls_refines_example = run_calls_refines defaults calls db

claims_commute_example :
    let first = claimed defaults (codes "t3") user db in
    let second = claimed defaults (codes "t4") user db in
    (verdict defaults (codes "t3") user second ≡ verdict defaults (codes "t3") user db)
    × (verdict defaults (codes "t4") user first ≡ verdict defaults (codes "t4") user db)
    × ((claimed defaults (codes "t3") user second).executions ≡ db.executions)
    × ((claimed defaults (codes "t4") user first).executions ≡ db.executions)
    × Perm
        (claimed defaults (codes "t3") user second).ownership
        (claimed defaults (codes "t4") user first).ownership
    × IsUnique (claimed defaults (codes "t3") user second).ownership
    × IsUnique (claimed defaults (codes "t4") user first).ownership
unfolding text_eq owner_of
claims_commute_example =
    claims_commute defaults (codes "t3") user (codes "t4") user db refl (refl, (refl, tt))

abbrev hits : List MemoryHit
hits =
    record { score = 0; text = some (codes "likes tea"); thread_id = some (codes "t1") }
    ∷ record { score = 0; text = some (codes "secret"); thread_id = some (codes "t2") }
    ∷ []

abbrev request : SmokeTestRequest
request = record { test_id = codes "ST-1"; payload = codes "hello there" }

smoke_test_completes_example :
    (s' : GraphState) × (answer : Message) × (ainvoke app
        (smoke_context app (λ run. run) llm)
        (thread (codes "smoke:ST-1"))
        (human_message request.payload ∷ [])
      ≡ ok s')
    × (s'.critique ≡ some pass_verdict)
    × (get_last? s'.messages ≡ some answer)
    × (((Result.ok s' ≡ ok s')
          × (run_smoke_test app (λ run. run) request ≡ ok (passed app (λ run. run) request answer)))
        ⊎ ((Result.ok s' ≡ err timeout_error)
            × (run_smoke_test app (λ run. run) request ≡ err (http_exception 504))))
unfolding classify mentions contains starts_with technical_words billing_words investment_words
    search search_in matches pack
smoke_test_completes_example =
    smoke_test_completes app (λ run. run) driver-FollowsGraph services-Appends llm-Replies request
      llm hits (codes "likes tea" ∷ codes "secret" ∷ []) refl refl refl refl refl refl
      (λ run. inl refl)
