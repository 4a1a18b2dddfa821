-- ===== src/Sandbox.antt =====
-- app/tools/code_executor.py: a container for a call, and the audit row.
pub mod Containers
pub mod Audit
use agentic_enterprise.Base.{
  ℕ, ◌&&◌, Option, List, leb, ◌==◌, if◌then◌else◌, length, take, Text, Exception, validation_error,
  Result, err, ok,
}
use agentic_enterprise.Database.{Outcome, success, error, CodeExecutionEvent}
use agentic_enterprise.Database.Columns.{Postgres, code_execution_row, insert_row}

abbrev pub max_code_length : ℕ
max_code_length = 4000

-- CodeExecutionInput: 1 to 4000 characters.
unfoldable pub validate_code : Text → Result Text
validate_code code =
    if leb 1 (length code) && leb (length code) max_code_length
    then ok code
    else err validation_error

-- What Podman's client raises: a ContainerError with the exit code and the logs, or another error.
pub data PodmanFailure : Type 0 where
  container_error : ℕ → Text → PodmanFailure
  other_error : Exception → PodmanFailure

pub data Ran {ℓ} (A : Type ℓ) : Type ℓ where
  returned : A → Ran A
  failed : PodmanFailure → Ran A

-- Podman's remote API, over the state `P` of the engine: run(detach=True), wait(timeout=10), logs,
-- remove(force=True). A container is named by a number.
pub record Engine (P : Type 0) : Type 0 where
  pub run : Text → P → Ran ℕ × P
  pub wait : ℕ → P → Ran ℕ × P
  pub logs : ℕ → P → Ran Text × P
  pub remove : ℕ → P → Ran (Unit {0}) × P

pub record ExecutionResult : Type 0 where
  pub output : Text
  pub status : Outcome

module _ {P : Type 0} (engine : Engine P) where
  -- The logs are the result of an exit code 0, and part of the error otherwise.
  abbrev pub by_exit_code : ℕ → Ran Text → Ran Text
  by_exit_code exit_code (returned logs) =
      if exit_code == 0 then returned logs else failed (container_error exit_code logs)
  by_exit_code exit_code (failed e) = failed e

  -- The `try` of `_run_container`.
  unfoldable pub try_container : ℕ → P → Ran Text × P
  try_container container p =
      let (exit_code, p') = engine.wait container p in
      elim exit_code [
        | returned n ↦ let (logs, p'') = engine.logs container p' in (by_exit_code n logs, p'')
        | failed e ↦ (failed e, p')
      ]

  -- An error of the `finally` replaces the result.
  abbrev pub after_finally : Ran Text → Ran (Unit {0}) → Ran Text
  after_finally result (returned u) = result
  after_finally result (failed e) = failed e

  unfoldable pub run_container : Text → P → Ran Text × P
  unfolding try_container
  run_container code p =
      let (container, p') = engine.run code p in
      elim container [
        | returned c ↦
            let (result, p'') = try_container c p' in
            let (removed, p''') = engine.remove c p'' in (after_finally result removed, p''')
        | failed e ↦ (failed e, p')
      ]

  module _ (str : PodmanFailure → Text) (strip : Text → Text) where
    -- Every exception becomes an error result.
    abbrev pub as_result : Ran Text → ExecutionResult
    as_result (returned output) = record { output = strip output; status = success }
    as_result (failed e) = record { output = str e; status = error }

    unfoldable pub execute_sandboxed_code : Text → P → ExecutionResult × P
    unfolding run_container
    execute_sandboxed_code code p =
        let (result, p') = run_container code p in (as_result result, p')

    abbrev pub event_of : Option Text → Text → ExecutionResult → CodeExecutionEvent
    event_of thread_id code result = record {
      thread_id = thread_id;
      code_length = length code;
      outcome = result.status;
      detail = take 512 result.output;
    }

    -- The tool: the call, then its row in `code_execution_events`, with at most 512 characters. An
    -- error of the audit is the tool's.
    unfoldable pub execute_sandboxed_code_async :
        Postgres
        → Option Text
        → Text
        → P
        → List CodeExecutionEvent
        → Result ExecutionResult × P × List CodeExecutionEvent
    unfolding execute_sandboxed_code
    execute_sandboxed_code_async pg thread_id code p events =
        let (result, p') = execute_sandboxed_code code p in
        elim (insert_row pg (code_execution_row pg) (event_of thread_id code result) events) [
          | ok rows ↦ (ok result, p', rows)
          | err e ↦ (err e, p', events)
        ]
