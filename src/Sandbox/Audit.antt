-- ===== src/Sandbox/Audit.antt =====
-- app/tools/code_executor.py: the row of a call.
use agentic_enterprise.Database.{CodeExecutionEvent}
use agentic_enterprise.Database.Columns.{Postgres, code_execution_row}
use agentic_enterprise.Database.Rows.{
  is_storable, is_blank_after, HonoursColumns, insert_row-Raises, insert_row_stores,
  code_execution_row-Raises, code_execution_row_fits, length-take_le,
}
use agentic_enterprise.Sandbox.{
  max_code_length, validate_code, PodmanFailure, Engine, execute_sandboxed_code, event_of,
  execute_sandboxed_code_async,
}
use agentic_enterprise.Base.{
  ◌≤◌, ◌≡◌, refl, true, false, none, some, List, [], ◌∷◌, ◌++◌, arith, length, Text, Exception, err,
  ok,
}

module _ {P : Type 0} (engine : Engine P) (str : PodmanFailure → Text) (strip : Text → Text)
    (pg : Postgres) (honours : HonoursColumns pg) where
  validated_length : (code : Text) → validate_code code ≡ ok code → length code ≤ max_code_length
  unfolding validate_code
  validated_length code h = ground (arith, h)

  -- If the database answers, a validated call on a thread whose id has at most 128 characters is
  -- recorded when the database can store the id and the first 512 characters of the output: the tool
  -- returns what the sandbox returned, and the last row has the thread, the length of the code (at
  -- most 4000), the status, and at most 512 characters of the output.
  pub validated_call_is_recorded :
      (thread code : Text) (p : P) (events : List CodeExecutionEvent)
      → validate_code code ≡ ok code
      → length thread ≤ 128
      → is_storable thread ≡ true
      → pg.outage ≡ none
      → let (result, p') = execute_sandboxed_code engine str strip code p in
        let row = event_of engine str strip (some thread) code result in
        is_storable row.detail ≡ true
        → (execute_sandboxed_code_async engine str strip pg (some thread) code p events
            ≡ (ok result, p', events ++ row ∷ []))
          × (row.code_length ≤ max_code_length)
          × (length row.detail ≤ 512)
  unfolding execute_sandboxed_code_async
  validated_call_is_recorded thread code p events valid short clean up clean' =
      let result = (execute_sandboxed_code engine str strip code p).0 in
      let row = event_of engine str strip (some thread) code result in
      let size = validated_length code valid in
      let detail = length-take_le 512 result.output in
      let fits =
        code_execution_row_fits pg honours row thread refl short clean (omega (arith, size)) detail
          clean' in
      (
        rw
            (
              insert_row_stores pg (code_execution_row pg) row events up fits,
              execute_sandboxed_code_async,
            )
            refl,
        size,
        detail,
      )

  -- A thread id that its column refuses, as one of more than 128 characters that do not end in blanks,
  -- makes every call fail: the code runs, no row is stored, and the tool raises.
  pub long_thread_is_not_recorded :
      (thread code : Text) (p : P) (events : List CodeExecutionEvent)
      → is_blank_after 128 thread ≡ false
      → (e : Exception) × (execute_sandboxed_code_async engine str strip pg
            (some thread)
            code
            p
            events
          ≡ (err e, (execute_sandboxed_code engine str strip code p).1, events))
  unfolding execute_sandboxed_code_async
  long_thread_is_not_recorded thread code p events h =
      let result = (execute_sandboxed_code engine str strip code p).0 in
      let row = event_of engine str strip (some thread) code result in
      let (e, r) =
        insert_row-Raises pg (code_execution_row pg) row events
          (code_execution_row-Raises pg honours row thread refl h) in
      (e, rw (execute_sandboxed_code_async, r) refl)
