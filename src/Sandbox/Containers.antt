-- ===== src/Sandbox/Containers.antt =====
-- app/tools/code_executor.py: the containers that exist before and after a call.
use agentic_enterprise.Base.{
  ℕ, ◌≡◌, refl, ◌∙◌, ◌⊎◌, inl, inr, Option, List, ◌∷◌, Text, ok, ap, Raises, Result-cases,
}
use agentic_enterprise.Database.{error, CodeExecutionEvent}
use agentic_enterprise.Database.Columns.{Postgres, code_execution_row, insert_row}
use agentic_enterprise.Sandbox.{
  as_result, PodmanFailure, Ran, returned, failed, Engine, try_container, run_container,
  execute_sandboxed_code, execute_sandboxed_code_async, event_of,
}

-- What Podman documents of its calls, by the list of the containers that exist: a run that returns
-- adds one, waiting and reading logs change nothing, a forced removal that returns has taken the
-- container away. What a run or a removal that raises leaves behind is not documented.
pub record TracksContainers {P : Type 0} (engine : Engine P) : Type 0 where
  pub live : P → List ℕ
  pub run_adds :
      (code : Text) (p : P) (c : ℕ)
      → (engine.run code p).0 ≡ returned c
      → live (engine.run code p).1 ≡ c ∷ live p
  pub wait_keeps : (c : ℕ) (p : P) → live (engine.wait c p).1 ≡ live p
  pub logs_keeps : (c : ℕ) (p : P) → live (engine.logs c p).1 ≡ live p
  pub remove_takes :
      (c : ℕ) (p : P) (rest : List ℕ)
      → live p ≡ c ∷ rest
      → (engine.remove c p).0 ≡ returned tt
      → live (engine.remove c p).1 ≡ rest

Ran-cases :
    {A : Type 0} (r : Ran A) → ((a : A) × (r ≡ returned a)) ⊎ ((x : PodmanFailure) × (r ≡ failed x))
Ran-cases (returned a) = inl (a, refl)
Ran-cases (failed x) = inr (x, refl)

module _ {P : Type 0} (engine : Engine P) (tracks : TracksContainers engine) where
  open tracks use {live, run_adds, wait_keeps, logs_keeps, remove_takes}

  try_container_keeps : (c : ℕ) (p : P) → live (try_container engine c p).1 ≡ live p
  unfolding try_container
  try_container_keeps c p = elim (Ran-cases (engine.wait c p).0) [
    | inl (n, e) ↦ rw (e, try_container) (logs_keeps c (engine.wait c p).1 ∙ wait_keeps c p)
    | inr (x, e) ↦ rw (e, try_container) (wait_keeps c p)
  ]

  -- The run of the container has raised `x`, or its removal has.
  abbrev pub PodmanFails : Text → P → PodmanFailure → Type 0
  PodmanFails code p x =
      let (started, p') = engine.run code p in
      (started ≡ failed x)
      ⊎ ((c : ℕ) × (started ≡ returned c)
          × ((engine.remove c (try_container engine c p').1).0 ≡ failed x))

  run_container_keeps :
      (code : Text) (p : P)
      → let (result, p') = run_container engine code p in
        (live p' ≡ live p) ⊎ ((x : PodmanFailure) × PodmanFails code p x × (result ≡ failed x))
  unfolding run_container
  run_container_keeps code p = elim (Ran-cases (engine.run code p).0) [
    | inl (c, e) ↦
        let p' = (engine.run code p).1 in
        let p'' = (try_container engine c p').1 in
        elim (Ran-cases (engine.remove c p'').0) [
          | inl (tt, h) ↦ inl (
              rw (e, run_container)
                (remove_takes c p'' (live p) (try_container_keeps c p' ∙ run_adds code p c e) h))
          | inr (x, h) ↦ inr (x, inr (c, e, h), rw (e, run_container) (rw h refl))
        ]
    | inr (x, e) ↦ inr (x, inl e, rw (e, run_container) refl)
  ]

  module _ (str : PodmanFailure → Text) (strip : Text → Text) where
    call_keeps :
        (code : Text) (p : P)
        → let (result, p') = execute_sandboxed_code engine str strip code p in
          (live p' ≡ live p)
          ⊎ ((x : PodmanFailure) × PodmanFails code p x
              × (result ≡ record { output = str x; status = error }))
    unfolding execute_sandboxed_code
    call_keeps code p = elim (run_container_keeps code p) [
      | inl kept ↦ inl kept
      | inr (x, fails, raised) ↦ inr (x, fails, ap (as_result engine str strip) raised)
    ]

    -- When Podman behaves as documented, the containers that exist after a call of the sandbox are
    -- those that existed before it, whatever the code does: also when the wait times out, the exit code
    -- is not 0, the logs cannot be read, or the audit raises. It is so unless the run or the removal of
    -- the container raises; then the tool's result is an error with the text of that exception, if the
    -- audit does not raise.
    pub sandbox_leaves_no_container :
        (thread : Option Text) (code : Text) (p : P) (events : List CodeExecutionEvent)
        (pg : Postgres)
        → let (result, p', events') =
            execute_sandboxed_code_async engine str strip pg thread code p events in
          (live p' ≡ live p)
          ⊎ ((x : PodmanFailure) × PodmanFails code p x
              × ((result ≡ ok (record { output = str x; status = error })) ⊎ Raises result))
    unfolding execute_sandboxed_code_async
    sandbox_leaves_no_container thread code p events pg =
        let (result, p') = execute_sandboxed_code engine str strip code p in
        let row = event_of engine str strip thread code result in
        elim (Result-cases (insert_row pg (code_execution_row pg) row events)) [
          | inl (e, h) ↦
              rw (h, execute_sandboxed_code_async)
                (elim (call_keeps code p) [
                  | inl kept ↦ inl kept
                  | inr (x, fails, told) ↦ inr (x, fails, inr (e, refl))
                ])
          | inr (rows, h) ↦
              rw (h, execute_sandboxed_code_async)
                (elim (call_keeps code p) [
                  | inl kept ↦ inl kept
                  | inr (x, fails, told) ↦ inr (x, fails, inl (ap ok told))
                ])
        ]
