-- ===== src/Api/Rows.antt =====
-- app/api/v1/endpoints.py, run_agent and run_agent_stream: the row of a run, and the frames of its
-- stream.
use agentic_enterprise.Base.{
  ◌≡◌, refl, ap, ◌≢◌, ◌⊎◌, inl, inr, Bool, true, false, List, [], ◌∷◌, ◌++◌, arith, get_last?, All,
  Text, Exception, graph_recursion_error, Result, ok, err,
}
use agentic_enterprise.Schemas.{AgentRequest}
use agentic_enterprise.Database.{running, completed, failed, Db, get_db}
use agentic_enterprise.Graph.State.{GraphState}
use agentic_enterprise.Graph.Events.{Chunk, custom, updates, Streamer}
use agentic_enterprise.Api.{App, AgentResponse, run_with_message, agent_response, last_content}
use agentic_enterprise.Api.Run.{
  run_config, add_execution, raised, respond, finish_run, run_agent, run_route, Frame, status_frame,
  node_frame, done_frame, error_frame, frame_of, events, run_agent_stream,
}

-- What POST /run leaves behind: one more row, with status completed, or nothing.
abbrev pub Recorded : AgentRequest → Db → Result AgentResponse × Db → Type 0
Recorded payload db (ok r, db') = db' ≡ add_execution payload completed db
Recorded payload db (err e, db') = (db' ≡ db) × (e ≢ graph_recursion_error)

raised_lem : (agent : Text) (e : Exception) → (raised agent e).0 ≢ graph_recursion_error
unfolding raised
raised_lem agent e = ground arith

-- The same of a handler that is not yet within its session.
abbrev After : AgentRequest → Db → Result AgentResponse × Db → Type 0
After payload db (ok r, db') = db' ≡ add_execution payload completed db
After payload db (err e, db') = e ≢ graph_recursion_error

close-Recorded :
    (payload : AgentRequest) (db : Db) (p : Result AgentResponse × Db)
    → After payload db p
    → Recorded payload db (elim p.0 [ ok a ↦ (ok a, p.1) | err e ↦ (err e, db) ])
close-Recorded payload db (ok r, d) h = h
close-Recorded payload db (err e, d) h = (refl, h)

completed-After :
    (payload : AgentRequest) (db : Db) (r : Result AgentResponse)
    → ((e : Exception) → r ≡ err e → e ≢ graph_recursion_error)
    → After payload db (r, add_execution payload completed db)
completed-After payload db (ok r) h = refl
completed-After payload db (err e) h = h e refl

module _ (app : App) where
  respond_raises :
      (payload : AgentRequest) (s : GraphState) (e : Exception)
      → respond app payload s ≡ err e
      → e ≢ graph_recursion_error
  unfolding respond last_content agent_response
  respond_raises payload s e h = ground (arith, get_last? s.messages)

  finish_run-After :
      (payload : AgentRequest) (db : Db) (ran : Result GraphState)
      → After payload db (finish_run app payload db ran)
  unfolding finish_run
  finish_run-After payload db (ok s) =
      completed-After payload db (respond app payload s) (respond_raises payload s)
  finish_run-After payload db (err e) = raised_lem payload.agent_id e

  -- A call of POST /run that returns adds one row with status completed; one that raises leaves the
  -- tables as they were, the row of a failed run included, and it never raises LangGraph's own error.
  pub run_route-Recorded :
      (username : Text) (payload : AgentRequest) (db : Db)
      → Recorded payload db (run_route app username payload db)
  unfolding run_route get_db run_agent
  run_route-Recorded username payload db =
      close-Recorded payload db (run_agent app username payload db) (
        finish_run-After payload db (
          run_with_message app username (run_config payload) payload.task_description
            (add_execution payload running db)))

-- A frame that ends the stream.
abbrev is_last : Frame → Bool
is_last (status_frame s) = false
is_last (node_frame n) = false
is_last done_frame = true
is_last error_frame = true

-- How a stream ends that raises nothing: the frames of the run, none of them a last frame, and then
-- the one last frame, with the status of the row that goes with it.
abbrev EndsOnce : AgentRequest → Db → List Frame × Result (Unit {0}) × Db → Type 0
EndsOnce payload db (frames, r, db') =
    (run : List Frame) × All (λ f. is_last f ≡ false) run
    × (((frames ≡ run ++ done_frame ∷ []) × (db' ≡ add_execution payload completed db))
        ⊎ ((frames ≡ run ++ error_frame ∷ []) × (db' ≡ add_execution payload failed db)))

-- How the frames end, after one frame more.
prepend :
    (frame : Frame) (frames run : List Frame) (A B : Type 0)
    → ((frames ≡ run ++ done_frame ∷ []) × A) ⊎ ((frames ≡ run ++ error_frame ∷ []) × B)
    → ((frame ∷ frames ≡ (frame ∷ run) ++ done_frame ∷ []) × A)
      ⊎ ((frame ∷ frames ≡ (frame ∷ run) ++ error_frame ∷ []) × B)
prepend frame frames run A B (inl (e, a)) = inl (ap (λ fs. frame ∷ fs) e, a)
prepend frame frames run A B (inr (e, b)) = inr (ap (λ fs. frame ∷ fs) e, b)

events-EndsOnce :
    (payload : AgentRequest) (chunks : List Chunk) (end : Result GraphState) (db : Db)
    → (events payload (chunks, end) db).1 ≡ ok tt
    → EndsOnce payload db (events payload (chunks, end) db)
unfolding events frame_of
events-EndsOnce payload [] (ok s) db h = ([], tt, inl (refl, refl))
events-EndsOnce payload [] (err graph_recursion_error) db h = ([], tt, inr (refl, refl))
events-EndsOnce payload [] (err e) db h = absurd (ground arith)
events-EndsOnce payload (custom s ∷ chunks) end db h =
    let (run, none_last, ends) = events-EndsOnce payload chunks end db h in
    (status_frame s ∷ run, (refl, none_last), prepend (status_frame s) _ run _ _ ends)
events-EndsOnce payload (updates n ∷ chunks) end db h =
    let (run, none_last, ends) = events-EndsOnce payload chunks end db h in
    (node_frame n ∷ run, (refl, none_last), prepend (node_frame n) _ run _ _ ends)

-- A response of POST /run/stream that raises nothing ends with exactly one last frame, after the frames
-- of the run: `done` when the row has status completed, `error` when it has status failed.
stream_EndsOnce :
    (st : Streamer) (app : App) (username : Text) (payload : AgentRequest) (db : Db)
    → (run_agent_stream st app username payload db).1 ≡ ok tt
    → EndsOnce payload db (run_agent_stream st app username payload db)
unfolding run_agent_stream
stream_EndsOnce st app username payload db = events-EndsOnce payload _ _ db
