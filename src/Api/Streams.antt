-- ===== src/Api/Streams.antt =====
-- app/api/v1/endpoints.py: POST /run/stream against POST /run.
use agentic_enterprise.Base.{
  ◌≡◌, ◌≢◌, refl, ap, ◌⊎◌, inl, inr, List, [], ◌∷◌, ◌++◌, map, Text, Exception,
  graph_recursion_error, Result, ok, err, Result-cases,
}
use agentic_enterprise.Schemas.{AgentRequest}
use agentic_enterprise.Messages.{human_message}
use agentic_enterprise.Database.{running, Db}
use agentic_enterprise.Graph.State.{GraphState}
use agentic_enterprise.Graph.Engine.{FollowsGraph, workflow}
use agentic_enterprise.Graph.Events.{statuses, Chunk, Streamer, StreamsGraph}
use agentic_enterprise.Graph.Streams.{stream_ends_as_run}
use agentic_enterprise.Api.{
  App, default_recursion_limit, with_input, full_context, ainvoke, run_with_message,
}
use agentic_enterprise.Api.Run.{
  run_config, add_execution, raised, finish_run, run_agent, Frame, done_frame, error_frame,
  frame_of, events, astream_of, stream_of, run_agent_stream,
}

-- What a stream of the chunks `run` answers, if the run of the graph ends with `r` and POST /run would
-- leave the tables `kept` in its session: a last frame, and the same tables, when the run ends or hits
-- the recursion limit; else the exception, after the frames, and the row with its first status.
abbrev pub Answers :
    AgentRequest
    → Db
    → Db
    → List Chunk
    → Result GraphState
    → List Frame × Result (Unit {0}) × Db
    → Type 0
Answers payload db kept run r (frames, left, db') =
    ((s : GraphState) × (r ≡ ok s)
      × (frames ≡ map frame_of run ++ done_frame ∷ [])
      × (left ≡ ok tt)
      × (db' ≡ kept))
    ⊎ ((r ≡ err graph_recursion_error)
        × (frames ≡ map frame_of run ++ error_frame ∷ [])
        × (left ≡ ok tt)
        × (db' ≡ kept))
    ⊎ ((e : Exception) × (r ≡ err e)
        × (e ≢ graph_recursion_error)
        × (frames ≡ map frame_of run)
        × (left ≡ err e)
        × (db' ≡ add_execution payload running db))

with_frame :
    (payload : AgentRequest) (db kept db' : Db) (c : Chunk) (run : List Chunk)
    (r : Result GraphState) (frames : List Frame) (left : Result (Unit {0}))
    → Answers payload db kept run r (frames, left, db')
    → Answers payload db kept (c ∷ run) r (frame_of c ∷ frames, left, db')
with_frame payload db kept db' c run r frames left (inl (s, e, same, l, d)) =
    inl (s, e, ap (λ fs. frame_of c ∷ fs) same, l, d)
with_frame payload db kept db' c run r frames left (inr (inl (e, same, l, d))) =
    inr (inl (e, ap (λ fs. frame_of c ∷ fs) same, l, d))
with_frame payload db kept db' c run r frames left (inr (inr (x, e, other, same, l, d))) =
    inr (inr (x, e, other, ap (λ fs. frame_of c ∷ fs) same, l, d))

module _ (app : App) where
  at_end :
      (payload : AgentRequest) (db : Db) (r : Result GraphState)
      → Answers payload db (finish_run app payload db r).1 [] r (events payload ([], r) db)
  unfolding events finish_run raised
  at_end payload db (ok s) = inl (s, refl, refl, refl, refl)
  at_end payload db (err graph_recursion_error) = inr (inl (refl, refl, refl, refl))
  at_end payload db (err e) = inr (inr (e, refl, λ same. cc, refl, refl, refl))

  events-Answers :
      (payload : AgentRequest) (run : List Chunk) (r : Result GraphState) (db : Db)
      → Answers payload db (finish_run app payload db r).1 run r (events payload (run, r) db)
  unfolding events
  events-Answers payload [] r db = at_end payload db r
  events-Answers payload (c ∷ run) r db =
      let (frames, left, db') = events payload (run, r) db in
      with_frame payload db _ db' c run r frames left (events-Answers payload run r db)

  module _ (st : Streamer) (streams : StreamsGraph st) (follows : FollowsGraph app.executor) where
    same_end :
        (username : Text) (payload : AgentRequest) (db : Db)
        → (stream_of st app username payload db).1
          ≡ run_with_message app username (run_config payload) payload.task_description db
    unfolding stream_of astream_of run_with_message ainvoke
    same_end username payload db = elim (Result-cases (full_context app username db)) [
      | inl (e, h) ↦ rw (h, stream_of) refl
      | inr (context, h) ↦
          rw (h, stream_of)
            (stream_ends_as_run app.executor follows st streams (workflow app.services context)
              (statuses app.services context) default_recursion_limit
              (workflow app.services context).entry
              (with_input app (app.saved (run_config payload))
                (human_message payload.task_description ∷ [])))
    ]

    -- POST /run/stream mirrors POST /run: it streams the same run of the graph. When that ends or hits
    -- the recursion limit, the frames of its chunks are followed by one last frame, `done` or `error`,
    -- and the session holds what the handler of /run leaves in it; any other exception leaves the
    -- generator after the frames, with the row still on its first status.
    pub stream_mirrors_run :
        (username : Text) (payload : AgentRequest) (db : Db)
        → Answers payload db
            (run_agent app username payload db).1
            (stream_of st app username payload (add_execution payload running db)).0
            (run_with_message app username
              (run_config payload)
              payload.task_description
              (add_execution payload running db))
            (run_agent_stream st app username payload db)
    unfolding run_agent_stream run_agent
    stream_mirrors_run username payload db =
        let (chunks, end) = stream_of st app username payload (add_execution payload running db) in
        rw (← same_end username payload (add_execution payload running db))
          (events-Answers payload chunks end db)
