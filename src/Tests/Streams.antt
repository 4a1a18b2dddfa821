-- ===== src/Tests/Streams.antt =====
-- Streamed runs.
use agentic_enterprise.Base.{
  ℕ, zero, suc, ◌≤◌, ◌≡◌, refl, List, [], ◌∷◌, map, arith, Text, codes, contains,
  graph_recursion_error, Result, err,
}
use agentic_enterprise.Database.{running}
use agentic_enterprise.Graph.State.{GraphState, initial_state}
use agentic_enterprise.Graph.Router.{
  technical_words, billing_words, investment_words, mentions, classify,
}
use agentic_enterprise.Graph.Engine.{Node, router, memory_retriever, workflow, CompiledGraph}
use agentic_enterprise.Graph.Events.{
  statuses, Chunk, custom, updates, Streamer, task, after_task, StreamsGraph,
}
use agentic_enterprise.Graph.Traces.{loop_chunks, general_run_streams}
use agentic_enterprise.Api.{run_with_message}
use agentic_enterprise.Api.Run.{run_config, add_execution, run_agent, stream_of, run_agent_stream}
use agentic_enterprise.Api.Streams.{Answers, stream_mirrors_run}
use agentic_enterprise.Tests.Parts.{
  driver-FollowsGraph, llm-Replies, services, services-Appends, db, context, start, user,
}
use agentic_enterprise.Tests.Runs.{question, retrieved, retrieved_is_found}
use agentic_enterprise.Tests.Routes.{app, payload}

unfoldable stream_drive :
    CompiledGraph Node GraphState
    → (Node → GraphState → List Text)
    → ℕ
    → Node
    → GraphState
    → List Chunk × Result GraphState
stream_drive g write zero n s = ([], err graph_recursion_error)
stream_drive g write (suc limit) n s =
    after_task (record { astream = λ g write l m s'. stream_drive g write limit m s' }) g write
      limit n (map custom (write n s)) (task g n s)

abbrev streamer : Streamer
streamer = record { astream = stream_drive }

streamer-StreamsGraph : StreamsGraph streamer
unfolding stream_drive
streamer-StreamsGraph = record {
  at_limit = λ g write n s. refl;
  one_step = λ g write limit n s. refl;
}

general_run_streams_example :
    (n : ℕ) × (n ≤ 2)
    × ((streamer.astream (workflow services context) (statuses services context) 10 router start).0
        ≡ custom (codes "routed to general")
          ∷ updates router
          ∷ updates memory_retriever
          ∷ loop_chunks n)
unfolding classify mentions initial_state technical_words contains billing_words investment_words
general_run_streams_example =
    general_run_streams services context services-Appends streamer streamer-StreamsGraph llm-Replies
      start retrieved question 10 refl refl refl retrieved_is_found (omega arith)

stream_mirrors_run_example :
    Answers payload db
      (run_agent app user payload db).1
      (stream_of streamer app user payload (add_execution payload running db)).0
      (run_with_message app user
        (run_config payload)
        payload.task_description
        (add_execution payload running db))
      (run_agent_stream streamer app user payload db)
stream_mirrors_run_example =
    stream_mirrors_run app streamer streamer-StreamsGraph driver-FollowsGraph user payload db
