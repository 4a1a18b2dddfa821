-- ===== src/Tests/Replays.antt =====
-- A conversation of two users, replayed.
use agentic_enterprise.Base.{
  if◌then◌else◌, ◌≡◌, refl, Option, none, some, List, [], ◌∷◌, ◌++◌, Text, codes, Result, ok, err,
  text_eq, contains, starts_with, elem,
}
use agentic_enterprise.Schemas.{AgentRequest}
use agentic_enterprise.Database.{Db, get_db}
use agentic_enterprise.Messages.{Message}
use agentic_enterprise.Graph.State.{GraphState, initial_state, reduce, is_in, merge_logs, new_lines}
use agentic_enterprise.History.{StateSnapshot}
use agentic_enterprise.Api.Queries.{turns, get_conversation}
use agentic_enterprise.Api.Conversations.{Saver, app_at, converse, turn}
use agentic_enterprise.Api.Conversations.Replay.{
  messages_of, values_of, KeepsThreads, Transcript, calls_on, conversation_is_replayed,
}
use agentic_enterprise.Api.{run_with_message, ainvoke, full_context, with_input}
use agentic_enterprise.Graph.Engine.{
  workflow, run_node, act, next, after_critic, after_memory_retriever,
}
use agentic_enterprise.Graph.Router.{
  route_request, billing_words, classify, investment_words, mentions, technical_words,
}
use agentic_enterprise.Graph.Retriever.{
  retrieve_semantic_memories, visible_hits, pack, allowed_threads,
}
use agentic_enterprise.Memory.{search, search_in, matches}
use agentic_enterprise.Ownership.{owned_thread_ids, is_admin}
use agentic_enterprise.Api.Run.{add_execution, run_config, run_thread, run_route, run_agent}
use agentic_enterprise.Graph.Critic.{critic, passes, revised_word, stub_verdict, verdict}
use agentic_enterprise.Graph.Workers.{
  fact_lines, feedback_prefix, general_preamble, general_worker, join_lines, note_lines,
  pass_verdict, with_lines,
}
use agentic_enterprise.Tests.Parts.{driver-FollowsGraph, services-Appends, db, user, drive}
use agentic_enterprise.Tests.Routes.{app, payload}

abbrev snapshot_of : Option (List Message) → StateSnapshot
snapshot_of messages = record {
  checkpoint_id = none;
  parent_config = none;
  next = [];
  messages = messages;
  status = none;
  created_at = none;
  source = none;
  step = none;
}

abbrev pub Threads : Type 0
Threads = Text → Option GraphState

abbrev pub saver : Saver Threads
saver = record {
  saved = λ threads config. threads config.thread_id;
  aget_state = λ threads config. ok (snapshot_of (values_of (threads config.thread_id)));
  save = λ id s threads other. if text_eq id other then some s else threads other;
}

saver-KeepsThreads : KeepsThreads saver
saver-KeepsThreads = record {
  saves = λ id other s threads. refl;
  shows = λ threads id. (snapshot_of (values_of (threads id)), refl, refl);
}

abbrev in_thread : Text → AgentRequest
in_thread task = record payload { conversation_id = some (codes "t1"); task_description = task }

abbrev calls : List (Text × AgentRequest)
calls = (user, in_thread (codes "hello")) ∷ (codes "third", in_thread (codes "well")) ∷ []

abbrev before : Db × Threads
before = (db, λ id. none)

abbrev or_before : Result (Db × Threads) → Db × Threads
or_before (ok w) = w
or_before (err e) = before

conversation_is_replayed_example :
    let w' = or_before (converse saver app calls before) in
    (new : List Message) × Transcript app none (calls_on (codes "t1") calls) new
    × (get_conversation (app_at saver app w'.1) (codes "t1")
        ≡ ok (turns (some (messages_of none ++ new))))
unfolding converse run_with_message drive workflow run_node act route_request initial_state next
    retrieve_semantic_memories reduce visible_hits text_eq search owned_thread_ids add_execution
    pack turn run_config run_thread ainvoke full_context with_input contains starts_with critic
    passes revised_word stub_verdict verdict after_critic after_memory_retriever allowed_threads
    billing_words classify investment_words mentions technical_words is_in merge_logs new_lines
    fact_lines feedback_prefix general_preamble general_worker join_lines note_lines pass_verdict
    with_lines search_in is_admin matches elem run_route get_db run_agent
conversation_is_replayed_example =
    conversation_is_replayed app driver-FollowsGraph services-Appends saver saver-KeepsThreads refl
      calls before (or_before (converse saver app calls before)) (codes "t1") refl
