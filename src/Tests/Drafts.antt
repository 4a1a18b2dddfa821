-- ===== src/Tests/Drafts.antt =====
-- The third question of a conversation.
use agentic_enterprise.Base.{
  ◌≡◌, refl, some, [], ◌∷◌, ◌++◌, arith, codes, text_eq, contains, elem, Result, ok, err,
}
use agentic_enterprise.Messages.{human_message}
use agentic_enterprise.Memory.{matches, search_in, search}
use agentic_enterprise.Ownership.{is_admin, owned_thread_ids}
use agentic_enterprise.Graph.State.{GraphState, reduce, initial_state}
use agentic_enterprise.Graph.Router.{
  technical_words, billing_words, investment_words, mentions, classify,
}
use agentic_enterprise.Graph.Workers.{pass_verdict}
use agentic_enterprise.Graph.Retriever.{
  pack, allowed_threads, visible_hits, retrieve_semantic_memories,
}
use agentic_enterprise.Graph.Engine.{memory_retriever, act, run_node}
use agentic_enterprise.Graph.Dispatch.{routed_state}
use agentic_enterprise.Api.{with_input, full_context, run_with_message}
use agentic_enterprise.Api.Run.{run_config}
use agentic_enterprise.Api.Conversations.{app_at}
use agentic_enterprise.Api.Conversations.Drafts.{later_questions_get_one_draft}
use agentic_enterprise.Tests.Parts.{
  driver-FollowsGraph, ai_message, services, services-Appends, db, context, start, user,
}
use agentic_enterprise.Tests.Routes.{app, payload}
use agentic_enterprise.Tests.Replays.{Threads, saver}

abbrev reviewed : GraphState
reviewed = record start { revision_count = some 2 }

abbrev threads : Threads
threads id = some reviewed

abbrev asked : GraphState
asked = with_input app (some reviewed) (human_message (codes "hello there") ∷ [])

abbrev or_start : Result GraphState → GraphState
or_start (ok t) = t
or_start (err e) = start

abbrev retrieved : GraphState
retrieved = or_start (
    run_node services context memory_retriever
      (routed_state services context (human_message (codes "hello there")) asked))

retrieved_is_found :
    run_node services context memory_retriever
      (routed_state services context (human_message (codes "hello there")) asked)
    ≡ ok retrieved
unfolding run_node act routed_state reduce initial_state with_input retrieve_semantic_memories
    visible_hits search search_in pack is_admin owned_thread_ids allowed_threads matches text_eq
    elem
retrieved_is_found = refl

later_questions_get_one_draft_example :
    (s : GraphState) × (run_with_message
        (app_at saver app threads)
        user
        (run_config payload)
        (codes "hello there")
        db
      ≡ ok s)
    × (s.messages
        ≡ reviewed.messages ++ human_message (codes "hello there") ∷ ai_message (codes "fine") ∷ [])
    × (s.critique ≡ some pass_verdict)
unfolding classify mentions technical_words billing_words investment_words contains full_context
later_questions_get_one_draft_example =
    later_questions_get_one_draft app driver-FollowsGraph services-Appends saver user payload db
      threads reviewed retrieved context (ai_message (codes "fine")) refl (omega arith) refl refl
      retrieved_is_found refl
