-- ===== src/Tests/Runs.antt =====
-- Runs of the graph.
use agentic_enterprise.Base.{
  get_last?, ◌≡◌, refl, true, some, List, arith, All, Text, codes, text_eq, contains, elem, Result,
  ok, err,
}
use agentic_enterprise.Settings.{defaults}
use agentic_enterprise.Messages.{Message, human_message}
use agentic_enterprise.Graph.State.{GraphState, Update, no_update, reduce, initial_state}
use agentic_enterprise.Graph.Router.{
  technical_words, billing_words, investment_words, mentions, classify,
}
use agentic_enterprise.Graph.Retriever.{
  max_context_chars, pack, allowed_threads, visible_hits, retrieve_semantic_memories,
}
use agentic_enterprise.Graph.Engine.{router, memory_retriever, act, run_node, workflow}
use agentic_enterprise.Graph.Budget.{IsLongestPrefix, retrieved_from_owned}
use agentic_enterprise.Graph.Revision.{Ends}
use agentic_enterprise.Graph.Dispatch.{worker, routed_state, run_dispatches}
use agentic_enterprise.Graph.Runs.{general_run-Ends}
use agentic_enterprise.Memory.{MemoryHit, matches, search_in, search}
use agentic_enterprise.Memory.Isolation.{hit_in}
use agentic_enterprise.Ownership.{is_admin, owned_thread_ids}
use agentic_enterprise.Tests.Parts.{
  driver, driver-FollowsGraph, qdrant, qdrant-HonoursFilter, memories, llm-Replies, services,
  services-Appends, db, context, start, user,
}

abbrev pub question : Message
question = human_message (codes "hello there")

abbrev or_start : Result GraphState → GraphState
or_start (ok t) = t
or_start (err e) = start

abbrev pub retrieved : GraphState
retrieved =
    or_start
      (run_node services context memory_retriever (routed_state services context question start))

pub retrieved_is_found :
    run_node services context memory_retriever (routed_state services context question start)
    ≡ ok retrieved
unfolding run_node act routed_state reduce initial_state retrieve_semantic_memories visible_hits
    search search_in pack is_admin owned_thread_ids allowed_threads matches text_eq elem
retrieved_is_found = refl

general_run-Ends_example :
    Ends services context services-Appends 3
      (driver.run (workflow services context) 10 router start)
unfolding classify mentions initial_state technical_words contains billing_words investment_words
general_run-Ends_example =
    general_run-Ends services context driver driver-FollowsGraph services-Appends llm-Replies start
      retrieved question 10 refl refl refl retrieved_is_found (omega arith)

run_dispatches_example :
    driver.run (workflow services context) 10 router start
    ≡ driver.run (workflow services context) 8 (worker (classify (codes "hello there"))) retrieved
unfolding initial_state
run_dispatches_example =
    run_dispatches services context driver driver-FollowsGraph 8 start retrieved question refl
      retrieved_is_found

abbrev no_update_or : Result Update → Update
no_update_or (ok u) = u
no_update_or (err e) = no_update

abbrev found : Update
found = no_update_or (retrieve_semantic_memories defaults qdrant memories context start)

retrieved_from_owned_example :
    (m : Message) × (hits : List MemoryHit) × (texts : List Text) × (get_last? start.messages
      ≡ some m)
    × (search qdrant m.content 2 (some (owned_thread_ids user db)) memories ≡ ok hits)
    × (found.retrieved_context ≡ some texts)
    × All (λ h. hit_in (owned_thread_ids user db) h ≡ true) hits
    × IsLongestPrefix max_context_chars hits texts
unfolding retrieve_semantic_memories visible_hits search search_in pack is_admin owned_thread_ids
    allowed_threads matches initial_state text_eq elem
retrieved_from_owned_example =
    retrieved_from_owned defaults qdrant memories context qdrant-HonoursFilter start found db refl
      refl refl
