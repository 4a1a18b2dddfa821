-- ===== src/Api/Conversations/Replay.antt =====
-- app/api/v1/endpoints.py: what GET /conversations replays after calls of POST /run.
use mathlib.Core.Path.{subst}
use mathlib.Core.List.{append_assoc, append-nil}
use agentic_enterprise.Base.{
  ◌≡◌, refl, sym, ap, ◌∙◌, inl, inr, true, false, Option, none, some, List, [], ◌∷◌, ◌++◌,
  if◌then◌else◌, Bool-cases, Text, text_eq, text_eq_iff, ok, >>=-eq-ok,
}
use agentic_enterprise.Schemas.{AgentRequest}
use agentic_enterprise.Database.{running, Db}
use agentic_enterprise.Messages.{Message, human_message}
use agentic_enterprise.Graph.State.{GraphState, initial_state, RuntimeContext}
use agentic_enterprise.Graph.Engine.{router, workflow, FollowsGraph}
use agentic_enterprise.Graph.Revision.{Appends}
use agentic_enterprise.Graph.Transcript.{Walk, run-Walks}
use agentic_enterprise.History.{StateSnapshot}
use agentic_enterprise.Api.{
  App, default_recursion_limit, with_input, full_context, ainvoke, run_with_message,
}
use agentic_enterprise.Api.Run.{run_thread, run_config, add_execution}
use agentic_enterprise.Api.Queries.{thread, turns, get_conversation}
use agentic_enterprise.Api.Conversations.{Saver, app_at, turn, converse}

abbrev pub messages_of : Option GraphState → List Message
messages_of none = []
messages_of (some s) = s.messages

abbrev pub values_of : Option GraphState → Option (List Message)
values_of none = none
values_of (some s) = some s.messages

-- What LangGraph documents of a checkpointer: a run starts from the last state of its thread, a run that
-- ends saves its state there and nowhere else, and `aget_state` returns the last state of a thread.
pub record KeepsThreads {T : Type 0} (saver : Saver T) : Type 0 where
  pub saves :
      (id other : Text) (s : GraphState) (threads : T)
      → saver.saved (saver.save id s threads) (thread other)
        ≡ (if text_eq id other then some s else saver.saved threads (thread other))
  pub shows :
      (threads : T) (id : Text)
      → (snapshot : StateSnapshot) × (saver.aget_state threads (thread id) ≡ ok snapshot)
        × (snapshot.messages ≡ values_of (saver.saved threads (thread id)))

-- The calls that a thread has got.
unfoldable pub calls_on : Text → List (Text × AgentRequest) → List (Text × AgentRequest)
calls_on id [] = []
calls_on id ((username, payload) ∷ calls) =
    if text_eq (run_thread payload) id
    then (username, payload) ∷ calls_on id calls
    else calls_on id calls

-- The messages of a conversation that goes on from a saved state: for each call, its task, and what the
-- nodes say on a walk through the graph, with the context of the caller, from the state that the thread
-- has then, with the task as a new message, to the state that the next call finds.
abbrev pub Transcript : App → Option GraphState → List (Text × AgentRequest) → List Message → Type 0
Transcript app old [] messages = messages ≡ []
Transcript app old ((username, payload) ∷ calls) messages =
    let task = human_message payload.task_description in
    (db : Db) × (cx : RuntimeContext) × (s : GraphState) × (said : List Message) × (rest : List
      Message)
    × (full_context app username db ≡ ok cx)
    × Walk app.services cx router (with_input app old (task ∷ [])) s said
    × (messages ≡ task ∷ said ++ rest)
    × Transcript app (some s) calls rest

ok_injective : {A : Type 0} {a b : A} → ok a ≡ ok b → a ≡ b
ok_injective e = cc

module _ {T : Type 0} (app : App) (follows : FollowsGraph app.executor)
    (appends : Appends app.services) (saver : Saver T) (keeps : KeepsThreads saver) where
  abbrev last : T → Text → Option GraphState
  last threads id = saver.saved threads (thread id)

  input_messages :
      (old : Option GraphState) (task : Text)
      → (with_input app old (human_message task ∷ [])).messages
        ≡ messages_of old ++ human_message task ∷ []
  unfolding with_input initial_state
  input_messages none task = refl
  input_messages (some s) task = appends s.messages (human_message task ∷ [])

  -- What a run on a thread with the state `old` has gone through when it ends with `s`.
  abbrev Ran : Option GraphState → Text → AgentRequest → GraphState → List Message → Type 0
  Ran old username payload s said =
      let task = human_message payload.task_description in
      (db : Db) × (cx : RuntimeContext) × (full_context app username db ≡ ok cx)
      × Walk app.services cx router (with_input app old (task ∷ [])) s said
      × (s.messages ≡ messages_of old ++ task ∷ said)

  -- The state that a run saves: the messages of its thread, the task, and what the nodes have said.
  run_adds :
      (username : Text) (payload : AgentRequest) (db : Db) (threads : T) (s : GraphState)
      → run_with_message
          (app_at saver app threads)
          username
          (run_config payload)
          payload.task_description
          db
        ≡ ok s
      → (said : List Message) × Ran (last threads (run_thread payload)) username payload s said
  unfolding run_with_message ainvoke run_config full_context with_input workflow
  run_adds username payload db threads s h =
      let (cx, built, ran) = >>=-eq-ok (full_context (app_at saver app threads) username db) _ h in
      let old = last threads (run_thread payload) in
      let task = payload.task_description in
      let (said, walk, same) =
        run-Walks app.services cx appends app.executor follows default_recursion_limit router _ s
          ran in
      let messages =
        same
        ∙ ap (λ ms. ms ++ said) (input_messages old task)
        ∙ append_assoc (messages_of old) (human_message task ∷ []) said in
      (said, (db, cx, built, walk, messages))

  -- What a call does to the messages of a thread whose state before it is `old`, and after it `new_state`.
  abbrev Growth :
      Text × AgentRequest → Text → Option GraphState → Option GraphState → List Message → Type 0
  Growth (username, payload) id old new_state new =
      (calls : List (Text × AgentRequest)) (rest : List Message)
      → Transcript app new_state calls rest
      → Transcript app old
          (if text_eq (run_thread payload) id then (username, payload) ∷ calls else calls)
          (new ++ rest)

  -- Both, for the states of one thread.
  abbrev Grows : Text × AgentRequest → Text → Option GraphState → Option GraphState → Type 0
  Grows call id old new_state =
      (new : List Message) × (messages_of new_state ≡ messages_of old ++ new)
      × Growth call id old new_state new

  adds_here :
      (username : Text) (payload : AgentRequest) (old : Option GraphState) (s : GraphState)
      (id : Text) (said : List Message)
      → text_eq (run_thread payload) id ≡ true
      → Ran old username payload s said
      → Grows (username, payload) id old (some s)
  adds_here username payload old s id said here (db, cx, built, walk, same) = (
    human_message payload.task_description ∷ said,
    same,
    λ calls rest tr. rw here (db, cx, s, said, rest, built, walk, refl, tr),
  )

  adds_elsewhere :
      (username : Text) (payload : AgentRequest) (old : Option GraphState) (id : Text)
      → text_eq (run_thread payload) id ≡ false
      → Grows (username, payload) id old old
  adds_elsewhere username payload old id elsewhere =
      ([], sym (append-nil _), λ calls rest tr. rw elsewhere tr)

  saved_adds :
      (username : Text) (payload : AgentRequest) (threads : T) (s : GraphState) (id : Text)
      (said : List Message)
      → Ran (last threads (run_thread payload)) username payload s said
      → Grows
          (username, payload)
          id
          (last threads id)
          (last (saver.save (run_thread payload) s threads) id)
  saved_adds username payload threads s id said ran =
      elim (Bool-cases (text_eq (run_thread payload) id)) [
        | inl here ↦
            let there : run_thread payload ≡ id = (text_eq_iff _ _).0 here in
            let saved : last (saver.save (run_thread payload) s threads) id ≡ some s =
              keeps.saves (run_thread payload) id s threads ∙ rw here refl in
            rw saved (
              adds_here username payload (last threads id) s id said here
                (subst (λ t. Ran (last threads t) username payload s said) there ran))
        | inr elsewhere ↦
            let saved : last (saver.save (run_thread payload) s threads) id ≡ last threads id =
              keeps.saves (run_thread payload) id s threads ∙ rw elsewhere refl in
            rw saved (adds_elsewhere username payload (last threads id) id elsewhere)
      ]

  -- One call, seen from any thread.
  turn_adds :
      (username : Text) (payload : AgentRequest) (db : Db) (threads : T) (w : Db × T) (id : Text)
      → turn saver app (username, payload) (db, threads) ≡ ok w
      → Grows (username, payload) id (last threads id) (last w.1 id)
  unfolding turn
  turn_adds username payload db threads w id h =
      let (s, ran, left) =
        >>=-eq-ok
          (run_with_message (app_at saver app threads) username (run_config payload)
            payload.task_description (add_execution payload running db))
          _ h in
      let saved : saver.save (run_thread payload) s threads ≡ w.1 =
        ap (λ q. q.1) (ok_injective left) in
      let (said, gone) =
        run_adds username payload (add_execution payload running db) threads s ran in
      subst (λ th. Grows (username, payload) id (last threads id) (last th id)) saved
        (saved_adds username payload threads s id said gone)

  -- Calls, seen from any thread.
  conversation :
      (calls : List (Text × AgentRequest)) (w w' : Db × T) (id : Text)
      → converse saver app calls w ≡ ok w'
      → (new : List Message) × Transcript app (last w.1 id) (calls_on id calls) new
        × (messages_of (last w'.1 id) ≡ messages_of (last w.1 id) ++ new)
  unfolding converse calls_on
  conversation [] w w' id h =
      ([], refl, ap (λ z. messages_of (last z.1 id)) (sym (ok_injective h)) ∙ sym (append-nil _))
  conversation ((username, payload) ∷ calls) (db, threads) w' id h =
      let (w₁, one, others) = >>=-eq-ok (turn saver app (username, payload) (db, threads)) _ h in
      let (new, first, adds) = turn_adds username payload db threads w₁ id one in
      let (more, told, then_) = conversation calls w₁ w' id others in
      (
        new ++ more,
        adds (calls_on id calls) more told,
        then_ ∙ ap (λ ms. ms ++ more) first ∙ append_assoc (messages_of (last threads id)) new more,
      )

  turns_of : (old : Option GraphState) → turns (values_of old) ≡ turns (some (messages_of old))
  unfolding turns
  turns_of none = refl
  turns_of (some s) = refl

  -- After calls of POST /run whose runs have returned, whoever made them and whoever owns the threads,
  -- GET /conversations replays of any thread the messages that it had before, and then, for each call
  -- on it in order, the call's task and what the nodes have said to it: the workers one reply of their
  -- model each, the tools node its answers, and the other nodes nothing, on a walk along the edges of
  -- the graph from the router to END, which starts from the state that the call before has left on this
  -- thread, with the caller's context. The calls on other threads leave no trace in it. It is so if
  -- the graph can be built, new messages are appended, and the checkpointer keeps the last state of
  -- each thread.
  pub conversation_is_replayed :
      app.build_workflow ≡ ok tt
      → (calls : List (Text × AgentRequest)) (w w' : Db × T) (id : Text)
      → converse saver app calls w ≡ ok w'
      → (new : List Message) × Transcript app (last w.1 id) (calls_on id calls) new
        × (get_conversation (app_at saver app w'.1) id
            ≡ ok (turns (some (messages_of (last w.1 id) ++ new))))
  unfolding get_conversation
  conversation_is_replayed built calls w w' id h =
      let (new, told, messages) = conversation calls w w' id h in
      let (snapshot, seen, values) = keeps.shows w'.1 id in
      (
        new,
        told,
        rw (built, seen)
            (ap (λ v. ok (turns v)) values
              ∙ ap ok (turns_of (last w'.1 id))
              ∙ ap (λ ms. ok (turns (some ms))) messages),
      )
