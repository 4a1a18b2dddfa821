-- ===== src/Tests/Tools.antt =====
-- A tool whose arguments pydantic rejects, and loads of the tools.
use agentic_enterprise.Base.{
  ◌≡◌, refl, ◌⊎◌, inr, Bool, true, false, none, some, List, [], ◌∷◌, ◌++◌, map, get_last?, All,
  Text, codes, text_eq, contains, elem, failure, Result, err, ok,
}
use agentic_enterprise.Messages.{
  human, ai, tool, system, ToolCall, Message, human_message, tool_message,
}
use agentic_enterprise.Memory.{matches, search_in, search}
use agentic_enterprise.Ownership.{is_admin, owned_thread_ids}
use agentic_enterprise.Graph.State.{technical, GraphState, reduce, RuntimeContext, initial_state}
use agentic_enterprise.Graph.Router.{technical_words, mentions, classify}
use agentic_enterprise.Graph.Retriever.{
  pack, allowed_threads, visible_hits, retrieve_semantic_memories,
}
use agentic_enterprise.Graph.Workers.{agent_model, with_facts}
use agentic_enterprise.Main.Errors.{digits}
use agentic_enterprise.Graph.Engine.{router, memory_retriever, Services, act, run_node, workflow}
use agentic_enterprise.Graph.Dispatch.{routed_state}
use agentic_enterprise.Graph.Tools.{
  tools_with, load_tools, all_get_tools, key, index, FieldError, invalid_arguments, other,
  ToolException, str, join, field_line, cause_of, cause_text, format_tool_error,
}
use agentic_enterprise.Graph.ToolCache.{tools_loaded_once}
use agentic_enterprise.Graph.ToolErrors.{IsPart, bad_fields_are_named}
use agentic_enterprise.Graph.ToolRounds.{answer, AnswersCalls, tool_errors_reach_the_model}
use agentic_enterprise.Tests.Parts.{
  driver, driver-FollowsGraph, ai_message, llm, services, context, start,
}

tools_loaded_once_example :
    all_get_tools
      (err failure ∷ ok (codes "risk" ∷ []) ∷ ok (codes "files" ∷ []) ∷ err failure ∷ [])
      none
    ≡ (
      err failure
          ∷ ok (tools_with (codes "risk" ∷ []))
          ∷ ok (tools_with (codes "risk" ∷ []))
          ∷ ok (tools_with (codes "risk" ∷ []))
          ∷ [],
      some (tools_with (codes "risk" ∷ [])),
    )
unfolding load_tools
tools_loaded_once_example =
    tools_loaded_once (err failure ∷ []) (ok (codes "files" ∷ []) ∷ err failure ∷ [])
      (codes "risk" ∷ []) ((failure, refl), tt)

abbrev bad_field : FieldError
bad_field = record { loc = key (codes "items") ∷ index 12 ∷ []; msg = codes "must be positive" }

abbrev bad_call : ToolException
bad_call = record {
  itself = other (codes "ToolInvocationError");
  source = some (invalid_arguments (bad_field ∷ []));
}

bad_fields_are_named_example :
    All (λ e. IsPart (field_line e) (format_tool_error bad_call)) (bad_field ∷ [])
unfolding cause_of
bad_fields_are_named_example = bad_fields_are_named bad_call (bad_field ∷ []) refl

text_of_bad_call :
    format_tool_error bad_call
    ≡ codes "Invalid arguments: items.12: must be positive. Fix them and call the tool again."
unfolding format_tool_error cause_of cause_text field_line join str digits
text_of_bad_call = refl

abbrev wanted : ToolCall
wanted = record { name = codes "get_weather"; args = [] }

abbrev asking : Message
asking = record (ai_message []) { tool_calls = wanted ∷ [] }

abbrev fails : ToolCall → Text ⊎ ToolException
fails c = inr bad_call

abbrev is_asking : Message → Bool
is_asking m = elim m.tool_calls [ [] ↦ false | c ∷ cs ↦ true ]

-- The tools node and tools_condition over a tool that always fails.
abbrev failing : Services
failing = record services {
  run_tools = λ ms. elim (get_last? ms) [
    | none ↦ err failure
    | some m ↦ ok (map (λ c. answer (fails c)) m.tool_calls)
  ];
  tools_condition = λ ms. elim (get_last? ms) [ none ↦ false | some m ↦ is_asking m ];
}

failing-AnswersCalls : AnswersCalls failing fails
failing-AnswersCalls = record {
  answers = λ ms m last. rw (failing, last) refl;
  goes_on = λ ms m c cs last calls. rw (failing, last) (rw calls refl);
  ends = λ ms m last calls. rw (failing, last) (rw calls refl);
}

abbrev after_tools : List Message → Result Message
after_tools ms = elim (get_last? ms) [
  | none ↦ err failure
  | some m ↦ elim m.role [
    | human ↦ ok asking
    | ai ↦ err failure
    | tool ↦ ok (ai_message m.content)
    | system ↦ err failure
  ]
]

-- A model that asks for the tool, and reports what it is told.
abbrev caller : RuntimeContext
caller = record context { tool_llm = some (record llm { ainvoke = after_tools }) }

abbrev question : Message
question = human_message (codes "deploy")

abbrev asked_state : GraphState
asked_state = initial_state (question ∷ [])

abbrev or_start : Result GraphState → GraphState
or_start (ok t) = t
or_start (err e) = start

abbrev retrieved : GraphState
retrieved =
    or_start
      (run_node failing caller memory_retriever (routed_state failing caller question asked_state))

retrieved_is_found :
    run_node failing caller memory_retriever (routed_state failing caller question asked_state)
    ≡ ok retrieved
unfolding run_node act routed_state reduce initial_state retrieve_semantic_memories visible_hits
    search search_in pack is_admin owned_thread_ids allowed_threads matches text_eq elem
retrieved_is_found = refl

is_technical : classify (failing.lower question.content) ≡ technical
unfolding classify mentions technical_words contains
is_technical = refl

abbrev reply : Message
reply = ai_message (format_tool_error bad_call)

tool_errors_reach_the_model_example :
    (s' : GraphState) × (driver.run (workflow failing caller) 9 router asked_state ≡ ok s')
    × (s'.messages
        ≡ retrieved.messages
          ++ asking ∷ []
          ++ tool_message (format_tool_error bad_call) ∷ []
          ++ reply ∷ [])
unfolding agent_model with_facts initial_state run_node act retrieve_semantic_memories routed_state
    reduce visible_hits text_eq search owned_thread_ids pack matches elem
tool_errors_reach_the_model_example =
    tool_errors_reach_the_model failing caller (λ old new. refl) driver driver-FollowsGraph fails
      failing-AnswersCalls asked_state retrieved question asking reply wanted [] 3 refl is_technical
      retrieved_is_found refl refl refl refl
