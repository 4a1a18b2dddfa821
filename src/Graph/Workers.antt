-- ===== src/Graph/Workers.antt =====
-- The nodes that answer with a model call: `call_model`, `billing_worker`, `general_worker`.
use agentic_enterprise.Base.{
  ◌+◌, Option, none, some, List, [], ◌∷◌, ◌++◌, map, if◌then◌else◌, Text, codes, text_eq, Result,
  ok, ◌>>=◌,
}
use agentic_enterprise.Messages.{Message, system_message, ChatModel}
use agentic_enterprise.Graph.State.{
  completed, agent_done, billing_done, general_attempt, GraphState, Update, no_update,
  RuntimeContext,
}

-- The line that introduces retrieved facts to call_model and billing_worker.
unfoldable pub facts_preamble : Text
facts_preamble =
    codes "The following are past facts recorded in other conversations, "
    ++ codes "not part of the current exchange. Use them only if relevant:"

unfoldable pub general_preamble : Text
general_preamble = codes "Relevant past facts from other conversations:"

unfoldable pub feedback_prefix : Text
feedback_prefix = codes "Address this feedback on your last draft: "

unfoldable pub pass_verdict : Text
pass_verdict = codes "PASS"

-- f"- {fact}"
abbrev pub bullet : Text → Text
bullet fact = codes "- " ++ fact

-- "\n".join(lines)
unfoldable pub join_lines : List Text → Text
join_lines [] = []
join_lines (l ∷ []) = l
join_lines (l ∷ m ∷ ls) = l ++ (10 ∷ join_lines (m ∷ ls))

-- The messages of call_model and billing_worker: a system prompt in front, if there are facts.
unfoldable pub with_facts : Option (List Text) → List Message → List Message
unfolding facts_preamble join_lines
with_facts none messages = messages
with_facts (some []) messages = messages
with_facts (some (f ∷ fs)) messages =
    system_message (facts_preamble ++ (10 ∷ join_lines (map bullet (f ∷ fs)))) ∷ messages

-- runtime.context.tool_llm or runtime.context.llm
unfoldable pub agent_model : RuntimeContext → ChatModel
agent_model context = elim context.tool_llm [ none ↦ context.llm | some m ↦ m ]

unfoldable pub call_model : RuntimeContext → GraphState → Result Update
unfolding with_facts agent_model
call_model context state = do
  let model = agent_model context
  response ← model.ainvoke (with_facts state.retrieved_context state.messages)
  ok (record no_update {
    messages = response ∷ [];
    status = some completed;
    internal_logs = agent_done ∷ [];
  })

unfoldable pub billing_worker : RuntimeContext → GraphState → Result Update
unfolding with_facts
billing_worker context state = do
  let model = context.llm
  response ← model.ainvoke (with_facts state.retrieved_context state.messages)
  ok (record no_update {
    messages = response ∷ [];
    status = some completed;
    internal_logs = billing_done ∷ [];
  })

-- state.get(key, default)
abbrev pub get_or : {A : Type 0} → Option A → A → A
get_or none d = d
get_or (some a) d = a

-- The context lines from retrieved facts.
unfoldable pub fact_lines : Option (List Text) → List Text
unfolding general_preamble
fact_lines none = []
fact_lines (some []) = []
fact_lines (some (f ∷ fs)) = general_preamble ∷ map bullet (f ∷ fs)

-- The context line from the critic's note: none for "" and for "PASS".
unfoldable pub note_lines : Text → List Text
unfolding pass_verdict feedback_prefix
note_lines [] = []
note_lines (c ∷ note) =
    if text_eq (c ∷ note) pass_verdict then [] else (feedback_prefix ++ (c ∷ note)) ∷ []

unfoldable pub with_lines : List Text → List Message → List Message
unfolding join_lines
with_lines [] messages = messages
with_lines (l ∷ ls) messages = system_message (join_lines (l ∷ ls)) ∷ messages

unfoldable pub general_worker : RuntimeContext → GraphState → Result Update
unfolding fact_lines note_lines with_lines
general_worker context state = do
  let model = context.llm
  let count = get_or state.revision_count 0
  let lines = fact_lines state.retrieved_context ++ note_lines (get_or state.critique [])
  response ← model.ainvoke (with_lines lines state.messages)
  ok (record no_update {
    messages = response ∷ [];
    status = some completed;
    internal_logs = general_attempt (count + 1) ∷ [];
    revision_count = some (count + 1);
  })
