-- ===== src/Research.antt =====
-- app/graph/research.py: the loop of the research graph, agent -> tools -> agent -> report.
pub mod Limits
pub mod Rounds
use agentic_enterprise.Base.{
  Option, some, List, [], ◌∷◌, ◌++◌, Text, codes, index_error, Result, ok, ◌>>=◌, or_raise,
  get_last?,
}
use agentic_enterprise.Schemas.{ResearchReport}
use agentic_enterprise.Messages.{ToolCall, Message, ChatModel}
use agentic_enterprise.Graph.Engine.{Target, node, finish, CompiledGraph}

pub record ResearchState : Type 0 where
  pub messages : List Message
  pub report : Option ResearchReport

pub data ResearchNode : Type 0 where
  agent tools report : ResearchNode

-- `"tools" if last_message.tool_calls else "report"`
unfoldable pub by_tool_calls : List ToolCall → ResearchNode
by_tool_calls [] = report
by_tool_calls (call ∷ calls) = tools

unfoldable pub should_continue : ResearchState → Result ResearchNode
unfolding by_tool_calls
should_continue state = do
  last ← or_raise (get_last? state.messages) index_error
  ok (by_tool_calls last.tool_calls)

-- "\n".join(str(m.content) for m in messages)
unfoldable pub transcript : List Message → Text
transcript [] = []
transcript (m ∷ []) = m.content
transcript (m ∷ n ∷ ms) = m.content ++ b'\n' ∷ transcript (n ∷ ms)

-- The prompt of the report.
unfoldable pub synthesis_prompt : List Message → Text
unfolding transcript
synthesis_prompt messages =
    codes "Synthesize a ResearchReport from this research transcript. confidence must be a "
    ++ codes "fraction between 0.0 and 1.0 (not a percentage, not out of 100):"
    ++ b'\n' ∷ transcript messages

-- The models of a run, and LangGraph's own parts: its reducer of messages and its tool node.
pub record ResearchServices : Type 0 where
  pub llm : ChatModel
  pub tool_llm : ChatModel
  pub add_messages : List Message → List Message → List Message
  pub run_tools : List Message → Result (List Message)

module _ (services : ResearchServices) where
  abbrev pub append : ResearchState → List Message → ResearchState
  append state new = record state { messages = services.add_messages state.messages new }

  unfoldable pub researcher : ResearchState → Result (List Message)
  researcher state = do response ← services.tool_llm.ainvoke state.messages; ok (response ∷ [])

  unfoldable pub generate_research_report : ResearchState → Result ResearchReport
  generate_research_report state = services.llm.ainvoke_report (synthesis_prompt state.messages)

  -- A node's update, merged into the state.
  unfoldable pub research_step : ResearchNode → ResearchState → Result ResearchState
  research_step agent state = do new ← researcher state; ok (append state new)
  research_step tools state = do new ← services.run_tools state.messages; ok (append state new)
  research_step report state = do
    result ← generate_research_report state
    ok (record state { report = some result })

  unfoldable pub research_edge : ResearchNode → ResearchState → Result (Target ResearchNode)
  research_edge agent state = do n ← should_continue state; ok (node n)
  research_edge tools state = ok (node agent)
  research_edge report state = ok finish

  unfoldable pub research_workflow : CompiledGraph ResearchNode ResearchState
  research_workflow = record { entry = agent; step = research_step; edge = research_edge }
