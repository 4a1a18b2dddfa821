-- ===== src/Messages.antt =====
-- The messages of a conversation and the chat model, as app/graph uses them.
use agentic_enterprise.Base.{List, [], Text, Result}
use agentic_enterprise.Schemas.{InvestmentAnalysis, ResearchReport}

-- BaseMessage.type
pub data Role : Type 0 where
  human ai tool system : Role

pub record ToolCall : Type 0 where
  pub name : Text
  pub args : List (Text × Text)

pub record Message : Type 0 where
  pub role : Role
  pub content : Text
  pub tool_calls : List ToolCall

-- HumanMessage(content), SystemMessage(content)
abbrev pub human_message : Text → Message
human_message content = record { role = human; content = content; tool_calls = [] }

abbrev pub system_message : Text → Message
system_message content = record { role = system; content = content; tool_calls = [] }

-- ToolMessage(content)
abbrev pub tool_message : Text → Message
tool_message content = record { role = tool; content = content; tool_calls = [] }

-- What get_market_metrics returns for a ticker; its other values are constants.
pub record Metrics : Type 0 where
  pub ticker : Text

-- A chat model: an unbound call, the call bound to get_market_metrics, and the calls whose output
-- is held to a schema.
pub record ChatModel : Type 0 where
  pub ainvoke : List Message → Result Message
  pub ainvoke_metrics_tool : List Message → Result Message
  pub ainvoke_analysis : Metrics → Result InvestmentAnalysis
  pub ainvoke_report : Text → Result ResearchReport
