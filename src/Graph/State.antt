-- ===== src/Graph/State.antt =====
-- The state of a run, and the reducers that merge what a node returns into it.
use mathlib.Core.Logic.{ite}
use native.Mathlib.Decide.{ℕ_discrete}
use agentic_enterprise.Base.{
  ℕ, Bool, true, false, not, Option, none, some, List, [], ◌∷◌, ◌++◌, filter, Text,
}
use agentic_enterprise.Schemas.{InvestmentAnalysis}
use agentic_enterprise.Database.{Db}
use agentic_enterprise.Messages.{Message, Metrics, ChatModel}

-- route_to: Literal["technical", "billing", "general", "investment"]
pub data Route : Type 0 where
  technical billing general investment : Route

-- The values that the nodes write to `status`.
pub data Status : Type 0 where
  completed routed critiqued : Status

-- The lines of `internal_logs`, by the values that each is formatted from.
pub data LogLine : Type 0 where
  agent_done memory_done billing_done report_done : LogLine
  router_decided : Route → LogLine
  general_attempt : ℕ → LogLine
  metrics_fetched : Text → LogLine
  critic_verdict : ℕ → Text → LogLine

pub LogLine-discrete : Discrete LogLine
LogLine-discrete = hlevel ℕ_discrete

module _ {A : Type 0} (dec : Discrete A) where
  -- `line in base`
  unfoldable pub is_in : A → List A → Bool
  is_in line [] = false
  is_in line (x ∷ xs) = ite (dec line x) true (is_in line xs)

  unfoldable pub new_lines : List A → List A → List A
  unfolding is_in
  new_lines base update = filter (λ line. not (is_in line base)) update

-- `existing or []`
abbrev pub or_empty : {A : Type 0} → Option (List A) → List A
or_empty none = []
or_empty (some xs) = xs

module _ {A : Type 0} (dec : Discrete A) where
  unfoldable pub merge_logs : Option (List A) → List A → List A
  unfolding new_lines
  merge_logs existing update = or_empty existing ++ new_lines dec (or_empty existing) update

-- A key that no node has written yet is absent.
pub record GraphState : Type 0 where
  pub messages : List Message
  pub status : Option Status
  pub internal_logs : Option (List LogLine)
  pub route_to : Option Route
  pub revision_count : Option ℕ
  pub critique : Option Text
  pub retrieved_context : Option (List Text)
  pub tool_result : Option Metrics
  pub analysis : Option InvestmentAnalysis

-- What a node returns: the keys that it updates.
pub record Update : Type 0 where
  pub messages : List Message
  pub status : Option Status
  pub internal_logs : List LogLine
  pub route_to : Option Route
  pub revision_count : Option ℕ
  pub critique : Option Text
  pub retrieved_context : Option (List Text)
  pub tool_result : Option Metrics
  pub analysis : Option InvestmentAnalysis

abbrev pub no_update : Update
no_update = record {
  messages = [];
  status = none;
  internal_logs = [];
  route_to = none;
  revision_count = none;
  critique = none;
  retrieved_context = none;
  tool_result = none;
  analysis = none;
}

-- A key with no reducer is overwritten.
abbrev pub overwrite : {A : Type 0} → Option A → Option A → Option A
overwrite old none = old
overwrite old (some new) = some new

-- The reducers that `GraphState` declares; `add_messages` is LangGraph's.
unfoldable pub reduce :
    (List Message → List Message → List Message) → GraphState → Update → GraphState
unfolding merge_logs
reduce add_messages s u = record {
  messages = add_messages s.messages u.messages;
  status = overwrite s.status u.status;
  internal_logs = some (merge_logs LogLine-discrete s.internal_logs u.internal_logs);
  route_to = overwrite s.route_to u.route_to;
  revision_count = overwrite s.revision_count u.revision_count;
  critique = overwrite s.critique u.critique;
  retrieved_context = overwrite s.retrieved_context u.retrieved_context;
  tool_result = overwrite s.tool_result u.tool_result;
  analysis = overwrite s.analysis u.analysis;
}

-- The dependencies that a caller injects into a run.
pub record RuntimeContext : Type 0 where
  pub llm : ChatModel
  pub tool_llm : Option ChatModel
  pub db : Option Db
  pub username : Text

-- GraphInput: what a caller passes to a fresh thread.
unfoldable pub initial_state : List Message → GraphState
initial_state messages = record {
  messages = messages;
  status = none;
  internal_logs = none;
  route_to = none;
  revision_count = none;
  critique = none;
  retrieved_context = none;
  tool_result = none;
  analysis = none;
}
