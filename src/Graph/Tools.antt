-- ===== src/Graph/Tools.antt =====
-- app/graph/tools.py, and format_tool_error of app/graph/engine.py: the tools of the graph, their cached
-- load, and what the model is told of a tool call that raises.
use agentic_enterprise.Base.{
  ℕ, Option, none, some, List, [], ◌∷◌, ◌++◌, map, Text, codes, Dict, lookup, Result, err, ok,
  ◌>>=◌,
}
use agentic_enterprise.Main.Errors.{digits}

-- `known` of get_deployment_status
abbrev pub known : Dict Text
known =
    (codes "agent-api", codes "healthy, v1.4.2")
    ∷ (codes "redis", codes "healthy")
    ∷ (codes "db", codes "healthy")
    ∷ []

unfoldable pub get_deployment_status : Text → Text
get_deployment_status service_name = elim (lookup service_name known) [
  | none ↦ codes "unknown service: " ++ service_name
  | some status ↦ status
]

unfoldable pub get_weather : Text → Text
get_weather city = codes "The weather in " ++ city ++ codes " is 22C and sunny."

-- The local tools, and a tool that an MCP server advertises under a name.
pub data Tool : Type 0 where
  deployment_status_tool sandboxed_code_tool weather_tool market_metrics_tool : Tool
  remote : Text → Tool

-- The list that is bound to the model and given to the tools node.
unfoldable pub tools_with : List Text → List Tool
tools_with names =
    deployment_status_tool
    ∷ sandboxed_code_tool
    ∷ weather_tool
    ∷ market_metrics_tool
    ∷ map remote names

-- `advertised` is what the client's get_tools() returns or raises.
unfoldable pub load_tools : Result (List Text) → Result (List Tool)
load_tools advertised = do names ← advertised; ok (tools_with names)

-- `_tools_cache` after a load: an exception leaves it.
unfoldable pub store_tools :
    Result (List Tool) → Option (List Tool) → Result (List Tool) × Option (List Tool)
store_tools (ok tools) cache = (ok tools, some tools)
store_tools (err e) cache = (err e, cache)

-- A call of get_tools while it holds the lock, with the cache; `advertised` is what the servers would
-- answer at the time.
unfoldable pub get_tools :
    Result (List Text) → Option (List Tool) → Result (List Tool) × Option (List Tool)
unfolding load_tools store_tools
get_tools advertised none = store_tools (load_tools advertised) none
get_tools advertised (some tools) = (ok tools, some tools)

-- The calls in the order in which they get the lock.
unfoldable pub all_get_tools :
    List (Result (List Text)) → Option (List Tool) → List (Result (List Tool)) × Option (List Tool)
unfolding get_tools
all_get_tools [] cache = ([], cache)
all_get_tools (a ∷ advertised) cache =
    let (tools, cache') = get_tools a cache in
    let (rest, last) = all_get_tools advertised cache' in (tools ∷ rest, last)

-- An entry of pydantic's errors(): the parts of `loc` are names and numbers.
pub data LocPart : Type 0 where
  key : Text → LocPart
  index : ℕ → LocPart

pub record FieldError : Type 0 where
  pub loc : List LocPart
  pub msg : Text

-- A ValidationError with its errors(), or another exception with its str().
pub data Cause : Type 0 where
  invalid_arguments : List FieldError → Cause
  other : Text → Cause

-- An exception, with its attribute `source` if it has one.
pub record ToolException : Type 0 where
  pub itself : Cause
  pub source : Option Cause

unfoldable pub str : LocPart → Text
unfolding digits
str (key name) = name
str (index n) = digits n n

-- sep.join(texts)
unfoldable pub join : Text → List Text → Text
join sep [] = []
join sep (t ∷ []) = t
join sep (t ∷ u ∷ ts) = t ++ sep ++ join sep (u ∷ ts)

unfoldable pub field_line : FieldError → Text
unfolding str join
field_line e = join (codes ".") (map str e.loc) ++ codes ": " ++ e.msg

unfoldable pub cause_of : ToolException → Cause
cause_of exc = elim exc.source [ none ↦ exc.itself | some c ↦ c ]

unfoldable pub cause_text : Cause → Text
unfolding field_line join
cause_text (invalid_arguments errors) =
    codes "Invalid arguments: "
    ++ join (codes "; ") (map field_line errors)
    ++ codes ". Fix them and call the tool again."
cause_text (other text) =
    codes "The tool call failed: " ++ text ++ codes ". Fix the problem and try again."

unfoldable pub format_tool_error : ToolException → Text
unfolding cause_of cause_text
format_tool_error exc = cause_text (cause_of exc)
