-- ===== src/Graph/ToolCache.antt =====
-- app/graph/tools.py: get_tools over calls that take its lock one after the other.
use agentic_enterprise.Base.{
  ◌≡◌, refl, none, some, List, [], ◌∷◌, ◌++◌, map, All, Text, Result, ok, Raises,
}
use agentic_enterprise.Graph.Tools.{
  Tool, tools_with, load_tools, store_tools, get_tools, all_get_tools,
}

cached_calls :
    (later : List (Result (List Text))) (tools : List Tool)
    → all_get_tools later (some tools) ≡ (map (λ a. ok tools) later, some tools)
unfolding all_get_tools get_tools
cached_calls [] tools = refl
cached_calls (a ∷ later) tools = rw (cached_calls later tools) refl

-- Whatever the servers answer later, the tools are those of the first load that returned: the calls
-- before it, whose loads raise, raise the same; it and every later call get the four local tools with
-- the ones advertised then, and these stay cached.
pub tools_loaded_once :
    (failed later : List (Result (List Text))) (names : List Text)
    → All Raises failed
    → all_get_tools (failed ++ ok names ∷ later) none ≡ (
      map load_tools failed ++ ok (tools_with names) ∷ map (λ a. ok (tools_with names)) later,
      some (tools_with names),
    )
unfolding all_get_tools get_tools load_tools store_tools
tools_loaded_once [] later names raise = rw (cached_calls later (tools_with names)) refl
tools_loaded_once (a ∷ failed) later names ((e, raised), raise) =
    rw (raised, tools_loaded_once failed later names raise) refl
