-- ===== src/Tests/Clients.antt =====
-- The client of the MCP servers.
use agentic_enterprise.Base.{
  ◌≡◌, ◌≢◌, refl, ◌⊎◌, List, [], ◌∷◌, ◌++◌, All, Text, codes, Result, ok, ◌>>=◌, Raises,
}
use agentic_enterprise.Settings.{Settings, defaults}
use agentic_enterprise.Graph.Tools.{tools_with, load_tools}
use agentic_enterprise.Mcp.Client.{Connection, connections, require_bearer_token}
use agentic_enterprise.Mcp.Client.Admission.{names_of, CollectsTools, tools_need_the_token}

-- One server after the other.
abbrev collect : (Connection → Result (List Text)) → List Connection → Result (List Text)
collect list_tools [] = ok []
collect list_tools (c ∷ cs) = do
  names ← list_tools c
  rest ← collect list_tools cs
  ok (names ++ rest)

collected :
    (list_tools : Connection → Result (List Text)) (names : Connection → List Text)
    (cs : List Connection)
    → All (λ c. list_tools c ≡ ok (names c)) cs
    → collect list_tools cs ≡ ok (names_of names cs)
collected list_tools names [] all = refl
collected list_tools names (c ∷ cs) (h, all) = rw h (rw (collected list_tools names cs all) refl)

collect-CollectsTools : CollectsTools collect
collect-CollectsTools = record {
  collects = collected;
  passes_on = λ list_tools c cs (e, raised). (e, rw raised refl);
}

abbrev other_token : Settings
other_token = record defaults { mcp_auth_token = codes "another" }

abbrev named : Connection → List Text
named c = c.name ∷ []

tools_need_the_token_example :
    let loaded =
      load_tools (
        collect (require_bearer_token defaults (λ c. ok (named c))) (connections other_token [])) in
    ((other_token.mcp_auth_token ≡ defaults.mcp_auth_token)
      × (loaded ≡ ok (tools_with (names_of named (connections other_token [])))))
    ⊎ ((other_token.mcp_auth_token ≢ defaults.mcp_auth_token) × Raises loaded)
tools_need_the_token_example =
    tools_need_the_token defaults other_token collect collect-CollectsTools named []
