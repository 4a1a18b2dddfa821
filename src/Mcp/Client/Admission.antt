-- ===== src/Mcp/Client/Admission.antt =====
-- app/graph/tools.py and app/mcp/auth.py: when the servers let the graph's client list their tools.
use agentic_enterprise.Base.{
  ◌≡◌, ◌≢◌, refl, ◌⊎◌, inl, inr, true, false, List, [], ◌∷◌, ◌++◌, All, Bool-cases, Text, text_eq,
  text_eq_iff, Dict, http_exception, Result, ok, Raises,
}
use agentic_enterprise.Settings.{Settings}
use agentic_enterprise.Graph.Tools.{tools_with, load_tools}
use agentic_enterprise.Mcp.Bearer.{expected, dispatch}
use agentic_enterprise.Mcp.Client.{Connection, auth_header, connections, require_bearer_token}

-- The names of all tools, server by server.
abbrev pub names_of : (Connection → List Text) → List Connection → List Text
names_of names [] = []
names_of names (c ∷ cs) = names c ++ names_of names cs

-- What MultiServerMCPClient documents of `get_tools`, given what lists the tools of one connection: it
-- returns those of all servers, and it raises when one of them raises.
pub record CollectsTools
    (get_tools : (Connection → Result (List Text)) → List Connection → Result (List Text))
    : Type 0 where
  pub collects :
      (list_tools : Connection → Result (List Text)) (names : Connection → List Text)
      (cs : List Connection)
      → All (λ c. list_tools c ≡ ok (names c)) cs
      → get_tools list_tools cs ≡ ok (names_of names cs)
  pub passes_on :
      (list_tools : Connection → Result (List Text)) (c : Connection) (cs : List Connection)
      → Raises (list_tools c)
      → Raises (get_tools list_tools (c ∷ cs))

module _ (server client : Settings) where
  same_header :
      text_eq client.mcp_auth_token server.mcp_auth_token ≡ true
      → text_eq (auth_header client) (expected server) ≡ true
  unfolding expected text_eq
  same_header h = h

  other_header :
      text_eq client.mcp_auth_token server.mcp_auth_token ≡ false
      → text_eq (auth_header client) (expected server) ≡ false
  unfolding expected text_eq
  other_header h = h

  admitted :
      {A : Type 0} (app : Connection → Result A) (c : Connection)
      → c.authorization ≡ auth_header client
      → text_eq client.mcp_auth_token server.mcp_auth_token ≡ true
      → require_bearer_token server app c ≡ app c
  unfolding require_bearer_token dispatch
  admitted app c header same = rw header (rw (same_header same) refl)

  refused :
      {A : Type 0} (app : Connection → Result A) (c : Connection)
      → c.authorization ≡ auth_header client
      → text_eq client.mcp_auth_token server.mcp_auth_token ≡ false
      → Raises (require_bearer_token server app c)
  unfolding require_bearer_token dispatch
  refused app c header other = rw header (rw (other_header other) (http_exception 401, refl))

  -- The servers answer behind their gates with the names of their tools. Then the graph has its four own
  -- tools and those of the three servers, if the client's token is the servers'; with another token,
  -- load_tools raises.
  pub tools_need_the_token :
      (get_tools : (Connection → Result (List Text)) → List Connection → Result (List Text))
      → CollectsTools get_tools
      → (names : Connection → List Text) (environ : Dict Text)
      → let loaded = load_tools (
          get_tools
            (require_bearer_token server (λ c. ok (names c)))
            (connections client environ)) in
        ((client.mcp_auth_token ≡ server.mcp_auth_token)
          × (loaded ≡ ok (tools_with (names_of names (connections client environ)))))
        ⊎ ((client.mcp_auth_token ≢ server.mcp_auth_token) × Raises loaded)
  unfolding connections load_tools
  tools_need_the_token get_tools mcp names environ =
      elim (Bool-cases (text_eq client.mcp_auth_token server.mcp_auth_token)) [
        | inl same ↦
            let gate = require_bearer_token server (λ c. ok (names c)) in
            let app : Connection → Result (List Text) = λ c. ok (names c) in
            let let_in : (c : Connection) → c.authorization ≡ auth_header client → gate c ≡ app c =
              λ c header. admitted app c header same in
            let answered : get_tools gate (connections client environ)
                ≡ ok (names_of names (connections client environ)) =
              mcp.collects gate names (connections client environ)
                (let_in _ refl, (let_in _ refl, (let_in _ refl, tt))) in
            inl ((text_eq_iff _ _).0 same, rw answered refl)
        | inr other ↦
            let gate = require_bearer_token server (λ c. ok (names c)) in
            let failed : Raises (get_tools gate (connections client environ)) =
              mcp.passes_on gate _ _ (refused (λ c. ok (names c)) _ refl other) in
            let (e, raised) = failed in
            inr (λ same. let equal = (text_eq_iff _ _).1 same in absurd (cc), (e, rw raised refl))
      ]
