-- ===== src/Mcp/Client.antt =====
-- app/graph/tools.py: the client of the MCP servers, with app/mcp/auth.py in front of each of them.
pub mod Admission
use agentic_enterprise.Base.{
  Option, none, some, List, [], ◌∷◌, ◌++◌, Text, codes, Dict, lookup, Result, ◌>>=◌, ◌>>◌,
}
use agentic_enterprise.Settings.{Settings}
use agentic_enterprise.Mcp.Bearer.{dispatch}

-- os.environ.get(key, default)
unfoldable pub environ_get : Dict Text → Text → Text → Text
environ_get environ key default = elim (lookup key environ) [ none ↦ default | some value ↦ value ]

-- A server of the client: each is reached over streamable HTTP.
pub record Connection : Type 0 where
  pub name : Text
  pub url : Text
  pub authorization : Text

abbrev pub auth_header : Settings → Text
auth_header settings = codes "Bearer " ++ settings.mcp_auth_token

-- The connections of `_mcp_client`.
unfoldable pub connections : Settings → Dict Text → List Connection
unfolding environ_get
connections settings environ =
    record {
      name = codes "risk";
      url = environ_get environ (codes "MCP_RISK_URL") (codes "http://127.0.0.1:8100/mcp");
      authorization = auth_header settings;
    }
    ∷ record {
      name = codes "filesystem";
      url = environ_get environ (codes "MCP_FS_URL") (codes "http://127.0.0.1:8101/mcp");
      authorization = auth_header settings;
    }
    ∷ record {
      name = codes "finance";
      url = environ_get environ (codes "MCP_FINANCE_URL") (codes "http://127.0.0.1:8103/mcp");
      authorization = auth_header settings;
    }
    ∷ []

-- require_bearer_token(app): the server's answer to a request on a connection, behind its gate.
unfoldable pub require_bearer_token :
    {A : Type 0} → Settings → (Connection → Result A) → Connection → Result A
unfolding dispatch
require_bearer_token settings app connection = do
  dispatch settings (some connection.authorization)
  app connection
