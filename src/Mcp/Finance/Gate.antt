-- ===== src/Mcp/Finance/Gate.antt =====
-- app/mcp/finance_server.py: when it starts, and which requests it lets through.
use agentic_enterprise.Base.{
  ◌≡◌, refl, ◌≢◌, ◌↔◌, ◌⊎◌, false, Option, none, some, [], arith, Text, text_eq, text_eq_iff, ok,
  ◌>>◌,
}
use agentic_enterprise.Settings.{Settings}
use agentic_enterprise.Mcp.Bearer.{placeholder, dev, import_auth, expected, dispatch}
use agentic_enterprise.Mcp.Finance.{import_finance_server}

no_header : (settings : Settings) → text_eq [] (expected settings) ≡ false
unfolding expected text_eq
no_header settings = refl

-- The finance server lets a request through exactly when its header is "Bearer " with the configured
-- token, and it has started at all: outside the dev environment it starts exactly when neither the
-- token nor the client secret is the placeholder.
pub finance_gate_lem :
    (settings : Settings) (header : Option Text)
    → ((import_finance_server settings >> dispatch settings header) ≡ ok tt) ↔ (
        ((settings.app_env ≡ dev)
          ⊎ (settings.mcp_auth_token ≢ placeholder)
            × (settings.finance_oauth_client_secret ≢ placeholder))
        × (header ≡ some (expected settings)))
unfolding import_finance_server import_auth dispatch
finance_gate_lem settings none = ground (
  arith,
  no_header settings,
  text_eq_iff settings.app_env dev,
  text_eq_iff settings.mcp_auth_token placeholder,
  text_eq_iff settings.finance_oauth_client_secret placeholder,
)
finance_gate_lem settings (some h) = ground (
  arith,
  text_eq_iff settings.app_env dev,
  text_eq_iff settings.mcp_auth_token placeholder,
  text_eq_iff settings.finance_oauth_client_secret placeholder,
  text_eq_iff h (expected settings),
)
