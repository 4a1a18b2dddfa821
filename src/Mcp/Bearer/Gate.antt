-- ===== src/Mcp/Bearer/Gate.antt =====
-- app/mcp/auth.py: the requests that pass.
use agentic_enterprise.Base.{
  ◌≡◌, refl, ◌≢◌, ◌↔◌, ◌⊎◌, false, Option, none, some, [], arith, Text, text_eq, text_eq_iff, ok,
  ◌>>◌,
}
use agentic_enterprise.Settings.{Settings}
use agentic_enterprise.Mcp.Bearer.{placeholder, dev, import_auth, expected, dispatch}

no_header : (settings : Settings) → text_eq [] (expected settings) ≡ false
unfolding expected text_eq
no_header settings = refl

-- A server whose module can be imported lets a request through exactly when its header is "Bearer "
-- with the configured token; a request without the header never gets through.
pub gate_lem :
    (settings : Settings) (header : Option Text)
    → ((import_auth settings >> dispatch settings header) ≡ ok tt) ↔ (
        ((settings.app_env ≡ dev) ⊎ (settings.mcp_auth_token ≢ placeholder))
        × (header ≡ some (expected settings)))
unfolding import_auth dispatch
gate_lem settings none = ground (
  arith,
  no_header settings,
  text_eq_iff settings.app_env dev,
  text_eq_iff settings.mcp_auth_token placeholder,
)
gate_lem settings (some h) = ground (
  arith,
  text_eq_iff settings.app_env dev,
  text_eq_iff settings.mcp_auth_token placeholder,
  text_eq_iff h (expected settings),
)
