-- ===== src/Mcp/Bearer.antt =====
-- app/mcp/auth.py: the bearer token that every request to an MCP server has to carry.
pub mod Gate
use agentic_enterprise.Base.{
  not, ◌&&◌, Option, none, some, [], ◌++◌, if◌then◌else◌, Text, codes, text_eq, failure,
  http_exception, Result, err, ok,
}
use agentic_enterprise.Settings.{Settings}

unfoldable pub placeholder : Text
placeholder = codes "dev-only-change-me"

unfoldable pub dev : Text
dev = codes "dev"

-- The import of the module: it raises outside the dev environment if the token is still the placeholder.
unfoldable pub import_auth : Settings → Result (Unit {0})
import_auth settings =
    if not (text_eq settings.app_env dev) && text_eq settings.mcp_auth_token placeholder
    then err failure
    else ok tt

unfoldable pub expected : Settings → Text
expected settings = codes "Bearer " ++ settings.mcp_auth_token

-- request.headers.get("Authorization", "")
abbrev pub presented : Option Text → Text
presented none = []
presented (some header) = header

-- `dispatch`, up to `call_next`: compare_digest compares the whole header.
unfoldable pub dispatch : Settings → Option Text → Result (Unit {0})
dispatch settings header =
    if text_eq (presented header) (expected settings) then ok tt else err (http_exception 401)
