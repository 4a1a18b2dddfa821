-- ===== src/Mcp/Bank.antt =====
-- app/mcp/finance_server.py over app/mcp/oauth.py and internal_api/finance_api.py: the transport of
-- `_call_api` put together from the token cache and the finance API.
pub mod Lookups
use agentic_enterprise.Base.{
  ℕ, ◌+◌, some, ◌++◌, if◌then◌else◌, Text, type_error, http_error, http_exception, Result, err, ok,
  or_raise,
}
use agentic_enterprise.Schemas.{is_slug}
use agentic_enterprise.Mcp.Oauth.{Token, is_stale, store, force_refresh}
use agentic_enterprise.Mcp.FinanceApi.{
  Account, Client, Issued, TokenRequest, issue_token, bearer_prefix, get_balance,
}
use agentic_enterprise.Mcp.Finance.{Response, Transport}

-- The server's cache, the API's tokens, the time, and how many tokens the API has made.
pub record World : Type 0 where
  pub cache : Token
  pub issued : Issued
  pub clock : ℕ
  pub made : ℕ

-- A response of the API over HTTP; `raise_for_status` is the caller's.
unfoldable pub response_of : Result Account → Result Response
response_of (ok account) = ok (record { status_code = 200; json = ok account })
response_of (err (http_exception status)) =
    ok (record { status_code = status; json = err http_error })
response_of (err e) = err e

-- What `_fetch` makes of the answer to its POST, which it has at the time `now`.
unfoldable pub fetched : ℕ → Result (Text × ℕ) × Issued → World → Result Text × World
unfolding store
fetched now (ok answer, issued) w = (
  ok answer.0,
  record w { cache = store now answer w.cache; issued = issued; clock = now; made = w.made + 1 },
)
fetched now (err e, issued) w = (err http_error, record w { issued = issued; clock = now })

-- `uuid4` makes the API's tokens, `answering` and `asking` are the seconds that its answer to a token
-- request and a balance request are on their way, and `elsewhere` is the answer to an account id that
-- the URL does not keep as it is.
module _ (client : Client) (request : TokenRequest) (uuid4 : ℕ → Text) (answering asking : ℕ)
    (elsewhere : Text → Result Response) where
  -- `value()`, called by one coroutine.
  unfoldable pub value : World → Result Text × World
  unfolding fetched is_stale
  value w =
      if is_stale w.clock w.cache
      then fetched (w.clock + answering)
          (issue_token client w.clock (uuid4 w.made) request w.issued) w
      else (or_raise w.cache.access_token type_error, w)

  unfoldable pub get_at : ℕ → Text → Text → World → Result Response × World
  unfolding response_of
  get_at now account_id token w =
      let (answer, issued) = get_balance now account_id (some (bearer_prefix ++ token)) w.issued in
      (response_of answer, record w { issued = issued; clock = now })

  unfoldable pub get : Text → Text → World → Result Response × World
  unfolding get_at
  get account_id token w =
      if is_slug account_id
      then get_at (w.clock + asking) account_id token w
      else (elsewhere account_id, record w { clock = w.clock + asking })

  unfoldable pub refresh : World → World
  refresh w = record w { cache = force_refresh w.cache }

  abbrev pub bank : Transport World
  bank = record { value = value; force_refresh = refresh; get = get }
