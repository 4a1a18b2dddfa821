-- ===== src/Mcp/FinanceApi/Access.antt =====
-- internal_api/finance_api.py: the lifetime of a token, against the cache of app/mcp/oauth.py.
use agentic_enterprise.Base.{
  ℕ, ◌+◌, ◌-◌, ◌≤◌, ◌≡◌, false, Option, none, some, ◌++◌, arith, ltb, if◌then◌else◌, Text,
  text_eq_refl, lookup, remove, lookup-insert, http_exception, Result, ok, err,
}
use agentic_enterprise.Mcp.Oauth.{refresh_margin_s, Token, is_stale, store}
use agentic_enterprise.Mcp.FinanceApi.{
  token_ttl_s, Account, Client, Issued, TokenRequest, issue_token, bearer_prefix, find_balance,
  get_balance,
}

-- What a request with a bearer token does, by the token's expiry.
abbrev pub by_expiry : ℕ → Text → Text → Issued → Option ℕ → Result Account × Issued
by_expiry now account_id token issued none = (err (http_exception 401), issued)
by_expiry now account_id token issued (some expiry) =
    if ltb expiry now
    then (err (http_exception 401), remove token issued)
    else (find_balance account_id, issued)

pub get_balance-bearer :
    (now : ℕ) (account_id token : Text) (issued : Issued)
    → get_balance now account_id (some (bearer_prefix ++ token)) issued
      ≡ by_expiry now account_id token issued (lookup token issued)
unfolding get_balance
get_balance-bearer now account_id token issued = ground arith

issued_expiry :
    (client : Client) (now : ℕ) (token : Text) (request : TokenRequest) (issued : Issued) (ttl : ℕ)
    → (issue_token client now token request issued).0 ≡ ok (token, ttl)
    → lookup token (issue_token client now token request issued).1 ≡ some (now + ttl)
unfolding issue_token
issued_expiry client now token request issued ttl h =
    ground (arith, lookup-insert token token (now + token_ttl_s) issued, text_eq_refl token)

-- A token that the endpoint has issued opens every balance until its lifetime is over; the first
-- request after that is refused, and drops the token.
pub issue_token-get_balance :
    (client : Client) (now later : ℕ) (token account_id : Text) (request : TokenRequest)
    (issued : Issued) (ttl : ℕ)
    → (issue_token client now token request issued).0 ≡ ok (token, ttl)
    → let issued' = (issue_token client now token request issued).1 in
      get_balance later account_id (some (bearer_prefix ++ token)) issued' ≡ (
        if ltb (now + ttl) later
        then (err (http_exception 401), remove token issued')
        else (find_balance account_id, issued'))
issue_token-get_balance client now later token account_id request issued ttl h =
    rw (get_balance-bearer later account_id token (issue_token client now token request issued).1)
      (rw (issued_expiry client now token request issued ttl h))

-- The margin of the client's token cache covers the network: a token that the cache, filled at
-- `fetched`, still counts as fresh at `sent` is accepted by the API at `arrived`, if the delays of the
-- token's answer and of the request are at most 60 seconds together.
pub fresh_token_is_accepted :
    (client : Client) (now fetched sent arrived : ℕ) (token account_id : Text)
    (request : TokenRequest) (issued : Issued) (cache : Token) (ttl : ℕ)
    → (issue_token client now token request issued).0 ≡ ok (token, ttl)
    → is_stale sent (store fetched (token, ttl) cache) ≡ false
    → (fetched - now) + (arrived - sent) ≤ refresh_margin_s
    → get_balance arrived account_id
        (some (bearer_prefix ++ token))
        (issue_token client now token request issued).1
      ≡ (find_balance account_id, (issue_token client now token request issued).1)
unfolding is_stale store
fresh_token_is_accepted client now fetched sent arrived token account_id request issued cache ttl h
      fresh delays =
    let valid : ltb (now + ttl) arrived ≡ false = ground arith in
    rw (issue_token-get_balance client now arrived token account_id request issued ttl h) (rw valid)
