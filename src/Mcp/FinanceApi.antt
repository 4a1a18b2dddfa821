-- ===== src/Mcp/FinanceApi.antt =====
-- internal_api/finance_api.py: the mock finance API that issues and checks access tokens.
pub mod Access
use agentic_enterprise.Base.{
  ℕ, ◌+◌, Bool, not, ◌&&◌, Option, none, some, [], ◌∷◌, ltb, ◌==◌, if◌then◌else◌, Text, codes,
  text_eq, Dict, lookup, insert, remove, http_exception, Result, ok, err, or_raise,
}

abbrev pub token_ttl_s : ℕ
token_ttl_s = 3600

-- A balance in cents, with its currency.
pub record Account : Type 0 where
  pub balance : ℕ
  pub currency : Text

abbrev pub balances : Dict Account
balances =
    (codes "ACC-1001", record { balance = 125_050_075; currency = codes "USD" })
    ∷ (codes "ACC-2002", record { balance = 8_400_000; currency = codes "EUR" })
    ∷ []

-- The one client, and `_ISSUED`: token -> expiry.
pub record Client : Type 0 where
  pub client_id : Text
  pub client_secret : Text

abbrev pub Issued : Type 0
Issued = Dict ℕ

pub record TokenRequest : Type 0 where
  pub grant_type : Text
  pub client_id : Text
  pub client_secret : Text

-- `_CLIENTS.get(client_id) != client_secret`, negated.
unfoldable pub knows_client : Client → TokenRequest → Bool
knows_client client request =
    text_eq client.client_id request.client_id && text_eq client.client_secret request.client_secret

-- `token` is the fresh uuid4; the answer is the token and its lifetime.
unfoldable pub issue_token : Client → ℕ → Text → TokenRequest → Issued → Result (Text × ℕ) × Issued
unfolding knows_client
issue_token client now token request issued =
    if not (text_eq request.grant_type (codes "client_credentials"))
    then (err (http_exception 400), issued)
    else if not (knows_client client request)
    then (err (http_exception 401), issued)
    else (ok (token, token_ttl_s), insert token (now + token_ttl_s) issued)

abbrev pub bearer_prefix : Text
bearer_prefix = codes "Bearer "

-- s.removeprefix(p), for an s that starts with p
unfoldable pub remove_prefix : Text → Text → Option Text
remove_prefix [] s = some s
remove_prefix (c ∷ p) [] = none
remove_prefix (c ∷ p) (d ∷ s) = if c == d then remove_prefix p s else none

-- `time.time() > expiry` drops the token.
unfoldable pub check_token : ℕ → Text → Issued → Result (Unit {0}) × Issued
check_token now token issued = elim (lookup token issued) [
  | none ↦ (err (http_exception 401), issued)
  | some expiry ↦
      if ltb expiry now then (err (http_exception 401), remove token issued) else (ok tt, issued)
]

-- An absent header, and one without the prefix, are refused.
unfoldable pub require_token : ℕ → Option Text → Issued → Result (Unit {0}) × Issued
unfolding remove_prefix check_token
require_token now none issued = (err (http_exception 401), issued)
require_token now (some authorization) issued = elim (remove_prefix bearer_prefix authorization) [
  | none ↦ (err (http_exception 401), issued)
  | some token ↦ check_token now token issued
]

unfoldable pub find_balance : Text → Result Account
find_balance account_id = or_raise (lookup account_id balances) (http_exception 404)

unfoldable pub get_balance : ℕ → Text → Option Text → Issued → Result Account × Issued
unfolding require_token find_balance
get_balance now account_id authorization issued =
    let (allowed, issued') = require_token now authorization issued in
    elim allowed [ ok u ↦ (find_balance account_id, issued') | err e ↦ (err e, issued') ]
