-- ===== src/Mcp/Bank/Lookups.antt =====
-- app/mcp/finance_server.py and the finance API: what a lookup ends with, whatever the cached token is.
use agentic_enterprise.Base.{
  ℕ, ◌+◌, ◌≤◌, ◌≡◌, refl, ap, ◌∙◌, ◌⊎◌, inl, inr, true, false, Option, none, some, ◌++◌, arith, ltb,
  ◌==◌, Bool-cases, Option-cases, Text, codes, text_eq, lookup, http_error, http_exception, Result,
  err, ok,
}
use agentic_enterprise.Schemas.{is_slug}
use agentic_enterprise.Mcp.Oauth.{refresh_margin_s, is_stale, force_refresh}
use agentic_enterprise.Mcp.FinanceApi.{
  token_ttl_s, Account, balances, Client, Issued, TokenRequest, knows_client, issue_token,
  bearer_prefix, find_balance, get_balance,
}
use agentic_enterprise.Mcp.FinanceApi.Access.{get_balance-bearer, issue_token-get_balance}
use agentic_enterprise.Mcp.Finance.{
  Response, Transport, raise_for_status, attempt, second_attempt, call_api,
}
use agentic_enterprise.Mcp.Bank.{World, response_of, fetched, value, get_at, get, refresh, bank}

-- What a lookup of the account ends with, by the table of balances alone.
abbrev pub answer_for : Option Account → Result Account
answer_for none = err http_error
answer_for (some account) = ok account

module _ {W : Type 0} (t : Transport W) where
  attempt_with :
      (account_id token : Text) (w : W)
      → (t.value w).0 ≡ ok token
      → attempt t account_id w ≡ t.get account_id token (t.value w).1
  unfolding attempt
  attempt_with account_id token w h = rw (h, attempt) refl

  second_answer :
      (account_id : Text) (w : W) (r : Response)
      → (attempt t account_id w).0 ≡ ok r
      → (second_attempt t account_id w).0 ≡ raise_for_status r
  unfolding second_attempt raise_for_status
  second_answer account_id w r h = rw (h, second_attempt) refl

  first_answer :
      (account_id : Text) (w : W) (r : Response)
      → (attempt t account_id w).0 ≡ ok r
      → r.status_code == 401 ≡ false
      → (call_api t account_id w).0 ≡ raise_for_status r
  unfolding call_api raise_for_status
  first_answer account_id w r h other = rw (h, call_api) (rw other refl)

  refused_first :
      (account_id : Text) (w : W) (r : Response)
      → (attempt t account_id w).0 ≡ ok r
      → r.status_code == 401 ≡ true
      → (call_api t account_id w).0
        ≡ (second_attempt t account_id (t.force_refresh (attempt t account_id w).1)).0
  unfolding call_api second_attempt
  refused_first account_id w r h refused = rw (h, call_api) (rw refused refl)

module _ (client : Client) (request : TokenRequest) (uuid4 : ℕ → Text) (answering asking : ℕ)
    (elsewhere : Text → Result Response) where
  b : Transport World
  b = bank client request uuid4 answering asking elsewhere

  granted :
      (w : World)
      → text_eq request.grant_type (codes "client_credentials") ≡ true
      → knows_client client request ≡ true
      → (issue_token client w.clock (uuid4 w.made) request w.issued).0
        ≡ ok (uuid4 w.made, token_ttl_s)
  unfolding issue_token
  granted w grant known = rw (grant, known) refl

  -- The request is the one that the API grants, and the delays fit into the margin.
  pub record IsServed : Type 0 where
    pub grant : text_eq request.grant_type (codes "client_credentials") ≡ true
    pub known : knows_client client request ≡ true
    pub delays : answering + asking ≤ refresh_margin_s

  value_of_stale :
      (w : World) → IsServed → is_stale w.clock w.cache ≡ true → (b.value w).0 ≡ ok (uuid4 w.made)
  unfolding b value fetched
  value_of_stale w served stale = rw (stale, granted w served.grant served.known) refl

  issued_after :
      (w : World)
      → IsServed
      → is_stale w.clock w.cache ≡ true
      → ((b.value w).1.issued ≡ (issue_token client w.clock (uuid4 w.made) request w.issued).1)
        × ((b.value w).1.clock ≡ w.clock + answering)
  unfolding b value fetched
  issued_after w served stale = rw (stale, granted w served.grant served.known) (refl, refl)

  get_of_slug :
      (account_id token : Text) (w : World)
      → is_slug account_id ≡ true
      → (b.get account_id token w).0
        ≡ response_of
            (get_balance (w.clock + asking) account_id (some (bearer_prefix ++ token)) w.issued).0
  unfolding b get get_at
  get_of_slug account_id token w slug = rw slug refl

  valid_balance :
      (account_id : Text) (w : World)
      → IsServed
      → (get_balance
          (w.clock + answering + asking)
          account_id
          (some (bearer_prefix ++ uuid4 w.made))
          (issue_token client w.clock (uuid4 w.made) request w.issued).1).0
        ≡ find_balance account_id
  valid_balance account_id w served =
      let valid : ltb (w.clock + token_ttl_s) (w.clock + answering + asking) ≡ false =
        ground (arith, served.delays) in
      rw
        (issue_token-get_balance client w.clock (w.clock + answering + asking) (uuid4 w.made)
          account_id request w.issued token_ttl_s (granted w served.grant served.known))
        (rw valid refl)

  -- A turn with a stale cache: the API answers by its table.
  stale_attempt :
      (account_id : Text) (w : World)
      → is_slug account_id ≡ true
      → IsServed
      → is_stale w.clock w.cache ≡ true
      → (attempt b account_id w).0 ≡ response_of (find_balance account_id)
  stale_attempt account_id w slug served stale =
      let (same, later) = issued_after w served stale in
      rw (attempt_with b account_id (uuid4 w.made) w (value_of_stale w served stale)) (
        rw (get_of_slug account_id (uuid4 w.made) (b.value w).1 slug)
          (rw (same, later) (rw (valid_balance account_id w served) refl)))

  -- The API's answers by its table, as `_call_api` reads them.
  by_table :
      (account_id : Text)
      → (r : Response) × (response_of (find_balance account_id) ≡ ok r)
        × (r.status_code == 401 ≡ false)
        × (raise_for_status r ≡ answer_for (lookup account_id balances))
  unfolding find_balance response_of raise_for_status
  by_table account_id = elim (Option-cases (lookup account_id balances)) [
    | inl missing ↦ rw missing (_, refl, refl, refl)
    | inr (a, found) ↦ rw found (_, refl, refl, refl)
  ]

  -- What the API says to a token that the cache holds: what its table says, or 401.
  cached_balance :
      (now : ℕ) (account_id token : Text) (issued : Issued)
      → ((get_balance now account_id (some (bearer_prefix ++ token)) issued).0
          ≡ find_balance account_id)
        ⊎ ((get_balance now account_id (some (bearer_prefix ++ token)) issued).0
            ≡ err (http_exception 401))
  cached_balance now account_id token issued =
      rw (get_balance-bearer now account_id token issued)
        (elim (Option-cases (lookup token issued)) [
          | inl missing ↦ rw missing (inr refl)
          | inr (expiry, found) ↦ rw found (elim (Bool-cases (ltb expiry now)) [
            | inl over ↦ rw over (inr refl)
            | inr valid ↦ rw valid (inl refl)
          ])
        ])

  by_first :
      (account_id : Text) (w : World)
      → (attempt b account_id w).0 ≡ response_of (find_balance account_id)
      → (call_api b account_id w).0 ≡ answer_for (lookup account_id balances)
  by_first account_id w h =
      let (r, answered, other, read) = by_table account_id in
      first_answer b account_id w r (h ∙ answered) other ∙ read

  refreshed_is_stale :
      (w : World) → is_stale (b.force_refresh w).clock (b.force_refresh w).cache ≡ true
  unfolding b refresh force_refresh is_stale
  refreshed_is_stale w = refl

  by_second :
      (account_id : Text) (w : World)
      → is_slug account_id ≡ true
      → IsServed
      → (attempt b account_id w).0 ≡ response_of (err (http_exception 401))
      → (call_api b account_id w).0 ≡ answer_for (lookup account_id balances)
  unfolding response_of
  by_second account_id w slug served h =
      let w' = b.force_refresh (attempt b account_id w).1 in
      let (r, answered, other, read) = by_table account_id in
      refused_first b account_id w _ h refl
      ∙ second_answer b account_id w' r (
          stale_attempt account_id w' slug served (refreshed_is_stale (attempt b account_id w).1)
          ∙ answered)
      ∙ read

  held_token :
      (w : World) → is_stale w.clock w.cache ≡ false → (token : Text) × (b.value w ≡ (ok token, w))
  unfolding b value is_stale
  held_token w fresh = elim (Option-cases w.cache.access_token) [
    | inl missing ↦ absurd (let g = rw missing at fresh in cc)
    | inr (token, held) ↦ (token, rw fresh (rw held refl))
  ]

  -- Whatever token the cache holds and whichever tokens the API knows, expired, revoked or neither: a
  -- lookup of an account id of letters, digits, "_" and "-" ends by the API's table of balances alone,
  -- with the account that is there or an HTTP error, if the API grants the server's credentials and the
  -- network's delays are within the margin of the cache.
  pub lookup_survives_revocation :
      (account_id : Text) (w : World)
      → is_slug account_id ≡ true
      → IsServed
      → (call_api (bank client request uuid4 answering asking elsewhere) account_id w).0
        ≡ answer_for (lookup account_id balances)
  unfolding b
  lookup_survives_revocation account_id w slug served =
      elim (Bool-cases (is_stale w.clock w.cache)) [
        | inl stale ↦ by_first account_id w (stale_attempt account_id w slug served stale)
        | inr fresh ↦
            let (token, held) = held_token w fresh in
            let asked = attempt_with b account_id token w (ap (λ p. p.0) held) in
            let sent : (attempt b account_id w).0
                ≡ response_of
                    (get_balance (w.clock + asking) account_id (some (bearer_prefix ++ token))
                      w.issued).0 =
              ap (λ p. p.0) asked
              ∙ ap (λ p. (b.get account_id token p.1).0) held
              ∙ get_of_slug account_id token w slug in
            elim (cached_balance (w.clock + asking) account_id token w.issued) [
              | inl accepted ↦ by_first account_id w (sent ∙ ap response_of accepted)
              | inr refused ↦ by_second account_id w slug served (sent ∙ ap response_of refused)
            ]
      ]
