-- ===== src/Mcp/Finance.antt =====
-- app/mcp/finance_server.py: the balance tool, with its retry after a 401 and its audit.
pub mod Audit
pub mod Gate
use agentic_enterprise.Base.{
  ℕ, not, ◌&&◌, Option, none, some, List, ltb, leb, ◌==◌, if◌then◌else◌, take, Text, text_eq,
  Exception, http_error, failure, Result, err, ok, ◌>>◌,
}
use agentic_enterprise.Settings.{Settings}
use agentic_enterprise.Mcp.Bearer.{placeholder, dev, import_auth}
use agentic_enterprise.Database.{Outcome, success, error, BalanceQueryEvent}
use agentic_enterprise.Database.Columns.{Postgres, balance_query_row, insert_row}
use agentic_enterprise.Mcp.FinanceApi.{Account}

-- The import of the module: that of app/mcp/auth.py, and then its own check of the client secret.
unfoldable pub import_finance_server : Settings → Result (Unit {0})
import_finance_server settings =
    import_auth settings
    >> (if not (text_eq settings.app_env dev)
          && text_eq settings.finance_oauth_client_secret placeholder
        then err failure
        else ok tt)

pub record Response : Type 0 where
  pub status_code : ℕ
  pub json : Result Account

-- What `_call_api` works with, over a state `W` of the world: the token cache, and one GET.
pub record Transport (W : Type 0) : Type 0 where
  pub value : W → Result Text × W
  pub force_refresh : W → W
  pub get : Text → Text → W → Result Response × W

-- httpx's raise_for_status raises unless the status is 2xx.
unfoldable pub raise_for_status : Response → Result Account
raise_for_status resp =
    if leb 200 resp.status_code && ltb resp.status_code 300 then resp.json else err http_error

module _ {W : Type 0} (t : Transport W) where
  -- One turn of the loop: the token, then the GET.
  unfoldable pub attempt : Text → W → Result Response × W
  attempt account_id w =
      let (token, w') = t.value w in
      elim token [ ok tok ↦ t.get account_id tok w' | err e ↦ (err e, w') ]

  -- The second turn takes any status as the answer.
  unfoldable pub second_attempt : Text → W → Result Account × W
  unfolding attempt raise_for_status
  second_attempt account_id w =
      let (resp, w') = attempt account_id w in
      elim resp [ ok r ↦ (raise_for_status r, w') | err e ↦ (err e, w') ]

  unfoldable pub call_api : Text → W → Result Account × W
  unfolding attempt second_attempt raise_for_status
  call_api account_id w =
      let (resp, w') = attempt account_id w in
      elim resp [
        | ok r ↦
            if r.status_code == 401
            then second_attempt account_id (t.force_refresh w')
            else (raise_for_status r, w')
        | err e ↦ (err e, w')
      ]

  module _ (pg : Postgres) (str : Exception → Text) where
    -- `_audit` with the outcome, and the first 256 characters of the error's text.
    abbrev pub event_for : Text → Option Text → Outcome → Option Text → BalanceQueryEvent
    event_for account_id thread_id outcome detail = record {
      account_id = account_id;
      thread_id = thread_id;
      username = none;
      outcome = outcome;
      detail = detail;
    }

    unfoldable pub audit :
        Text
        → Option Text
        → Outcome
        → Option Text
        → List BalanceQueryEvent
        → Result (List BalanceQueryEvent)
    audit account_id thread_id outcome detail events =
        insert_row pg (balance_query_row pg) (event_for account_id thread_id outcome detail) events

    -- The tool ends with `result` when the audit returns, and with the audit's error when it raises.
    abbrev pub after_audit :
        Result Account
        → W
        → List BalanceQueryEvent
        → Result (List BalanceQueryEvent)
        → Result Account × W × List BalanceQueryEvent
    after_audit result w events (ok rows) = (result, w, rows)
    after_audit result w events (err e) = (err e, w, events)

    abbrev pub detail_of : Exception → Option Text
    detail_of e = some (take 256 (str e))

    -- `except httpx.HTTPError`: only this kind of error is audited before it is raised again.
    unfoldable pub get_account_balance :
        Text
        → Option Text
        → W
        → List BalanceQueryEvent
        → Result Account × W × List BalanceQueryEvent
    get_account_balance account_id thread_id w events =
        let (result, w') = call_api account_id w in
        elim result [
          | ok account ↦
              after_audit (ok account) w' events (audit account_id thread_id success none events)
          | err e ↦ elim e [
            | http_error ↦
                after_audit (err http_error) w' events
                  (audit account_id thread_id error (detail_of http_error) events)
            | other ↦ (err other, w', events)
          ]
        ]
