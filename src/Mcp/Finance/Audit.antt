-- ===== src/Mcp/Finance/Audit.antt =====
-- The audit of balance lookups, and the retry.
use agentic_enterprise.Database.{success, error, BalanceQueryEvent}
use agentic_enterprise.Database.Columns.{Postgres, balance_query_row, insert_row}
use agentic_enterprise.Database.Rows.{insert_row-eq-ok}
use agentic_enterprise.Mcp.Finance.{
  Response, Transport, call_api, event_for, audit, after_audit, detail_of, get_account_balance,
}
use agentic_enterprise.Base.{
  ◌≡◌, refl, ◌⊎◌, inl, inr, Option, none, List, [], ◌∷◌, ◌++◌, arith, Text, Exception, http_error,
  Result, err, ok, Result-cases,
}
use agentic_enterprise.Mcp.FinanceApi.{Account}

module _ {W : Type 0} (t : Transport W) where
  -- If the server rejects the cached token and accepts the one fetched after the refresh, the
  -- caller sees only the balance.
  pub retry_hides_401 :
      (account_id old new : Text) (w w₁ w₂ w₃ w₄ : W) (r : Response) (a : Account)
      → t.value w ≡ (ok old, w₁)
      → t.get account_id old w₁ ≡ (ok r, w₂)
      → r.status_code ≡ 401
      → t.value (t.force_refresh w₂) ≡ (ok new, w₃)
      → t.get account_id new w₃ ≡ (ok (record { status_code = 200; json = ok a }), w₄)
      → call_api t account_id w ≡ (ok a, w₄)
  unfolding call_api
  retry_hides_401 account_id old new w w₁ w₂ w₃ w₄ r a h₁ h₂ h₃ h₄ h₅ = ground arith

  module _ (pg : Postgres) (str : Exception → Text) where
    -- The audit has been asked for a row: either it is the last one and the result is passed on, or
    -- the database has refused it, no row is added, and the result is the database's error.
    abbrev pub RowOrError :
        BalanceQueryEvent
        → Result Account
        → List BalanceQueryEvent
        → Result Account
        → List BalanceQueryEvent
        → Type 0
    RowOrError event r events r' events' =
        ((row : BalanceQueryEvent) × (balance_query_row pg event ≡ ok row)
          × (events' ≡ events ++ row ∷ [])
          × (r' ≡ r))
        ⊎ ((e : Exception) × (insert_row pg (balance_query_row pg) event events ≡ err e)
            × (events' ≡ events)
            × (r' ≡ err e))

    -- What a lookup leaves behind, by how the call of the API ended.
    abbrev Audited :
        Text
        → Option Text
        → Result Account
        → List BalanceQueryEvent
        → Result Account
        → List BalanceQueryEvent
        → Type 0
    Audited account_id thread_id (ok a) events r' events' =
        RowOrError (event_for t pg str account_id thread_id success none) (ok a) events r' events'
    Audited account_id thread_id (err http_error) events r' events' =
        RowOrError (event_for t pg str account_id thread_id error (detail_of t pg str http_error))
          (err http_error) events r' events'
    Audited account_id thread_id (err e) events r' events' = (events' ≡ events) × (r' ≡ err e)

    after_audit-RowOrError :
        (event : BalanceQueryEvent) (r : Result Account) (w : W) (events : List BalanceQueryEvent)
        → let (r', w', events') =
            after_audit t pg str r w events (insert_row pg (balance_query_row pg) event events) in
          (w' ≡ w) × RowOrError event r events r' events'
    after_audit-RowOrError event r w events =
        elim (Result-cases (insert_row pg (balance_query_row pg) event events)) [
          | inl (e, h) ↦ rw h (refl, inr (e, refl, refl, refl))
          | inr (rows, h) ↦
              let (row, taken, last) =
                insert_row-eq-ok pg (balance_query_row pg) event events rows h in
              rw h (refl, inl (row, taken, last, refl))
        ]

    Audited-after :
        (account_id : Text) (thread_id : Option Text) (w : W) (events : List BalanceQueryEvent)
        (r : Result Account)
        → (call_api t account_id w).0 ≡ r
        → let w₁ = (call_api t account_id w).1 in
          let (r', w', events') = get_account_balance t pg str account_id thread_id w events in
          (w' ≡ w₁) × Audited account_id thread_id r events r' events'
    unfolding get_account_balance audit
    Audited-after account_id thread_id w events (ok a) h =
        let event = event_for t pg str account_id thread_id success none in
        rw (h, get_account_balance)
          (after_audit-RowOrError event (ok a) (call_api t account_id w).1 events)
    Audited-after account_id thread_id w events (err http_error) h =
        let detail = detail_of t pg str http_error in
        let event = event_for t pg str account_id thread_id error detail in
        rw (h, get_account_balance)
          (after_audit-RowOrError event (err http_error) (call_api t account_id w).1 events)
    Audited-after account_id thread_id w events (err e) h =
        rw (h, get_account_balance) (refl, (refl, refl))

    -- A balance leaves the tool only together with its row "ok": when the database refuses the row
    -- (it is out of reach, or a text exceeds its column) the tool raises instead. An HTTP error is
    -- recorded as "error" with the first 256 characters of its text and raised again, or the
    -- database's error is raised. Any other exception is raised and leaves no row.
    get_account_balance-Audited :
        (account_id : Text) (thread_id : Option Text) (w : W) (events : List BalanceQueryEvent)
        → let (r, w₁) = call_api t account_id w in
          let (r', w', events') = get_account_balance t pg str account_id thread_id w events in
          (w' ≡ w₁) × Audited account_id thread_id r events r' events'
    get_account_balance-Audited account_id thread_id w events =
        Audited-after account_id thread_id w events (call_api t account_id w).0 refl
