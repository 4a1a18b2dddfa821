-- ===== src/Api/Claiming.antt =====
-- app/api/v1/endpoints.py and app/graph/ownership.py: who owns a conversation that POST /run has begun.
use agentic_enterprise.Base.{
  ℕ, ◌≡◌, refl, ap, ◌∙◌, true, false, none, some, arith, length, Text, text_eq, text_eq_refl,
  http_exception, Result, err, ok, ◌>>=◌, ◌>>◌,
}
use agentic_enterprise.Schemas.{AgentRequest}
use agentic_enterprise.Database.{Db, lift}
use agentic_enterprise.Database.Sessions.{commit_lift}
use agentic_enterprise.Ownership.Claims.{owner_of-insert_owner}
use agentic_enterprise.Ownership.{is_admin, owner_of, insert_owner, is_owner, claim, claim_or_check}
use agentic_enterprise.Auth.{require_thread_owner}
use agentic_enterprise.History.{thread_timeline, is_interrupted}
use agentic_enterprise.Api.{App, Values, AgentResponse}
use agentic_enterprise.Api.Owned.{owned}
use agentic_enterprise.Api.Run.{run_thread, add_execution, run_route}
use agentic_enterprise.Api.Rows.{Recorded, run_route-Recorded}
use agentic_enterprise.Api.Threads.{
  ThreadHistory, thread_history, resume_thread, fork_thread, edit_thread_checkpoint,
  thread_branches,
}
use agentic_enterprise.Api.Recall.{remember_thread_fact}
use agentic_enterprise.Api.Access.{foreign_thread_is_refused}

Recorded-ownership :
    (payload : AgentRequest) (db : Db) (p : Result AgentResponse × Db)
    → Recorded payload db p
    → p.1.ownership ≡ db.ownership
unfolding add_execution
Recorded-ownership payload db (ok r, d) h = ap (λ x. x.ownership) h
Recorded-ownership payload db (err e, d) (h, other) = ap (λ x. x.ownership) h

won_by :
    (thread_id username : Text) (db : Db)
    → owner_of thread_id db.ownership ≡ none
    → owner_of thread_id (insert_owner thread_id username db.ownership) ≡ some username
won_by thread_id username db free =
    ground (
      arith,
      owner_of-insert_owner thread_id thread_id username db.ownership,
      text_eq_refl thread_id,
    )

module _ (app : App) where
  -- POST /run claims nothing.
  run_route-ownership :
      (username : Text) (payload : AgentRequest) (db : Db)
      → (run_route app username payload db).1.ownership ≡ db.ownership
  run_route-ownership username payload db =
      Recorded-ownership payload db _ (run_route-Recorded app username payload db)

  claims_unowned :
      (thread_id username : Text) (db : Db)
      → is_admin app.services.settings username ≡ false
      → owner_of thread_id db.ownership ≡ none
      → claim_or_check app.services.settings thread_id username db
        ≡ (ok true, record db { ownership = insert_owner thread_id username db.ownership })
  unfolding claim_or_check claim is_owner
  claims_unowned thread_id username db user free =
      rw user (rw (won_by thread_id username db free) (rw (text_eq_refl username) refl))

  -- The caller of an unowned thread becomes its owner, and passes.
  passes_unowned :
      (thread_id username : Text) (db : Db)
      → is_admin app.services.settings username ≡ false
      → owner_of thread_id db.ownership ≡ none
      → require_thread_owner app.services.settings thread_id username db
        ≡ (ok username, record db { ownership = insert_owner thread_id username db.ownership })
  unfolding require_thread_owner
  passes_unowned thread_id username db user free =
      let claimed = claims_unowned thread_id username db user free in
      rw (ap (λ p. p.0) claimed, require_thread_owner)
        (ap {B = Result Text × Db} (λ p. (ok username, p.1)) claimed)

  -- A route of an unowned thread that returns, and whose handler leaves the session alone, makes its
  -- caller the owner.
  owned-claims :
      {A : Type 0} (thread_id username : Text) (handler : Text → Result A) (db : Db) (a : A)
      → is_admin app.services.settings username ≡ false
      → owner_of thread_id db.ownership ≡ none
      → handler username ≡ ok a
      → owned app thread_id username (λ user. lift (handler user)) db
        ≡ (ok a, record db { ownership = insert_owner thread_id username db.ownership })
  unfolding owned
  owned-claims thread_id username handler db a user free returned =
      commit_lift (require_thread_owner app.services.settings thread_id username) handler db
        (record db { ownership = insert_owner thread_id username db.ownership }) username a
        (passes_unowned thread_id username db user free) returned

  -- What thread_history reads for the caller.
  abbrev pub history_of : Text → ℕ → Result ThreadHistory
  history_of thread_id limit = do
    app.build_workflow
    timeline ← thread_timeline app.checkpoints thread_id limit
    interrupted ← is_interrupted app.checkpoints thread_id
    ok (record {
      interrupted = interrupted;
      checkpoint_count = length timeline;
      checkpoints = timeline;
    })

  -- POST /run does not claim its thread: a user who has begun a conversation that nobody owns loses it
  -- to whoever first asks for its history, if both are not the admin. The other one becomes the
  -- owner, and the user gets status 403 from all six routes of the thread, which read, resume, fork and edit it,
  -- list its branches and remember a fact about it.
  pub conversation_goes_to_first_asker :
      (payload : AgentRequest) (user other : Text) (db : Db) (limit : ℕ) (history : ThreadHistory)
      (id text node : Text) (values : Values)
      → is_admin app.services.settings user ≡ false
      → is_admin app.services.settings other ≡ false
      → text_eq other user ≡ false
      → owner_of (run_thread payload) db.ownership ≡ none
      → history_of (run_thread payload) limit ≡ ok history
      → let t = run_thread payload in
        let db₁ = (run_route app user payload db).1 in
        let (seen, db₂) = thread_history app t other limit db₁ in
        (seen ≡ ok history)
        × (owner_of t db₂.ownership ≡ some other)
        × (thread_history app t user limit db₂ ≡ (err (http_exception 403), db₂))
        × (resume_thread app t user db₂ ≡ (err (http_exception 403), db₂))
        × (fork_thread app t user id text db₂ ≡ (err (http_exception 403), db₂))
        × (edit_thread_checkpoint app t user id node values db₂ ≡ (err (http_exception 403), db₂))
        × (thread_branches app t user limit db₂ ≡ (err (http_exception 403), db₂))
        × (remember_thread_fact app id t user text db₂
            ≡ (err (http_exception 403), db₂, app.services.memories))
  unfolding thread_history
  conversation_goes_to_first_asker payload user other db limit history id text node values plain
        plain' apart free found =
      let t = run_thread payload in
      let db₁ = (run_route app user payload db).1 in
      let unclaimed = run_route-ownership user payload db in
      let still_free : owner_of t db₁.ownership ≡ none = rw unclaimed free in
      let asked =
        owned-claims t other (λ caller. history_of t limit) db₁ history plain' still_free found in
      let taken : owner_of t (thread_history app t other limit db₁).1.ownership ≡ some other =
        ap (λ p. owner_of t p.1.ownership) asked ∙ won_by t other db₁ still_free in
      let db₂ = (thread_history app t other limit db₁).1 in
      let (
        history_refused, resume_refused, fork_refused, edit_refused, branches_refused, fact_refused,
      ) =
        foreign_thread_is_refused app t user other db₂ plain taken apart limit id text node
          values in
      (
        ap (λ p. p.0) asked,
        taken,
        history_refused,
        resume_refused,
        fork_refused,
        edit_refused,
        branches_refused,
        fact_refused,
      )
