-- ===== src/Main/Tracing.antt =====
-- app/main.py: the request id of a request, in its answer and in the error that it reports.
use agentic_enterprise.Base.{
  ℕ, ◌<◌, ◌≡◌, refl, ◌⊎◌, inl, inr, false, Option, none, some, List, [], ◌∷◌, ◌++◌, arith, leb,
  Text, codes, Details, text_eq, lookup, insert, lookup-insert, ok,
}
use agentic_enterprise.Messages.{Message, human_message}
use agentic_enterprise.Schemas.{ResearchReport, ResearchRequest, validate_research}
use agentic_enterprise.Graph.Engine.{Executor, FollowsGraph}
use agentic_enterprise.Research.{ResearchState, ResearchNode, ResearchServices}
use agentic_enterprise.Research.Limits.{Appends}
use agentic_enterprise.Research.Rounds.{Converses, research_rounds}
use agentic_enterprise.Api.Queries.{research_topic, run_research}
use agentic_enterprise.Main.Errors.{
  max_recursion_failure, Failure, agentic, graph_recursion, invalid_request, rate_limit, http,
  unhandled, Body, error_body, other_body, Response, request_id_header, trace_id_of, error_response,
  handle_agentic_exception, handle_graph_recursion, handle_validation_error, handle_rate_limit,
  handle, request_id_of, request_id_middleware, fails, served, serve, failure_of, outcome_of,
}

-- The error of a body, if it has one, names the request.
abbrev pub NamesRequest : Text → Body → Type 0
NamesRequest id (error_body e) = (e.success ≡ false) × (e.trace_id ≡ some id)
NamesRequest id (other_body text) = Unit

-- The status of each failure; one without a handler is left to the server, which answers 500.
abbrev pub status_of : Failure → ℕ
status_of (agentic exc) = exc.status_code
status_of graph_recursion = 422
status_of (invalid_request found) = 422
status_of (rate_limit window detail) = 429
status_of (http status) = status
status_of unhandled = 500

-- What FastAPI documents of its handler for HTTPException: the status, and a body of its own.
abbrev pub KeepsStatus : (ℕ → Response) → Type 0
KeepsStatus http_handler =
    (status : ℕ)
    → ((http_handler status).status_code ≡ status)
      × ((text : Text) × ((http_handler status).body ≡ other_body text))

traced :
    (c : ℕ) (new : Text) (incoming : Option Text)
    → let id = request_id_of (c ∷ new) incoming in trace_id_of id ≡ some id
unfolding request_id_of trace_id_of
traced c new none = refl
traced c new (some []) = refl
traced c new (some (d ∷ rest)) = refl

-- A response as the middleware sends it on.
abbrev pub stamp : Text → Response → Response
stamp id r = record r { headers = insert request_id_header id r.headers }

-- An answer to a failure: it carries the id, in its header and in its error, and its status.
abbrev pub Answers : Text → Failure → Response → Type 0
Answers id cause r =
    (lookup request_id_header r.headers ≡ some id)
    × NamesRequest id r.body
    × (r.status_code ≡ status_of cause)

stamp-Answers :
    (id : Text) (cause : Failure) (r : Response)
    → NamesRequest id r.body
    → r.status_code ≡ status_of cause
    → Answers id cause (stamp id r)
unfolding text_eq
stamp-Answers id cause r named status =
    (lookup-insert request_id_header request_id_header id r.headers, named, status)

-- What the client sees of a failure.
abbrev pub Seen : (ℕ → Response) → Text → Option Text → Failure → Type 0
Seen http_handler new incoming cause =
    let id = request_id_of new incoming in
    let answer = serve http_handler new incoming (fails cause) in
    ((cause ≡ unhandled) × (answer ≡ none))
    ⊎ ((r : Response) × (answer ≡ some r) × Answers id cause r)

module _ (http_handler : ℕ → Response) (keeps : KeepsStatus http_handler) where
  http-NamesRequest : (id : Text) (status : ℕ) → NamesRequest id (http_handler status).body
  http-NamesRequest id status = let (same, (text, plain)) = keeps status in rw plain tt

  handled-Seen :
      (c : ℕ) (new : Text) (incoming : Option Text) (cause : Failure) (r : Response)
      → let id = request_id_of (c ∷ new) incoming in
        serve http_handler (c ∷ new) incoming (fails cause) ≡ some (stamp id r)
        → NamesRequest id r.body
        → r.status_code ≡ status_of cause
        → Seen http_handler (c ∷ new) incoming cause
  handled-Seen c new incoming cause r sent named status =
      let id = request_id_of (c ∷ new) incoming in
      inr (stamp id r, sent, stamp-Answers id cause r named status)

  -- A failure that has a handler reaches the client with the status of its kind, and with the id of
  -- the request, that of the X-Request-ID header or else a new one that is not empty, both in the
  -- response's header and, if it is the service's own error, as the trace id of the error. One
  -- without a handler leaves the application, and the middleware adds no header.
  pub failures_are_traced :
      (c : ℕ) (new : Text) (incoming : Option Text) (cause : Failure)
      → Seen http_handler (c ∷ new) incoming cause
  unfolding serve request_id_middleware served handle handle_agentic_exception
      handle_graph_recursion handle_validation_error handle_rate_limit error_response
      max_recursion_failure
  failures_are_traced c new incoming unhandled = inl (refl, refl)
  failures_are_traced c new incoming (http status) =
      let id = request_id_of (c ∷ new) incoming in
      handled-Seen c new incoming (http status) (http_handler status) refl
        (http-NamesRequest id status) (keeps status).0
  failures_are_traced c new incoming (agentic exc) =
      let id = request_id_of (c ∷ new) incoming in
      handled-Seen c new incoming (agentic exc) (handle_agentic_exception id exc) refl
        (refl, traced c new incoming) refl
  failures_are_traced c new incoming graph_recursion =
      let id = request_id_of (c ∷ new) incoming in
      handled-Seen c new incoming graph_recursion (handle_graph_recursion id) refl
        (refl, traced c new incoming) refl
  failures_are_traced c new incoming (invalid_request found) =
      let id = request_id_of (c ∷ new) incoming in
      handled-Seen c new incoming (invalid_request found) (handle_validation_error id found) refl
        (refl, traced c new incoming) refl
  failures_are_traced c new incoming (rate_limit window detail) =
      let id = request_id_of (c ∷ new) incoming in
      handled-Seen c new incoming (rate_limit window detail) (handle_rate_limit id window detail)
        refl (refl, traced c new incoming) refl

-- POST /research through the whole application, where the model goes on calling tools for more than
-- 24 rounds before it answers: the client gets a 422 that names the error, the topic and the request.
pub long_research_is_reported :
    (sv : ResearchServices)
    → Appends sv
    → (e : Executor ResearchNode ResearchState) → FollowsGraph e
    → (http_handler : ℕ → Response) (present : ResearchReport → Response)
      (saved : Text → List Message) (r : ResearchRequest) (rounds : ℕ) (end : List Message) (c : ℕ)
      (new : Text) (incoming : Option Text)
    → validate_research r ≡ ok r
    → Converses sv rounds (saved r.thread_id ++ human_message (research_topic r.topic) ∷ []) end
    → 24 < rounds
    → let id = request_id_of (c ∷ new) incoming in
      serve http_handler
        (c ∷ new)
        incoming
        (outcome_of present (run_research sv e (ok tt) (ok tt) saved r))
      ≡ some (record {
        status_code = 422;
        headers = (request_id_header, id) ∷ [];
        body = error_body (record {
          success = false;
          error_code = codes "MAX_RECURSION_REACHED";
          message = codes "Agent entered a loop or exceeded its reasoning-step budget.";
          details = some (Details.topic r.topic);
          trace_id = some id;
        });
      })
unfolding serve request_id_middleware served handle handle_agentic_exception error_response
    max_recursion_failure failure_of outcome_of insert
long_research_is_reported sv appends e follows http_handler present saved r rounds end c new
      incoming valid talk many =
    let over : leb rounds 23 ≡ false = ground (arith, many) in
    let far : leb rounds 24 ≡ false = ground (arith, many) in
    rw
      (
        research_rounds sv appends e follows saved r rounds end valid talk,
        over,
        far,
        traced c new incoming,
        outcome_of,
        serve,
      )
      refl
