-- ===== src/Main/Errors.antt =====
-- app/main.py: the exception handlers and the request-id middleware, with app/core/exceptions.py,
-- app/core/context.py and app/schemas/errors.py.
use Prim.Native.Nat.{◌/◌, ◌%◌}
use agentic_enterprise.Base.{
  ℕ, zero, suc, ◌+◌, Bool, false, Option, none, some, List, [], ◌∷◌, ◌++◌, ltb, if◌then◌else◌, Text,
  codes, Dict, insert, Details, source, limit, errors, Exception, graph_recursion_error,
  max_recursion_error, agentic_exception, http_exception, Result, err, ok,
}

pub record AgenticException : Type 0 where
  pub error_code : Text
  pub status_code : ℕ
  pub message : Text
  pub details : Option Details

unfoldable pub agentic_failure : Text → Option Details → AgenticException
agentic_failure message details = record {
  error_code = codes "AGENT_ERROR";
  status_code = 422;
  message = message;
  details = details;
}

unfoldable pub max_recursion_failure : Option Details → AgenticException
max_recursion_failure details = record {
  error_code = codes "MAX_RECURSION_REACHED";
  status_code = 422;
  message = codes "Agent entered a loop or exceeded its reasoning-step budget.";
  details = details;
}

-- The exceptions that leave a route: AgenticException, GraphRecursionError, RequestValidationError
-- with its errors(), RateLimitExceeded with the seconds of its window and its detail, HTTPException
-- with its status, and any other.
pub data Failure : Type 0 where
  agentic : AgenticException → Failure
  graph_recursion : Failure
  invalid_request : List Text → Failure
  rate_limit : ℕ → Text → Failure
  http : ℕ → Failure
  unhandled : Failure

-- ErrorResponse, without its timestamp.
pub record ErrorResponse : Type 0 where
  pub success : Bool
  pub error_code : Text
  pub message : Text
  pub details : Option Details
  pub trace_id : Option Text

pub data Body : Type 0 where
  error_body : ErrorResponse → Body
  other_body : Text → Body

pub record Response : Type 0 where
  pub status_code : ℕ
  pub headers : Dict Text
  pub body : Body

abbrev pub request_id_header : Text
request_id_header = codes "X-Request-ID"

abbrev pub retry_after_header : Text
retry_after_header = codes "Retry-After"

-- str(n), with at most `fuel` digits after the first; n is enough.
unfoldable pub digits : ℕ → ℕ → Text
digits zero n = (b'0' + n) ∷ []
digits (suc fuel) n =
    let rest = digits fuel (n / 10) in
    if ltb n 10 then (b'0' + n) ∷ [] else rest ++ (b'0' + n % 10) ∷ []

-- `get_request_id() or None`
unfoldable pub trace_id_of : Text → Option Text
trace_id_of [] = none
trace_id_of (c ∷ id) = some (c ∷ id)

module _ (request_id : Text) where
  unfoldable pub error_response : Text → Text → Option Details → ErrorResponse
  unfolding trace_id_of
  error_response error_code message details = record {
    success = false;
    error_code = error_code;
    message = message;
    details = details;
    trace_id = trace_id_of request_id;
  }

  unfoldable pub handle_agentic_exception : AgenticException → Response
  unfolding error_response
  handle_agentic_exception exc = record {
    status_code = exc.status_code;
    headers = [];
    body = error_body (error_response exc.error_code exc.message exc.details);
  }

  unfoldable pub handle_graph_recursion : Response
  unfolding handle_agentic_exception max_recursion_failure
  handle_graph_recursion =
      handle_agentic_exception (max_recursion_failure (some (source (codes "langgraph"))))

  unfoldable pub handle_validation_error : List Text → Response
  unfolding error_response
  handle_validation_error found = record {
    status_code = 422;
    headers = [];
    body = error_body (
        error_response (codes "VALIDATION_ERROR") (codes "Request body failed validation.")
          (some (errors found)));
  }

  unfoldable pub handle_rate_limit : ℕ → Text → Response
  unfolding error_response digits
  handle_rate_limit window detail = record {
    status_code = 429;
    headers = (retry_after_header, digits window window) ∷ [];
    body = error_body (
        error_response (codes "RATE_LIMIT_EXCEEDED") (codes "Rate limit exceeded: " ++ detail)
          (some (limit detail)));
  }

  -- The application below the middleware: the registered handlers, FastAPI's own for HTTPException,
  -- and none for any other exception, which leaves the application.
  unfoldable pub handle : (ℕ → Response) → Failure → Option Response
  unfolding handle_agentic_exception handle_graph_recursion handle_validation_error
      handle_rate_limit
  handle http_handler (agentic exc) = some (handle_agentic_exception exc)
  handle http_handler graph_recursion = some handle_graph_recursion
  handle http_handler (invalid_request found) = some (handle_validation_error found)
  handle http_handler (rate_limit window detail) = some (handle_rate_limit window detail)
  handle http_handler (http status) = some (http_handler status)
  handle http_handler unhandled = none

-- `incoming or new_request_id()`
unfoldable pub request_id_of : Text → Option Text → Text
request_id_of new none = new
request_id_of new (some []) = new
request_id_of new (some (c ∷ id)) = c ∷ id

-- `call_next` gives no response when the application raises.
unfoldable pub request_id_middleware :
    Text → Option Text → (Text → Option Response) → Option Response
unfolding request_id_of
request_id_middleware new incoming call_next =
    let request_id = request_id_of new incoming in
    elim (call_next request_id) [
      | none ↦ none
      | some response ↦
          some (record response { headers = insert request_id_header request_id response.headers })
    ]

-- How a route ends.
pub data Outcome : Type 0 where
  responds : Response → Outcome
  fails : Failure → Outcome

unfoldable pub served : (ℕ → Response) → Outcome → Text → Option Response
unfolding handle
served http_handler (responds response) request_id = some response
served http_handler (fails cause) request_id = handle request_id http_handler cause

-- A request through the middleware; `new` is the fresh uuid4.
unfoldable pub serve : (ℕ → Response) → Text → Option Text → Outcome → Option Response
unfolding request_id_middleware served
serve http_handler new incoming outcome =
    request_id_middleware new incoming (served http_handler outcome)

-- The exceptions of the routes, as the handlers tell them apart.
unfoldable pub failure_of : Exception → Failure
unfolding agentic_failure max_recursion_failure
failure_of agentic_exception =
    agentic (agentic_failure (codes "The agent failed to complete the request.") none)
failure_of (max_recursion_error details) = agentic (max_recursion_failure details)
failure_of graph_recursion_error = graph_recursion
failure_of (http_exception status) = http status
failure_of e = unhandled

-- A route that ends with `result`; `present` is FastAPI's response to a value.
unfoldable pub outcome_of : {A : Type 0} → (A → Response) → Result A → Outcome
unfolding failure_of
outcome_of present (ok value) = responds (present value)
outcome_of present (err e) = fails (failure_of e)
