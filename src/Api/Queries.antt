-- ===== src/Api/Queries.antt =====
-- app/api/v1/endpoints.py: GET /ask, POST /analyze, POST /research and GET /conversations.
use agentic_enterprise.Base.{
  ℕ, Option, none, some, List, [], ◌∷◌, ◌++◌, map, Text, codes, Details, key_error,
  validation_error, graph_recursion_error, max_recursion_error, Result, ok, err, ◌>>=◌, ◌>>◌,
  or_raise,
}
use agentic_enterprise.Schemas.{
  InvestmentAnalysis, validate_analysis, ResearchReport, validate_report, ResearchRequest,
  validate_research,
}
use agentic_enterprise.Database.{Db}
use agentic_enterprise.Messages.{Role, Message, human_message}
use agentic_enterprise.Graph.Engine.{Executor}
use agentic_enterprise.History.{RunnableConfig}
use agentic_enterprise.Research.{ResearchState, ResearchNode, ResearchServices, research_workflow}
use agentic_enterprise.Api.{App, ainvoke, run_with_message, last_content}

-- f"{namespace}:ask:{username}:{q}"
unfoldable pub ask_cache_key : Text → Text → Text → Text
ask_cache_key namespace username q = namespace ++ (codes ":ask:" ++ (username ++ b':' ∷ q))

pub record AskResponse : Type 0 where
  pub query : Text
  pub output : Text

abbrev pub thread : Text → RunnableConfig
thread id = record { thread_id = id; checkpoint_id = none }

-- What FastAPI makes of a missing report: a response that fails its model.
abbrev pub present {ℓ} : {A : Type ℓ} → Option A → Result A
present none = err validation_error
present (some a) = ok a

unfoldable pub research_topic : Text → Text
research_topic topic = codes "Research the following: " ++ topic

abbrev pub research_recursion_limit : ℕ
research_recursion_limit = 50

-- except GraphRecursionError: raise MaxRecursionError(details={"topic": topic})
unfoldable pub or_max_recursion {ℓ} : {A : Type ℓ} → Text → Result A → Result A
or_max_recursion topic (ok a) = ok a
or_max_recursion topic (err graph_recursion_error) =
    err (max_recursion_error (some (Details.topic topic)))
or_max_recursion topic (err e) = err e

pub record HistoryTurn : Type 0 where
  pub role : Role
  pub content : Text

unfoldable pub turns : Option (List Message) → List HistoryTurn
turns none = []
turns (some messages) = map (λ m. record { role = m.role; content = m.content }) messages

module _ (app : App) where
  -- The route behind its cache.
  unfoldable pub ask : Text → Text → Db → Result AskResponse
  unfolding last_content
  ask username q db = do
    result ← run_with_message app username (thread (codes "ask:" ++ username)) q db
    output ← last_content result
    ok (record { query = q; output = output })

  -- No session in the context; the thread is named with a fresh uuid4, `run_id`.
  unfoldable pub analyze_investment : Text → Text → Text → Result InvestmentAnalysis
  unfolding validate_analysis
  analyze_investment run_id username ticker = do
    app.build_workflow
    result ←
        ainvoke app
          (record { llm = app.get_sovereign_llm; tool_llm = none; db = none; username = username })
          (thread (codes "analyze:" ++ username ++ b':' ∷ run_id))
          (human_message (codes "Analyze " ++ ticker) ∷ [])
    analysis ← or_raise result.analysis key_error
    validate_analysis analysis

  unfoldable pub get_conversation : Text → Result (List HistoryTurn)
  unfolding turns
  get_conversation conversation_id = do
    app.build_workflow
    snapshot ← app.checkpoints.aget_state (thread conversation_id)
    ok (turns snapshot.messages)

-- The messages of a research thread so far are in `saved`; `report` starts as None again. `tools` is how
-- get_tools() ends, after the graph has been built.
unfoldable pub run_research :
    (services : ResearchServices)
    → Executor ResearchNode ResearchState
    → Result (Unit {0})
    → Result (Unit {0})
    → (Text → List Message)
    → ResearchRequest
    → Result ResearchReport
unfolding validate_research validate_report research_topic or_max_recursion
run_research services executor build tools saved r = do
  request ← validate_research r
  build
  tools
  let g = research_workflow services
  result ← or_max_recursion request.topic (
      executor.run g research_recursion_limit g.entry (record {
        messages =
            services.add_messages (saved request.thread_id)
              (human_message (research_topic request.topic) ∷ []);
        report = none;
      }))
  final ← present result.report
  validate_report final
