-- ===== src/Api/Analyses.antt =====
-- app/api/v1/endpoints.py, analyze_investment: its run of the graph, from the message to the
-- response.
use agentic_enterprise.Base.{◌≡◌, refl, none, [], ◌∷◌, ◌++◌, Text, codes, ok}
use agentic_enterprise.Schemas.{InvestmentAnalysis, validate_analysis}
use agentic_enterprise.Messages.{Message, human_message}
use agentic_enterprise.Graph.State.{investment, GraphState, RuntimeContext, initial_state}
use agentic_enterprise.Graph.Router.{classify}
use agentic_enterprise.Graph.Engine.{memory_retriever, run_node, workflow, FollowsGraph}
use agentic_enterprise.Graph.Revision.{Appends}
use agentic_enterprise.Graph.Dispatch.{routed_state}
use agentic_enterprise.Graph.Analysis.{asks_for, investment_run_reports}
use agentic_enterprise.Api.{App, with_input, ainvoke}
use agentic_enterprise.Api.Queries.{thread, analyze_investment}

-- The message and the context of the route's run.
unfoldable pub analyze_message : Text → Message
analyze_message ticker = human_message (codes "Analyze " ++ ticker)

module _ (app : App) where
  unfoldable pub analyze_context : Text → RuntimeContext
  analyze_context username = record {
    llm = app.get_sovereign_llm;
    tool_llm = none;
    db = none;
    username = username;
  }

  -- POST /analyze on its fresh thread and with a graph that has been built, when the router takes the
  -- message for an investment question, the retrieval of facts does not raise and the model asks for
  -- the metrics of one ticker: the route returns the analysis that the model writes on these metrics,
  -- if it passes the schema, and raises the error of the validation otherwise.
  analysis_is_validated :
      FollowsGraph app.executor
      → Appends app.services
      → (run_id username ticker : Text) (t : GraphState) (call : Message) (asked : Text)
        (analysis : InvestmentAnalysis)
      → app.build_workflow ≡ ok tt
      → app.saved (thread (codes "analyze:" ++ username ++ b':' ∷ run_id)) ≡ none
      → classify (app.services.lower (analyze_message ticker).content) ≡ investment
      → run_node app.services (analyze_context username) memory_retriever (
          routed_state app.services
            (analyze_context username)
            (analyze_message ticker)
            (initial_state (analyze_message ticker ∷ [])))
        ≡ ok t
      → app.get_sovereign_llm.ainvoke_metrics_tool t.messages ≡ ok call
      → call.tool_calls ≡ asks_for asked ∷ []
      → app.get_sovereign_llm.ainvoke_analysis (record { ticker = asked }) ≡ ok analysis
      → analyze_investment app run_id username ticker ≡ validate_analysis analysis
  unfolding analyze_investment ainvoke with_input workflow analyze_context analyze_message
      initial_state
  analysis_is_validated f appends run_id username ticker t call asked analysis built fresh route
        found calls args written =
      let (s', ran, analysed, same) =
        investment_run_reports app.services (analyze_context username) app.executor f appends
          (initial_state (analyze_message ticker ∷ [])) t (analyze_message ticker) call asked
          analysis 20 refl route found calls args written in
      rw (built, analyze_investment) (rw fresh (rw ran (rw analysed refl)))
