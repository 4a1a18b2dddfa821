-- ===== src/Graph/Analysis.antt =====
-- app/graph/engine.py: whole runs of investment questions, from the router to END.
use mathlib.Core.List.{append-nil}
use agentic_enterprise.Base.{
  ℕ, suc, ◌≡◌, refl, ap, ◌∙◌, some, [], ◌∷◌, get_last?, Text, codes, text_eq, ok,
}
use agentic_enterprise.Schemas.{InvestmentAnalysis}
use agentic_enterprise.Messages.{ToolCall, Message}
use agentic_enterprise.Graph.State.{
  investment, report_done, metrics_fetched, GraphState, no_update, reduce, RuntimeContext,
}
use agentic_enterprise.Graph.Router.{classify}
use agentic_enterprise.Graph.Investment.{
  get_market_metrics, fetch_market_metrics, generate_structured_report,
}
use agentic_enterprise.Graph.Engine.{
  Node, router, memory_retriever, fetch_metrics, format_report, node, finish, Services, act, next,
  run_node, workflow, Executor, FollowsGraph,
}
use agentic_enterprise.Graph.Revision.{Appends}
use agentic_enterprise.Graph.Dispatch.{worker, routed_state, run_dispatches}

-- A tool call with the one argument that the tool takes.
abbrev pub asks_for : Text → ToolCall
asks_for ticker = record { name = codes "get_market_metrics"; args = (codes "ticker", ticker) ∷ [] }

-- The states after the metrics and after the report.
fetched : Services → Text → GraphState → GraphState
fetched sv ticker t = reduce sv.add_messages t (record no_update {
  internal_logs = metrics_fetched ticker ∷ [];
  tool_result = some (record { ticker = ticker });
})

reported : Services → InvestmentAnalysis → GraphState → GraphState
reported sv analysis t =
    reduce sv.add_messages t
      (record no_update { analysis = some analysis; internal_logs = report_done ∷ [] })

module _ (sv : Services) (cx : RuntimeContext) where
  fetch_step :
      (t : GraphState) (call : Message) (ticker : Text)
      → cx.llm.ainvoke_metrics_tool t.messages ≡ ok call
      → call.tool_calls ≡ asks_for ticker ∷ []
      → run_node sv cx fetch_metrics t ≡ ok (fetched sv ticker t)
  unfolding run_node act fetch_market_metrics get_market_metrics fetched text_eq
  fetch_step t call ticker asked args = rw asked (rw args refl)

  report_step :
      (t : GraphState) (ticker : Text) (analysis : InvestmentAnalysis)
      → cx.llm.ainvoke_analysis (record { ticker = ticker }) ≡ ok analysis
      → run_node sv cx format_report (fetched sv ticker t)
        ≡ ok (reported sv analysis (fetched sv ticker t))
  unfolding run_node act generate_structured_report fetched reported reduce
  report_step t ticker analysis written = rw written refl

  fetch_edge : (t : GraphState) → next sv fetch_metrics t ≡ ok (node format_report)
  unfolding next
  fetch_edge t = refl

  report_edge : (t : GraphState) → next sv format_report t ≡ ok finish
  unfolding next
  report_edge t = refl

  analysis_of_reported :
      (t : GraphState) (ticker : Text) (analysis : InvestmentAnalysis)
      → (reported sv analysis (fetched sv ticker t)).analysis ≡ some analysis
  unfolding reported reduce
  analysis_of_reported t ticker analysis = refl

  messages_of_reported :
      Appends sv
      → (t : GraphState) (ticker : Text) (analysis : InvestmentAnalysis)
      → (reported sv analysis (fetched sv ticker t)).messages ≡ t.messages
  unfolding reported fetched reduce
  messages_of_reported appends t ticker analysis =
      rw (appends t.messages [])
        (rw (append-nil t.messages) (rw (appends t.messages []) (append-nil t.messages)))

  -- From the worker of an investment question to END.
  report_run :
      (e : Executor Node GraphState)
      → FollowsGraph e
      → (limit : ℕ) (t : GraphState) (call : Message) (ticker : Text)
        (analysis : InvestmentAnalysis)
      → cx.llm.ainvoke_metrics_tool t.messages ≡ ok call
      → call.tool_calls ≡ asks_for ticker ∷ []
      → cx.llm.ainvoke_analysis (record { ticker = ticker }) ≡ ok analysis
      → e.run (workflow sv cx) (suc (suc (suc limit))) fetch_metrics t
        ≡ ok (reported sv analysis (fetched sv ticker t))
  unfolding workflow
  report_run e f limit t call ticker analysis asked args written =
      rw (f.one_step (workflow sv cx) (suc (suc limit)) fetch_metrics t) (
        rw (fetch_step t call ticker asked args) (
          rw (fetch_edge (fetched sv ticker t)) (
            rw (f.one_step (workflow sv cx) (suc limit) format_report (fetched sv ticker t)) (
              rw (report_step t ticker analysis written)
                (rw (report_edge (reported sv analysis (fetched sv ticker t))) refl)))))

module _ (sv : Services) (cx : RuntimeContext) (e : Executor Node GraphState)
    (follows : FollowsGraph e) (appends : Appends sv) where
  -- An investment question whose retrieval of facts does not raise, with a model that asks for the
  -- metrics of one ticker: the run ends with the analysis that the model writes on these metrics, and
  -- with no further message, if new messages are appended and the recursion limit is at least 5.
  pub investment_run_reports :
      (s t : GraphState) (m call : Message) (ticker : Text) (analysis : InvestmentAnalysis)
      (limit : ℕ)
      → get_last? s.messages ≡ some m
      → classify (sv.lower m.content) ≡ investment
      → run_node sv cx memory_retriever (routed_state sv cx m s) ≡ ok t
      → cx.llm.ainvoke_metrics_tool t.messages ≡ ok call
      → call.tool_calls ≡ asks_for ticker ∷ []
      → cx.llm.ainvoke_analysis (record { ticker = ticker }) ≡ ok analysis
      → (s' : GraphState) × (e.run (workflow sv cx) (suc (suc (suc (suc (suc limit))))) router s
          ≡ ok s')
        × (s'.analysis ≡ some analysis)
        × (s'.messages ≡ t.messages)
  investment_run_reports s t m call ticker analysis limit last route found asked args written = (
    reported sv analysis (fetched sv ticker t),
    run_dispatches sv cx e follows (suc (suc (suc limit))) s t m last found
        ∙ ap (λ r. e.run (workflow sv cx) (suc (suc (suc limit))) (worker r) t) route
        ∙ report_run sv cx e follows limit t call ticker analysis asked args written,
    analysis_of_reported sv cx t ticker analysis,
    messages_of_reported sv cx appends t ticker analysis,
  )
