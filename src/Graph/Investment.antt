-- ===== src/Graph/Investment.antt =====
-- The two nodes of an investment analysis: fetch the metrics, then write the report.
use agentic_enterprise.Base.{
  Option, none, some, List, [], ◌∷◌, if◌then◌else◌, Text, codes, text_eq, key_error, index_error,
  type_error, Result, ok, err, ◌>>=◌, or_raise,
}
use agentic_enterprise.Messages.{Metrics}
use agentic_enterprise.Graph.State.{
  report_done, metrics_fetched, GraphState, Update, no_update, RuntimeContext,
}

-- get_market_metrics(**args): exactly one argument, `ticker`; anything else is a TypeError.
unfoldable pub get_market_metrics : List (Text × Text) → Result Metrics
get_market_metrics [] = err type_error
get_market_metrics ((key, value) ∷ []) =
    if text_eq key (codes "ticker") then ok (record { ticker = value }) else err type_error
get_market_metrics (a ∷ b ∷ rest) = err type_error

abbrev pub head? : {A : Type 0} → List A → Option A
head? [] = none
head? (x ∷ xs) = some x

unfoldable pub fetch_market_metrics : RuntimeContext → GraphState → Result Update
unfolding get_market_metrics
fetch_market_metrics context state = do
  let model = context.llm
  response ← model.ainvoke_metrics_tool state.messages
  call ← or_raise (head? response.tool_calls) index_error
  result ← get_market_metrics call.args
  ok (record no_update {
    internal_logs = metrics_fetched result.ticker ∷ [];
    tool_result = some result;
  })

unfoldable pub generate_structured_report : RuntimeContext → GraphState → Result Update
generate_structured_report context state = do
  let model = context.llm
  metrics ← or_raise state.tool_result key_error
  report ← model.ainvoke_analysis metrics
  ok (record no_update { analysis = some report; internal_logs = report_done ∷ [] })
