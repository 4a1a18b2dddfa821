-- ===== src/Main/Health.antt =====
-- app/api/v1/health.py, with the drawings of app/graph/engine.py.
use agentic_enterprise.Base.{
  ℕ, ◌≡◌, refl, ap, Exception, inl, inr, ◌⊎◌, Option, some, List, Text, codes, http_exception,
  Result, err, ok, ◌>>◌, Result-cases,
}
use agentic_enterprise.Api.{App}
use agentic_enterprise.Main.Errors.{
  Response, handle, request_id_of, request_id_middleware, served, serve, failure_of, outcome_of,
}
use agentic_enterprise.Main.Tracing.{stamp}

pub record HealthStatus : Type 0 where
  pub status : Text
  pub uptime : Text
  pub agent_engine : Text

unfoldable pub health_check : HealthStatus
health_check = record {
  status = codes "healthy";
  uptime = codes "nominal";
  agent_engine = codes "ready";
}

-- LangGraph's drawings of the compiled graph: a text, and the bytes that mermaid.ink makes of it.
pub record Drawing : Type 0 where
  pub draw_mermaid : Result Text
  pub draw_mermaid_png : Result (List ℕ)

module _ (app : App) (drawing : Drawing) where
  unfoldable pub graph_mermaid : Result Text
  graph_mermaid = app.build_workflow >> drawing.draw_mermaid

  unfoldable pub graph_png : Result (List ℕ)
  graph_png = do app.build_workflow; drawing.draw_mermaid_png

  unfoldable pub graph_structure : Result Text
  unfolding graph_mermaid
  graph_structure = graph_mermaid

  -- `except Exception`
  unfoldable pub graph_image : Result (List ℕ)
  unfolding graph_png
  graph_image = elim graph_png [ ok png ↦ ok png | err e ↦ err (http_exception 502) ]

  drawn : (png : List ℕ) → graph_png ≡ ok png → graph_image ≡ ok png
  unfolding graph_image
  drawn png h = rw (h, graph_image) refl

  not_drawn : (e : Exception) → graph_png ≡ err e → graph_image ≡ err (http_exception 502)
  unfolding graph_image
  not_drawn e h = rw (h, graph_image) refl

  -- GET /graph.png is always answered, with the picture or with FastAPI's answer to status 502, and the
  -- answer carries the id of the request.
  graph_image_is_answered :
      (http_handler : ℕ → Response) (present : List ℕ → Response) (new : Text)
      (incoming : Option Text)
      → let answer = serve http_handler new incoming (outcome_of present graph_image) in
        let id = request_id_of new incoming in
        ((png : List ℕ) × (graph_png ≡ ok png) × (answer ≡ some (stamp id (present png))))
        ⊎ (answer ≡ some (stamp id (http_handler 502)))
  unfolding serve request_id_middleware served outcome_of failure_of handle
  graph_image_is_answered http_handler present new incoming =
      let answer : Result (List ℕ) → Option Response =
        λ r. serve http_handler new incoming (outcome_of present r) in
      elim (Result-cases graph_png) [
        | inl (e, h) ↦ inr (ap answer (not_drawn e h))
        | inr (png, h) ↦ inl (png, h, ap answer (drawn png h))
      ]
