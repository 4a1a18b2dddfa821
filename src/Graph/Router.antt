-- ===== src/Graph/Router.antt =====
-- `route_request`: the keyword classification of the last message.
use agentic_enterprise.Base.{
  Bool, some, List, [], ◌∷◌, if◌then◌else◌, get_last?, any, Text, codes, contains, index_error,
  Result, ok, ◌>>=◌, or_raise,
}
use agentic_enterprise.Graph.State.{
  Route, technical, billing, general, investment, routed, router_decided, GraphState, Update,
  no_update,
}

unfoldable pub technical_words : List Text
technical_words =
    codes "deploy"
    ∷ codes "status"
    ∷ codes "error"
    ∷ codes "logs"
    ∷ codes "service"
    ∷ codes "balance"
    ∷ codes "account"
    ∷ codes "python"
    ∷ codes "script"
    ∷ codes "calculate"
    ∷ codes "code"
    ∷ []

unfoldable pub billing_words : List Text
billing_words = codes "invoice" ∷ codes "payment" ∷ codes "billing" ∷ codes "charge" ∷ []

unfoldable pub investment_words : List Text
investment_words =
    codes "ticker" ∷ codes "stock" ∷ codes "invest" ∷ codes "analyze" ∷ codes "shares" ∷ []

-- any(w in text for w in words)
unfoldable pub mentions : List Text → Text → Bool
mentions words text = any (λ w. contains w text) words

unfoldable pub classify : Text → Route
classify text =
    if mentions technical_words text
    then technical
    else if mentions billing_words text
    then billing
    else if mentions investment_words text
    then investment
    else general

-- `lower` is Python's str.lower.
unfoldable pub route_request : (Text → Text) → GraphState → Result Update
route_request lower state = do
  last ← or_raise (get_last? state.messages) index_error
  let decision = classify (lower last.content)
  ok (record no_update {
    route_to = some decision;
    status = some routed;
    internal_logs = router_decided decision ∷ [];
  })
