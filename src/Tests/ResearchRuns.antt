-- ===== src/Tests/ResearchRuns.antt =====
-- Runs of the research graph, and requests to an MCP server.
use agentic_enterprise.Base.{
  Details, ℕ, zero, suc, ◌+◌, ◌≡◌, refl, true, false, none, some, List, [], ◌∷◌, ◌++◌, arith, ltb,
  if◌then◌else◌, length, length-append, codes, Result, ok,
}
use agentic_enterprise.Messages.{ToolCall, Message, human_message, ChatModel}
use agentic_enterprise.Schemas.{
  sized, ResearchReport, is_fraction, validate_report, ResearchRequest, validate_research,
}
use agentic_enterprise.Api.Queries.{research_topic, or_max_recursion, run_research}
use agentic_enterprise.Research.{ResearchServices}
use agentic_enterprise.Research.Rounds.{Converses, research_rounds}
use agentic_enterprise.Main.Errors.{
  Response, error_body, other_body, request_id_header, request_id_of, outcome_of, serve,
}
use agentic_enterprise.Main.Tracing.{long_research_is_reported}
use agentic_enterprise.Tests.Parts.{driver, driver-FollowsGraph, ai_message, llm}

abbrev tool_call : ToolCall
tool_call = record { name = codes "get_weather"; args = [] }

abbrev eager : ChatModel
eager = record llm { ainvoke = λ ms. ok (record (ai_message []) { tool_calls = tool_call ∷ [] }) }

abbrev eager_services : ResearchServices
eager_services = record {
  llm = llm;
  tool_llm = eager;
  add_messages = λ old new. old ++ new;
  run_tools = λ ms. ok (ai_message (codes "sunny") ∷ []);
}

abbrev topic : ResearchRequest
topic = record { topic = codes "tea prices"; thread_id = codes "t9" }

abbrev written : ResearchReport
written = record {
  topic = codes "tea";
  summary = codes "The price of tea goes up.";
  sources_consulted = [];
  confidence = 0x3fe0000000000000;
}

abbrev question : Message
question = human_message (research_topic (codes "tea prices"))

-- One call, then an answer.
abbrev after_calls : List Message → Result Message
after_calls (m ∷ []) = ok (record (ai_message []) { tool_calls = tool_call ∷ [] })
after_calls ms = ok (ai_message (codes "fine"))

abbrev curious_services : ResearchServices
curious_services = record eager_services {
  llm = record llm { ainvoke_report = λ text. ok written };
  tool_llm = record llm { ainvoke = after_calls };
}

research_rounds_example :
    run_research curious_services driver (ok tt) (ok tt) (λ id. []) topic ≡ ok written
unfolding validate_research sized validate_report is_fraction or_max_recursion
research_rounds_example =
    research_rounds curious_services (λ old new. refl) driver driver-FollowsGraph (λ id. []) topic 1
      (question
        ∷ record (ai_message []) { tool_calls = tool_call ∷ [] }
        ∷ ai_message (codes "sunny")
        ∷ ai_message (codes "fine")
        ∷ [])
      refl
      (
        record (ai_message []) { tool_calls = tool_call ∷ [] },
        tool_call,
        [],
        ai_message (codes "sunny") ∷ [],
        refl,
        refl,
        refl,
        (ai_message (codes "fine"), refl, refl, refl),
      )

-- A model that calls a tool until there are 51 messages.
abbrev calling : Message
calling = record (ai_message []) { tool_calls = tool_call ∷ [] }

abbrev patient_services : ResearchServices
patient_services = record eager_services {
  tool_llm = record llm {
    ainvoke = λ ms. if ltb (length ms) 51 then ok calling else ok (ai_message (codes "fine"));
  };
}

end_of : ℕ → List Message → List Message
end_of zero ms = ms ++ ai_message (codes "fine") ∷ []
end_of (suc rounds) ms = end_of rounds ((ms ++ calling ∷ []) ++ ai_message (codes "sunny") ∷ [])

still_calling : (n rounds : ℕ) → n + suc rounds + suc rounds ≡ 51 → ltb n 51 ≡ true
still_calling n rounds h = ground (arith, h)

conversing :
    (rounds : ℕ) (ms : List Message)
    → length ms + rounds + rounds ≡ 51
    → Converses patient_services rounds ms (end_of rounds ms)
unfolding end_of
conversing zero ms h =
    let full : ltb (length ms) 51 ≡ false = ground (arith, h) in
    (ai_message (codes "fine"), rw full refl, refl, refl)
conversing (suc rounds) ms h =
    let later = (ms ++ calling ∷ []) ++ ai_message (codes "sunny") ∷ [] in
    (
      calling,
      tool_call,
      [],
      ai_message (codes "sunny") ∷ [],
      rw (still_calling (length ms) rounds h) refl,
      refl,
      refl,
      conversing rounds later (
          omega (
            arith,
            h,
            length-append ms (calling ∷ []),
            length-append (ms ++ calling ∷ []) (ai_message (codes "sunny") ∷ []),
          )),
    )

abbrev plain_response : ResearchReport → Response
plain_response report = record { status_code = 200; headers = []; body = other_body report.topic }

abbrev http_handler : ℕ → Response
http_handler status = record { status_code = status; headers = []; body = other_body [] }

long_research_is_reported_example :
    serve http_handler (codes "n1") none (
      outcome_of plain_response
        (run_research patient_services driver (ok tt) (ok tt) (λ id. []) topic))
    ≡ some (record {
      status_code = 422;
      headers = (request_id_header, codes "n1") ∷ [];
      body = error_body (record {
        success = false;
        error_code = codes "MAX_RECURSION_REACHED";
        message = codes "Agent entered a loop or exceeded its reasoning-step budget.";
        details = some (Details.topic (codes "tea prices"));
        trace_id = some (codes "n1");
      });
    })
unfolding validate_research sized request_id_of
long_research_is_reported_example =
    long_research_is_reported patient_services (λ old new. refl) driver driver-FollowsGraph
      http_handler plain_response (λ id. []) topic 25 (end_of 25 (question ∷ [])) b'n' (codes "1")
      none refl (conversing 25 (question ∷ []) refl) (omega arith)
