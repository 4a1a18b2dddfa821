-- ===== src/Research/Rounds.antt =====
-- app/graph/research.py and run_research of app/api/v1/endpoints.py: how many rounds of tool calls a
-- research run has room for.
use mathlib.Core.Path.{subst}
use agentic_enterprise.Base.{
  ℕ, zero, suc, ◌+◌, ◌≤◌, ◌<◌, ◌≡◌, refl, sym, ap, ◌∙◌, inl, inr, true, false, none, some, List, [],
  ◌∷◌, ◌++◌, arith, leb, if◌then◌else◌, Bool-cases, Text, graph_recursion_error, Details, Exception,
  max_recursion_error, Result, err, ok, ◌>>=◌, Result-cases,
}
use agentic_enterprise.Schemas.{ResearchReport, validate_report, ResearchRequest, validate_research}
use agentic_enterprise.Api.Queries.{research_topic, or_max_recursion, run_research, present}
use agentic_enterprise.Messages.{ToolCall, Message, human_message}
use agentic_enterprise.Graph.Engine.{Executor, FollowsGraph, ended}
use agentic_enterprise.Research.{
  ResearchState, ResearchNode, agent, tools, report, ResearchServices, append, by_tool_calls,
  synthesis_prompt, generate_research_report, research_step, research_edge, research_workflow,
}
use agentic_enterprise.Research.Limits.{Appends, agent_round, tools_round}

-- The model answers `ms` with tool calls for `rounds` times, the tools answer each time, and then
-- it answers without a call: the conversation is `end`.
abbrev pub Converses : ResearchServices → ℕ → List Message → List Message → Type 0
Converses sv zero ms end =
    (reply : Message) × (sv.tool_llm.ainvoke ms ≡ ok reply)
    × (reply.tool_calls ≡ [])
    × (end ≡ ms ++ reply ∷ [])
Converses sv (suc rounds) ms end =
    (reply : Message) × (call : ToolCall) × (calls : List ToolCall) × (answers : List Message)
    × (sv.tool_llm.ainvoke ms ≡ ok reply)
    × (reply.tool_calls ≡ call ∷ calls)
    × (sv.run_tools (ms ++ reply ∷ []) ≡ ok answers)
    × Converses sv rounds ((ms ++ reply ∷ []) ++ answers) end

module _ (sv : ResearchServices) (appends : Appends sv) (e : Executor ResearchNode ResearchState)
    (f : FollowsGraph e) where
  -- What the report node makes of a conversation.
  abbrev reported : List Message → Result ResearchState
  reported end = do
    result ← sv.llm.ainvoke_report (synthesis_prompt end)
    ok (record { messages = end; report = some result })

  report_round :
      (limit : ℕ) (s : ResearchState)
      → e.run (research_workflow sv) (suc limit) report s ≡ (reported s.messages >>= ended limit)
  unfolding research_workflow research_step generate_research_report research_edge
  report_round limit s =
      rw (f.one_step (research_workflow sv) limit report s)
        (elim (Result-cases (sv.llm.ainvoke_report (synthesis_prompt s.messages))) [
          | inl (x, h) ↦ rw h refl
          | inr (result, h) ↦ rw h refl
        ])

  reported_ok : (limit : ℕ) (ms : List Message) → (reported ms >>= ended (suc limit)) ≡ reported ms
  reported_ok limit ms = elim (Result-cases (sv.llm.ainvoke_report (synthesis_prompt ms))) [
    | inl (x, h) ↦ rw h refl
    | inr (result, h) ↦ rw h refl
  ]

  -- The state after the model has answered.
  abbrev answered : ResearchState → Message → ResearchState
  answered s reply = append sv s (reply ∷ [])

  agent_leads :
      (limit : ℕ) (s : ResearchState) (reply : Message) (calls : List ToolCall)
      → sv.tool_llm.ainvoke s.messages ≡ ok reply
      → reply.tool_calls ≡ calls
      → e.run (research_workflow sv) (suc limit) agent s
        ≡ e.run (research_workflow sv) limit (by_tool_calls calls) (answered s reply)
  agent_leads limit s reply calls asked called =
      agent_round sv appends e f limit s reply asked
      ∙ ap (λ cs. e.run (research_workflow sv) limit (by_tool_calls cs) (answered s reply)) called

  -- A round of tool calls takes two steps.
  tool_round :
      (limit : ℕ) (s : ResearchState) (reply : Message) (call : ToolCall) (calls : List ToolCall)
      (answers : List Message)
      → sv.tool_llm.ainvoke s.messages ≡ ok reply
      → reply.tool_calls ≡ call ∷ calls
      → sv.run_tools (s.messages ++ reply ∷ []) ≡ ok answers
      → e.run (research_workflow sv) (suc (suc limit)) agent s
        ≡ e.run (research_workflow sv) limit agent (append sv (answered s reply) answers)
  unfolding by_tool_calls
  tool_round limit s reply call calls answers asked called ran =
      agent_leads (suc limit) s reply (call ∷ calls) asked called
      ∙ tools_round sv appends e f limit (answered s reply) answers
          (ap sv.run_tools (appends s.messages (reply ∷ [])) ∙ ran)

  talk_on :
      (rounds : ℕ) (s : ResearchState) (reply : Message) (answers end : List Message)
      → Converses sv rounds ((s.messages ++ reply ∷ []) ++ answers) end
      → Converses sv rounds (append sv (answered s reply) answers).messages end
  talk_on rounds s reply answers end talk =
      subst (λ ms. Converses sv rounds ms end)
        (sym (
          appends (answered s reply).messages answers
          ∙ ap (λ ms. ms ++ answers) (appends s.messages (reply ∷ []))))
        talk

  talk_fits :
      (rounds limit : ℕ) (s : ResearchState) (end : List Message)
      → Converses sv rounds s.messages end
      → rounds + rounds + 3 ≤ limit
      → e.run (research_workflow sv) limit agent s ≡ reported end
  unfolding by_tool_calls
  talk_fits rounds zero s end talk room = absurd (omega (arith, room))
  talk_fits rounds (suc zero) s end talk room = absurd (omega (arith, room))
  talk_fits rounds (suc (suc zero)) s end talk room = absurd (omega (arith, room))
  talk_fits zero (suc (suc (suc limit))) s end (reply, asked, none_called, last) room =
      agent_leads (suc (suc limit)) s reply [] asked none_called
      ∙ report_round (suc limit) (answered s reply)
      ∙ reported_ok limit (answered s reply).messages
      ∙ ap reported (appends s.messages (reply ∷ []) ∙ sym last)
  talk_fits (suc rounds) (suc (suc (suc limit))) s end
        (reply, call, calls, answers, asked, called, ran, talk) room =
      tool_round (suc limit) s reply call calls answers asked called ran
      ∙ talk_fits rounds (suc limit) (append sv (answered s reply) answers) end
          (talk_on rounds s reply answers end talk) (omega (arith, room))

  -- With no step left after the report, the report is lost, unless its call has raised.
  talk_ends_late :
      (rounds limit : ℕ) (s : ResearchState) (end : List Message)
      → Converses sv rounds s.messages end
      → limit ≡ rounds + rounds + 2
      → e.run (research_workflow sv) limit agent s
        ≡ (reported end >>= λ s'. err graph_recursion_error)
  unfolding by_tool_calls
  talk_ends_late rounds zero s end talk room = absurd (omega (arith, room))
  talk_ends_late rounds (suc zero) s end talk room = absurd (omega (arith, room))
  talk_ends_late zero (suc (suc zero)) s end (reply, asked, none_called, last) room =
      agent_leads 1 s reply [] asked none_called
      ∙ report_round 0 (answered s reply)
      ∙ ap (λ ms. reported ms >>= λ s'. err graph_recursion_error)
          (appends s.messages (reply ∷ []) ∙ sym last)
  talk_ends_late zero (suc (suc (suc limit))) s end talk room = absurd (omega (arith, room))
  talk_ends_late (suc rounds) (suc (suc limit)) s end
        (reply, call, calls, answers, asked, called, ran, talk) room =
      tool_round limit s reply call calls answers asked called ran
      ∙ talk_ends_late rounds limit (append sv (answered s reply) answers) end
          (talk_on rounds s reply answers end talk) (omega (arith, room))

  talk_is_stopped :
      (rounds limit : ℕ) (s : ResearchState) (end : List Message)
      → Converses sv rounds s.messages end
      → limit < rounds + rounds + 2
      → e.run (research_workflow sv) limit agent s ≡ err graph_recursion_error
  unfolding by_tool_calls
  talk_is_stopped rounds zero s end talk short = f.at_limit (research_workflow sv) agent s
  talk_is_stopped zero (suc zero) s end (reply, asked, none_called, last) short =
      agent_leads 0 s reply [] asked none_called
      ∙ f.at_limit (research_workflow sv) report (answered s reply)
  talk_is_stopped (suc rounds) (suc zero) s end
        (reply, call, calls, answers, asked, called, ran, more) short =
      agent_leads 0 s reply (call ∷ calls) asked called
      ∙ f.at_limit (research_workflow sv) tools (answered s reply)
  talk_is_stopped zero (suc (suc limit)) s end talk short = absurd (omega (arith, short))
  talk_is_stopped (suc rounds) (suc (suc limit)) s end
        (reply, call, calls, answers, asked, called, ran, talk) short =
      tool_round limit s reply call calls answers asked called ran
      ∙ talk_is_stopped rounds limit (append sv (answered s reply) answers) end
          (talk_on rounds s reply answers end talk) (omega (arith, short))

  abbrev opening_state : (Text → List Message) → ResearchRequest → ResearchState
  opening_state saved r = record {
    messages = sv.add_messages (saved r.thread_id) (human_message (research_topic r.topic) ∷ []);
    report = none;
  }

  talk_from :
      (saved : Text → List Message) (r : ResearchRequest) (rounds : ℕ) (end : List Message)
      → Converses sv rounds (saved r.thread_id ++ human_message (research_topic r.topic) ∷ []) end
      → Converses sv rounds (opening_state saved r).messages end
  talk_from saved r rounds end talk =
      subst (λ ms. Converses sv rounds ms end)
        (sym (appends (saved r.thread_id) (human_message (research_topic r.topic) ∷ []))) talk

  room_for : (rounds : ℕ) → leb rounds 23 ≡ true → rounds + rounds + 3 ≤ 50
  room_for rounds fits = ground (arith, fits)

  no_more_room : (rounds : ℕ) → leb rounds 23 ≡ false → leb rounds 24 ≡ true → rounds ≡ 24
  no_more_room rounds over last = ground (arith, over, last)

  no_room_for : (rounds : ℕ) → leb rounds 24 ≡ false → 50 < rounds + rounds + 2
  no_room_for rounds over = ground (arith, over)

  delivered :
      (topic : Text) (end : List Message) (r : Result ResearchReport)
      → (or_max_recursion {A = ResearchState} topic
            (do result ← r; ok (record { messages = end; report = some result }))
          >>= λ state. present state.report >>= validate_report)
        ≡ (or_max_recursion topic r >>= validate_report)
  unfolding or_max_recursion
  delivered topic end (ok result) = refl
  delivered topic end (err graph_recursion_error) = refl
  delivered topic end (err x) = refl

  -- The exception that the route raises when it gives up.
  abbrev gave_up : ResearchRequest → Exception
  gave_up r = max_recursion_error (some (Details.topic r.topic))

  -- A report, as the report node puts it into the state.
  abbrev reporting : List Message → Result ResearchReport → Result ResearchState
  reporting end written = do result ← written; ok (record { messages = end; report = some result })

  lost :
      (r : ResearchRequest) (end : List Message) (written : Result ResearchReport)
      → (or_max_recursion {A = ResearchState} r.topic
            (reporting end written >>= λ s'. err graph_recursion_error)
          >>= λ state. present state.report >>= validate_report)
        ≡ (or_max_recursion r.topic written >>= λ report. err (gave_up r))
  unfolding or_max_recursion
  lost r end (ok result) = refl
  lost r end (err graph_recursion_error) = refl
  lost r end (err x) = refl

  -- POST /research on a valid request, with a model that calls tools in a number of rounds and then
  -- answers without a call, and tools that answer each time. Up to 23 rounds fit the limit of 50
  -- steps: the route ends as the model's report on the whole conversation does, checked once more
  -- against its schema. With 24 rounds the report is still asked for, but the run is then stopped: a
  -- report that the model gives is lost, and the route raises MaxRecursionError with the topic. From
  -- 25 rounds on it raises this error without a report.
  pub research_rounds :
      (saved : Text → List Message) (r : ResearchRequest) (rounds : ℕ) (end : List Message)
      → validate_research r ≡ ok r
      → Converses sv rounds (saved r.thread_id ++ human_message (research_topic r.topic) ∷ []) end
      → let written = or_max_recursion r.topic (sv.llm.ainvoke_report (synthesis_prompt end)) in
        run_research sv e (ok tt) (ok tt) saved r ≡ (
          if leb rounds 23
          then (written >>= validate_report)
          else if leb rounds 24
          then (written >>= λ report. err (gave_up r))
          else err (gave_up r))
  unfolding run_research research_workflow
  research_rounds saved r rounds end valid talk =
      let opening = opening_state saved r in
      let talk' = talk_from saved r rounds end talk in
      elim (Bool-cases (leb rounds 23)) [
        | inl fits ↦
            rw (valid, talk_fits rounds 50 opening end talk' (room_for rounds fits), fits)
              (delivered r.topic end (sv.llm.ainvoke_report (synthesis_prompt end)))
        | inr over ↦ elim (Bool-cases (leb rounds 24)) [
          | inl last ↦
              let exact : 50 ≡ rounds + rounds + 2 = omega (arith, no_more_room rounds over last) in
              rw (valid, talk_ends_late rounds 50 opening end talk' exact, over, last)
                (lost r end (sv.llm.ainvoke_report (synthesis_prompt end)))
          | inr far ↦
              rw
                (
                  valid,
                  talk_is_stopped rounds 50 opening end talk' (no_room_for rounds far),
                  over,
                  far,
                )
                refl
        ]
      ]
