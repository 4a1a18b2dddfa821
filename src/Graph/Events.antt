-- ===== src/Graph/Events.antt =====
-- app/graph/engine.py: what the nodes write to their stream writer, and what a streamed run yields.
use agentic_enterprise.Base.{
  ℕ, suc, ◌≡◌, Option, none, some, List, [], ◌∷◌, ◌++◌, map, Text, codes, graph_recursion_error,
  Result, ok, err, ◌>>=◌,
}
use agentic_enterprise.Graph.State.{
  Route, technical, billing, general, investment, GraphState, Update, RuntimeContext,
}
use agentic_enterprise.Graph.Engine.{
  Node, router, memory_retriever, agent, tools, billing_node, general_node, critic_node,
  fetch_metrics, format_report, Target, node, finish, ended, Services, act, CompiledGraph,
}

abbrev pub route_name : Route → Text
route_name technical = codes "technical"
route_name billing = codes "billing"
route_name general = codes "general"
route_name investment = codes "investment"

abbrev pub routed_prefix : Text
routed_prefix = codes "routed to "

abbrev pub verdict_prefix : Text
verdict_prefix = codes "critic verdict: "

-- prefix + value, for a value that is there
abbrev pub labelled : Text → Option Text → List Text
labelled label none = []
labelled label (some value) = (label ++ value) ∷ []

-- What a node writes before anything in it can raise.
unfoldable pub announced : Node → List Text
announced agent = codes "invoking model" ∷ []
announced router = []
announced memory_retriever = []
announced tools = []
announced billing_node = []
announced general_node = []
announced critic_node = []
announced fetch_metrics = []
announced format_report = []

-- What a node writes right before it returns the update.
unfoldable pub reported : Node → Update → List Text
reported router u = elim u.route_to [ none ↦ [] | some r ↦ (routed_prefix ++ route_name r) ∷ [] ]
reported agent u = codes "model responded" ∷ []
reported critic_node u = labelled verdict_prefix u.critique
reported memory_retriever u = []
reported tools u = []
reported billing_node u = []
reported general_node u = []
reported fetch_metrics u = []
reported format_report u = []

-- The statuses of one step, in order; those at its end are left out when the node raises.
unfoldable pub statuses : Services → RuntimeContext → Node → GraphState → List Text
unfolding announced reported
statuses services context n state =
    announced n ++ elim (act services context n state) [ ok u ↦ reported n u | err e ↦ [] ]

-- A chunk of workflow.astream(stream_mode=["updates", "custom"]).
pub data Chunk : Type 0 where
  custom : Text → Chunk
  updates : Node → Chunk

-- LangGraph's `astream`, for a graph whose nodes write the statuses that it is given: the chunks, and
-- what the run ends with.
pub record Streamer : Type 0 where
  pub astream :
      CompiledGraph Node GraphState
      → (Node → GraphState → List Text)
      → ℕ
      → Node
      → GraphState
      → List Chunk × Result GraphState

-- A step and the edge behind it, which are one task.
abbrev pub task :
    CompiledGraph Node GraphState → Node → GraphState → Result (GraphState × Target Node)
task g n s = do s' ← g.step n s; target ← g.edge n s'; ok (s', target)

module _ (st : Streamer) (g : CompiledGraph Node GraphState)
    (write : Node → GraphState → List Text) where
  -- The chunks from the end of a task on, after those that it has written.
  abbrev pub after_task :
      ℕ → Node → List Chunk → Result (GraphState × Target Node) → List Chunk × Result GraphState
  after_task limit n written (err e) = (written, err e)
  after_task limit n written (ok (s', finish)) = (written ++ updates n ∷ [], ended limit s')
  after_task limit n written (ok (s', node m)) =
      let (chunks, end) = st.astream g write limit m s' in (written ++ updates n ∷ chunks, end)

-- What LangGraph documents of it: a task streams what it writes and then, if it does not raise, the
-- update of its node; the next task follows, up to the recursion limit.
pub record StreamsGraph (st : Streamer) : Type 0 where
  pub at_limit :
      (g : CompiledGraph Node GraphState) (write : Node → GraphState → List Text) (n : Node)
      (s : GraphState)
      → st.astream g write 0 n s ≡ ([], err graph_recursion_error)
  pub one_step :
      (g : CompiledGraph Node GraphState) (write : Node → GraphState → List Text) (limit : ℕ)
      (n : Node) (s : GraphState)
      → st.astream g write (suc limit) n s
        ≡ after_task st g write limit n (map custom (write n s)) (task g n s)
