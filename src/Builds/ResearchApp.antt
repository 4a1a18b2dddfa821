-- ===== src/Builds/ResearchApp.antt =====
-- app/graph/research.py, build_research_workflow: coroutines that build the graph without a lock.
use agentic_enterprise.Base.{
  ℕ, ◌≡◌, refl, Bool, true, false, arith, ◌==◌, if◌then◌else◌, Exception, value_error, Result, ok,
  err,
}

pub data Phase : Type 0 where
  idle loading returned : Phase
  raised : Exception → Phase

-- `_research_app`, whether `_research_builder` has its tools node, and the callers.
pub record System : Type 0 where
  pub app : Bool
  pub has_tools : Bool
  pub phase : ℕ → Phase

abbrev pub update : (ℕ → Phase) → ℕ → Phase → ℕ → Phase
update f i p j = if i == j then p else f j

abbrev pub start : System
start = record { app = false; has_tools = false; phase = λ i. idle }

-- Up to the await of `load_tools()`.
unfoldable pub call : ℕ → System → System
call i s = record s { phase = update s.phase i (if s.app then returned else loading) }

-- From there on: LangGraph's add_node raises ValueError for a name that is taken.
unfoldable pub finish : ℕ → Result (Unit {0}) → System → System
finish i (ok u) s =
    if s.has_tools
    then record s { phase = update s.phase i (raised value_error) }
    else record { app = true; has_tools = true; phase = update s.phase i returned }
finish i (err e) s = record s { phase = update s.phase i (raised e) }

pub data Step (s : System) : System → Type 0 where
  calls : (i : ℕ) → s.phase i ≡ idle → Step s (call i s)
  finishes : (i : ℕ) (r : Result (Unit {0})) → s.phase i ≡ loading → Step s (finish i r s)

pub data Reach (s : System) : System → Type 0 where
  here : Reach s s
  next : {t u : System} → Reach s t → Step t u → Reach s u

-- The app is cached exactly when the builder has its tools node.
abbrev IsInStep : System → Type 0
IsInStep s = s.app ≡ s.has_tools

Step-IsInStep : {s t : System} → Step s t → IsInStep s → IsInStep t
unfolding call finish
Step-IsInStep {s} (calls i h) b = b
Step-IsInStep {s} (finishes i (ok u) h) b = ground arith
Step-IsInStep {s} (finishes i (err e) h) b = b

Reach-IsInStep : {s t : System} → IsInStep s → Reach s t → IsInStep t
Reach-IsInStep b here = b
Reach-IsInStep b (next r st) = Step-IsInStep st (Reach-IsInStep b r)

-- The race: in every interleaving of callers, once the app is cached, a caller whose load of the tools
-- is still under way gets a ValueError when the load returns, although the app is there.
pub late_load_raises :
    (s : System) (i : ℕ)
    → Reach start s
    → s.app ≡ true
    → s.phase i ≡ loading
    → (finish i (ok tt) s).phase i ≡ raised value_error
unfolding finish
late_load_raises s i r cached loads = ground (arith, Reach-IsInStep refl r)
