-- ===== src/Builds/Workflow.antt =====
-- app/graph/engine.py, build_workflow with _ensure_tools_node and compile_graph: coroutines that build
-- the graph under a lock.
-- (`get_tools` of app/graph/tools.py has the same shape.)
use agentic_enterprise.Base.{
  ℕ, ◌+◌, ◌≤◌, ◌≡◌, refl, ◌⊎◌, inl, Bool, true, false, Option, none, some, arith, ◌==◌,
  if◌then◌else◌, Exception, Result, ok, err,
}

-- Where a caller stands between two awaits; a compiled graph is named by its number.
pub data Phase : Type 0 where
  idle waiting loading : Phase
  returned : ℕ → Phase
  raised : Exception → Phase

-- `_workflow`, the holder of `_build_lock`, whether `graph_builder` has its tools node, how many
-- graphs were compiled, and the callers.
pub record System : Type 0 where
  pub workflow : Option ℕ
  pub lock : Option ℕ
  pub has_tools : Bool
  pub compiled : ℕ
  pub phase : ℕ → Phase

abbrev pub update : (ℕ → Phase) → ℕ → Phase → ℕ → Phase
update f i p j = if i == j then p else f j

abbrev pub start : System
start = record { workflow = none; lock = none; has_tools = false; compiled = 0; phase = λ i. idle }

-- A call asks for the lock.
unfoldable pub call : ℕ → System → System
call i s = record s { phase = update s.phase i waiting }

-- Under the lock: the cached graph, or the load of the tools.
unfoldable pub enter : ℕ → System → System
enter i s = elim s.workflow [
  | none ↦ record s { lock = some i; phase = update s.phase i loading }
  | some w ↦ record s { phase = update s.phase i (returned w) }
]

-- The load is over: the tools node is there, the graph is compiled and cached, and the lock is free;
-- or the load has raised.
unfoldable pub finish : ℕ → Result (Unit {0}) → System → System
finish i (ok u) s = record s {
  workflow = some s.compiled;
  lock = none;
  has_tools = true;
  compiled = s.compiled + 1;
  phase = update s.phase i (returned s.compiled);
}
finish i (err e) s = record s { lock = none; phase = update s.phase i (raised e) }

pub data Step (s : System) : System → Type 0 where
  calls : (i : ℕ) → s.phase i ≡ idle → Step s (call i s)
  enters : (i : ℕ) → s.phase i ≡ waiting → s.lock ≡ none → Step s (enter i s)
  finishes : (i : ℕ) (r : Result (Unit {0})) → s.phase i ≡ loading → Step s (finish i r s)

pub data Reach (s : System) : System → Type 0 where
  here : Reach s s
  next : {t u : System} → Reach s t → Step t u → Reach s u

-- Nothing is loaded once a graph is cached, and it is the first one that was compiled.
pub record IsBuiltOnce (s : System) : Type 0 where
  pub holds : (i : ℕ) → s.phase i ≡ loading → s.lock ≡ some i
  pub loads_first : (i : ℕ) → s.phase i ≡ loading → s.workflow ≡ none
  pub counted : (s.workflow ≡ none) × (s.compiled ≡ 0) ⊎ (s.workflow ≡ some 0) × (s.compiled ≡ 1)
  pub cached : (i w : ℕ) → s.phase i ≡ returned w → s.workflow ≡ some w

call-IsBuiltOnce : (s : System) (i : ℕ) → s.phase i ≡ idle → IsBuiltOnce s → IsBuiltOnce (call i s)
unfolding call
call-IsBuiltOnce s i h b = record {
  holds = λ j f. ground (arith, b.holds j);
  loads_first = λ j f. ground (arith, b.loads_first j);
  counted = b.counted;
  cached = λ j w f. ground (arith, b.cached j w);
}

enter-IsBuiltOnce :
    (s : System) (i : ℕ)
    → s.phase i ≡ waiting
    → s.lock ≡ none
    → IsBuiltOnce s
    → IsBuiltOnce (enter i s)
unfolding enter
enter-IsBuiltOnce s i h free b = record {
  holds = λ j f. ground (arith, b.holds j);
  loads_first = λ j f. ground (arith, b.loads_first j);
  counted = ground (arith, b.counted);
  cached = λ j w f. ground (arith, b.cached j w);
}

finish-IsBuiltOnce :
    (s : System) (i : ℕ) (r : Result (Unit {0}))
    → s.phase i ≡ loading
    → IsBuiltOnce s
    → IsBuiltOnce (finish i r s)
unfolding finish
finish-IsBuiltOnce s i (ok u) h b = record {
  holds = λ j f. ground (arith, b.holds j, b.holds i h);
  loads_first = λ j f. ground (arith, b.holds j, b.holds i h);
  counted = ground (arith, b.counted, b.loads_first i h);
  cached = λ j w f. ground (arith, b.cached j w, b.loads_first i h, b.counted);
}
finish-IsBuiltOnce s i (err e) h b = record {
  holds = λ j f. ground (arith, b.holds j, b.holds i h);
  loads_first = λ j f. ground (arith, b.loads_first j);
  counted = b.counted;
  cached = λ j w f. ground (arith, b.cached j w);
}

Step-IsBuiltOnce : {s t : System} → Step s t → IsBuiltOnce s → IsBuiltOnce t
Step-IsBuiltOnce {s} (calls i h) b = call-IsBuiltOnce s i h b
Step-IsBuiltOnce {s} (enters i h free) b = enter-IsBuiltOnce s i h free b
Step-IsBuiltOnce {s} (finishes i r h) b = finish-IsBuiltOnce s i r h b

Reach-IsBuiltOnce : {s t : System} → IsBuiltOnce s → Reach s t → IsBuiltOnce t
Reach-IsBuiltOnce b here = b
Reach-IsBuiltOnce b (next r st) = Step-IsBuiltOnce st (Reach-IsBuiltOnce b r)

start-IsBuiltOnce : IsBuiltOnce start
start-IsBuiltOnce = record {
  holds = λ i f. cc;
  loads_first = λ i f. cc;
  counted = inl (refl, refl);
  cached = λ i w f. cc;
}

-- In every interleaving of callers, with loads that return or raise, the graph is compiled at most
-- once.
pub compiled_once : (s : System) → Reach start s → s.compiled ≤ 1
compiled_once s r = ground (arith, (Reach-IsBuiltOnce start-IsBuiltOnce r).counted)

-- In every interleaving of callers, a caller that gets a graph gets the first one, which is the one
-- that is cached.
pub built_once :
    (s : System)
    → Reach start s
    → (i w : ℕ) → s.phase i ≡ returned w
    → (w ≡ 0) × (s.workflow ≡ some 0)
built_once s r i w f =
    let b = Reach-IsBuiltOnce start-IsBuiltOnce r in ground (arith, b.counted, b.cached i w f)
