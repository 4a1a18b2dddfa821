-- ===== src/Main/Startup.antt =====
-- app/main.py: lifespan, and the task that sweeps old checkpoints.
use agentic_enterprise.Base.{
  ℕ, ◌+◌, ◌*◌, Bool, Option, none, some, List, [], ◌∷◌, ◌++◌, ltb, if◌then◌else◌, Result, ok, is_ok,
  ◌>>◌,
}
use agentic_enterprise.Schemas.{pos, negsuc}
use agentic_enterprise.Settings.{Settings}
use agentic_enterprise.Gc.{Checkpoint, SweepSummary, Saver, sweep}

-- What the start calls: the build of the graph, the pool of connections, the saver's tables, and
-- Redis with a ping.
pub record Backends : Type 0 where
  pub build_workflow : Result (Unit {0})
  pub open_pool : Result (Unit {0})
  pub setup : Result (Unit {0})
  pub connect_cache : Result (Unit {0})

-- `interval` in seconds; none when it is not positive, and the task returns.
unfoldable pub gc_interval : Settings → Option ℕ
gc_interval settings = elim settings.checkpoint_gc_interval_hours [
  | pos hours ↦ if ltb 0 hours then some (hours * 3600) else none
  | negsuc n ↦ none
]

abbrev pub settle_seconds : ℕ
settle_seconds = 60

-- When the task wakes up for the first time.
unfoldable pub first_due : Settings → ℕ → Option ℕ
unfolding gc_interval
first_due settings now = elim (gc_interval settings) [
  | none ↦ none
  | some interval ↦ some (now + settle_seconds)
]

-- The service that has started: its cache may be missing.
pub record Started : Type 0 where
  pub gc_due : Option ℕ
  pub is_cached : Bool

unfoldable pub lifespan : Settings → Backends → ℕ → Result Started
unfolding first_due
lifespan settings backends now = do
  backends.build_workflow
  backends.open_pool
  backends.setup
  ok (record { gc_due = first_due settings now; is_cached = is_ok backends.connect_cache })

-- One waking of the task: when, with what saver, what the requests did to the checkpoints since
-- the last one, and when its sweep is over.
pub record Wake : Type 0 where
  pub woken : ℕ
  pub saver : Saver
  pub meanwhile : List Checkpoint → List Checkpoint
  pub finished : ℕ

-- The task asleep: when it is due, the checkpoints, and how its sweeps so far ended.
pub record Task : Type 0 where
  pub due : ℕ
  pub rows : List Checkpoint
  pub sweeps : List (Result SweepSummary)

-- One turn of `while True`: an exception of the sweep is logged, and the task sleeps again.
unfoldable pub gc_turn : Settings → ℕ → Wake → Task → Task
gc_turn settings interval w task =
    let (result, rest) =
      sweep w.saver w.woken settings.checkpoint_retention_days (w.meanwhile task.rows) in
    record { due = w.finished + interval; rows = rest; sweeps = task.sweeps ++ result ∷ [] }

unfoldable pub gc_loop : Settings → ℕ → List Wake → Task → Task
unfolding gc_turn
gc_loop settings interval [] task = task
gc_loop settings interval (w ∷ ws) task =
    gc_loop settings interval ws (gc_turn settings interval w task)
