-- ===== src/Gc.antt =====
-- app/graph/gc.py: the retention sweep over the checkpoint tables.
pub mod Retention
pub mod Interrupted
use agentic_enterprise.Base.{
  ℕ, ◌+◌, ◌*◌, Bool, false, Option, none, some, List, [], ◌∷◌, ltb, if◌then◌else◌, length, filter,
  Text, text_eq, elem, Result, ok, err, ◌>>◌,
}

-- A row of `checkpoints`: its thread, and the `ts` of its payload in seconds.
pub record Checkpoint : Type 0 where
  pub thread_id : Text
  pub ts : ℕ

abbrev pub seconds_per_day : ℕ
seconds_per_day = 86_400

abbrev max_ts : Option ℕ → ℕ → ℕ
max_ts none ts = ts
max_ts (some m) ts = if ltb m ts then ts else m

-- MAX(ts) of a thread's rows.
unfoldable pub last_activity : Text → List Checkpoint → Option ℕ
last_activity t [] = none
last_activity t (row ∷ rows) =
    let rest = last_activity t rows in
    if text_eq row.thread_id t then some (max_ts rest row.ts) else rest

-- HAVING MAX(ts) < now() - make_interval(days => retention_days)
unfoldable pub is_stale : ℕ → ℕ → List Checkpoint → Text → Bool
unfolding last_activity
is_stale now retention_days rows t = elim (last_activity t rows) [
  | none ↦ false
  | some ts ↦ ltb (ts + retention_days * seconds_per_day) now
]

-- GROUP BY thread_id: each thread once.
unfoldable pub thread_ids : List Checkpoint → List Text
thread_ids [] = []
thread_ids (row ∷ rows) =
    let rest = thread_ids rows in if elem row.thread_id rest then rest else row.thread_id ∷ rest

unfoldable pub find_stale_threads : ℕ → ℕ → List Checkpoint → List Text
unfolding is_stale thread_ids
find_stale_threads now retention_days rows =
    filter (is_stale now retention_days rows) (thread_ids rows)

pub record SweepSummary : Type 0 where
  pub deleted : ℕ
  pub retention_days : ℕ

-- langgraph's saver: a connection of its pool for the query, and the deletion of a thread. What it has
-- deleted stays deleted when it raises.
pub record Saver : Type 0 where
  pub connection : Result (Unit {0})
  pub adelete_thread : Text → List Checkpoint → Result (Unit {0}) × List Checkpoint

module _ (saver : Saver) where
  -- for thread_id in stale: await saver.adelete_thread(thread_id)
  unfoldable pub delete_all : List Text → List Checkpoint → Result (Unit {0}) × List Checkpoint
  delete_all [] rows = (ok tt, rows)
  delete_all (t ∷ ts) rows =
      let (deleted, rest) = saver.adelete_thread t rows in
      elim deleted [ ok u ↦ delete_all ts rest | err e ↦ (err e, rest) ]

  unfoldable pub sweep : ℕ → ℕ → List Checkpoint → Result SweepSummary × List Checkpoint
  unfolding find_stale_threads delete_all
  sweep now retention_days rows = elim saver.connection [
    | err e ↦ (err e, rows)
    | ok u ↦
        let stale = find_stale_threads now retention_days rows in
        let (deleted, rest) = delete_all stale rows in
        (deleted >> ok (record { deleted = length stale; retention_days = retention_days }), rest)
  ]
