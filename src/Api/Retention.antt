-- ===== src/Api/Retention.antt =====
-- app/api/v1/endpoints.py: POST /admin/gc and GET /admin/gc/stats.
use agentic_enterprise.Base.{
  ℕ, ◌+◌, ◌≡◌, refl, ap, ◌∙◌, Bool, not, Option, none, some, List, [], ◌∷◌, arith, ltb,
  if◌then◌else◌, length, filter, Text, Result, err, ok, ◌>>◌,
}
use agentic_enterprise.Gc.{
  Checkpoint, is_stale, thread_ids, find_stale_threads, SweepSummary, Saver, sweep,
}
use agentic_enterprise.Gc.Retention.{DeletesThread, elem-filter, sweep_lem}

-- The saver's tables: the checkpoints, and how many rows the other two have.
pub record Tables : Type 0 where
  pub checkpoints : List Checkpoint
  pub checkpoint_writes : ℕ
  pub checkpoint_blobs : ℕ

pub record GcStats : Type 0 where
  pub checkpoints : ℕ
  pub checkpoint_writes : ℕ
  pub checkpoint_blobs : ℕ
  pub threads : ℕ
  pub oldest_checkpoint : Option ℕ
  pub retention_days : ℕ

-- min(ts)
unfoldable pub oldest : List Checkpoint → Option ℕ
oldest [] = none
oldest (row ∷ rows) = elim (oldest rows) [
  | none ↦ some row.ts
  | some ts ↦ some (if ltb ts row.ts then ts else row.ts)
]

unfoldable pub gc_stats : Result (Unit {0}) → ℕ → Tables → Result GcStats
unfolding oldest
gc_stats build_workflow retention_days tables = do
  build_workflow
  ok (record {
    checkpoints = length tables.checkpoints;
    checkpoint_writes = tables.checkpoint_writes;
    checkpoint_blobs = tables.checkpoint_blobs;
    threads = length (thread_ids tables.checkpoints);
    oldest_checkpoint = oldest tables.checkpoints;
    retention_days = retention_days;
  })

unfoldable pub run_gc :
    Result (Unit {0}) → Saver → ℕ → ℕ → List Checkpoint → Result SweepSummary × List Checkpoint
run_gc build_workflow saver now retention_days rows = elim build_workflow [
  | err e ↦ (err e, rows)
  | ok u ↦ sweep saver now retention_days rows
]

thread_ids-filter :
    (p : Text → Bool) (rows : List Checkpoint)
    → thread_ids (filter (λ r. p r.thread_id) rows) ≡ filter p (thread_ids rows)
unfolding thread_ids
thread_ids-filter p [] = refl
thread_ids-filter p (row ∷ rows) =
    ground (arith, thread_ids-filter p rows, elem-filter p row.thread_id (thread_ids rows))

filter_splits :
    (p : Text → Bool) (ts : List Text)
    → length (filter (λ t. not (p t)) ts) + length (filter p ts) ≡ length ts
filter_splits p [] = omega arith
filter_splits p (t ∷ ts) = ground (arith, filter_splits p ts)

-- POST /admin/gc with a saver that works, then GET /admin/gc/stats: the threads that are left and those
-- that the sweep reports as deleted are the threads that were there before.
pub run_gc-gc_stats :
    (saver : Saver)
    → DeletesThread saver
    → (now retention_days : ℕ) (tables : Tables)
    → (deleted : SweepSummary) × (rows : List Checkpoint) × (before after : GcStats) × (run_gc
          (ok tt)
          saver
          now
          retention_days
          tables.checkpoints
        ≡ (ok deleted, rows))
      × (gc_stats (ok tt) retention_days tables ≡ ok before)
      × (gc_stats (ok tt) retention_days (record tables { checkpoints = rows }) ≡ ok after)
      × (after.threads + deleted.deleted ≡ before.threads)
unfolding run_gc gc_stats find_stale_threads
run_gc-gc_stats saver works now retention_days tables =
    let rows = tables.checkpoints in
    let live : Text → Bool = λ t. not (is_stale now retention_days rows t) in
    (
      _,
      _,
      _,
      _,
      sweep_lem saver works now retention_days rows,
      refl,
      refl,
      ap (λ ts. length ts + length (find_stale_threads now retention_days rows))
            (thread_ids-filter live rows)
          ∙ filter_splits (is_stale now retention_days rows) (thread_ids rows),
    )
