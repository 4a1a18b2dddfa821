-- ===== src/Main/Sweeps.antt =====
-- app/main.py: the sweeps of the retention task, whatever becomes of the earlier ones.
use agentic_enterprise.Base.{
  ℕ, ◌+◌, ◌≡◌, refl, ap, ◌∙◌, not, List, [], ◌∷◌, ◌++◌, arith, length, filter, length-append, ok,
}
use agentic_enterprise.Settings.{Settings}
use agentic_enterprise.Gc.{is_stale, find_stale_threads, sweep}
use agentic_enterprise.Gc.Retention.{sweep_lem, DeletesThread}
use agentic_enterprise.Main.Startup.{Wake, Task, gc_turn, gc_loop}

module _ (settings : Settings) (interval : ℕ) where
  gc_loop-append :
      (earlier later : List Wake) (task : Task)
      → gc_loop settings interval (earlier ++ later) task
        ≡ gc_loop settings interval later (gc_loop settings interval earlier task)
  unfolding gc_loop
  gc_loop-append [] later task = refl
  gc_loop-append (w ∷ ws) later task = gc_loop-append ws later (gc_turn settings interval w task)

  count_of_sweeps :
      (ws : List Wake) (task : Task)
      → length (gc_loop settings interval ws task).sweeps ≡ length task.sweeps + length ws
  unfolding gc_loop gc_turn
  count_of_sweeps [] task = omega arith
  count_of_sweeps (w ∷ ws) task =
      let days = settings.checkpoint_retention_days in
      let result = (sweep w.saver w.woken days (w.meanwhile task.rows)).0 in
      omega (
        arith,
        count_of_sweeps ws (gc_turn settings interval w task),
        length-append task.sweeps (result ∷ []),
      )

  -- The retention task never dies of a sweep that raises: after any wakings, each of which swept once
  -- with any result, the next one with a saver that works deletes exactly the threads that are
  -- stale by then, reports them, and falls due again one interval after its sweep.
  pub next_sweep_cleans :
      (earlier : List Wake) (w : Wake) (task : Task)
      → DeletesThread w.saver
      → let before = gc_loop settings interval earlier task in
        let after = gc_loop settings interval (earlier ++ w ∷ []) task in
        let rows = w.meanwhile before.rows in
        let days = settings.checkpoint_retention_days in
        (length before.sweeps ≡ length task.sweeps + length earlier)
        × (after.rows ≡ filter (λ r. not (is_stale w.woken days rows r.thread_id)) rows)
        × (after.sweeps
            ≡ before.sweeps
              ++ ok (record {
                deleted = length (find_stale_threads w.woken days rows);
                retention_days = days;
              })
                ∷ [])
        × (after.due ≡ w.finished + interval)
  unfolding gc_loop gc_turn
  next_sweep_cleans earlier w task works =
      let before = gc_loop settings interval earlier task in
      let days = settings.checkpoint_retention_days in
      let swept = sweep_lem w.saver works w.woken days (w.meanwhile before.rows) in
      let turned = gc_loop-append earlier (w ∷ []) task in
      (
        count_of_sweeps earlier task,
        ap (λ t. t.rows) turned ∙ ap (λ z. z.1) swept,
        ap (λ t. t.sweeps) turned ∙ ap (λ z. before.sweeps ++ z.0 ∷ []) swept,
        ap (λ t. t.due) turned,
      )
