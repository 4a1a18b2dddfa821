-- ===== src/Gc/Retention.antt =====
-- app/graph/gc.py: the sweep against the threads that the query selects.
use agentic_enterprise.Base.{
  ℕ, ◌≡◌, refl, sym, ap, ◌∙◌, Bool, true, not, ◌&&◌, List, [], ◌∷◌, arith, length, filter, All,
  filter-filter, filter_congr, filter-true, All-intro, All-mono, Text, text_eq, elem, text_eq_iff,
  text_eq_refl, text_eq_comm, ok,
}
use agentic_enterprise.Gc.{
  Checkpoint, is_stale, thread_ids, find_stale_threads, Saver, delete_all, sweep,
}

-- What the saver documents of adelete_thread: it removes the rows of that thread and no other.
pub record DeletesThread (saver : Saver) : Type 0 where
  pub connects : saver.connection ≡ ok tt
  pub deletes :
      (t : Text) (rows : List Checkpoint)
      → saver.adelete_thread t rows ≡ (ok tt, filter (λ row. not (text_eq row.thread_id t)) rows)

module _ (saver : Saver) (works : DeletesThread saver) where
  delete_all_step :
      (t : Text) (ts : List Text) (rows rest : List Checkpoint)
      → saver.adelete_thread t rows ≡ (ok tt, rest)
      → delete_all saver (t ∷ ts) rows ≡ delete_all saver ts rest
  unfolding delete_all
  delete_all_step t ts rows rest h =
      rw (ap (λ z. z.0) h, delete_all) (ap (delete_all saver ts) (ap (λ z. z.1) h))

  delete_all_lem :
      (ts : List Text) (rows : List Checkpoint)
      → delete_all saver ts rows ≡ (ok tt, filter (λ r. not (elem r.thread_id ts)) rows)
  unfolding delete_all elem
  delete_all_lem [] rows = ap (λ kept. (ok tt, kept)) (sym (filter-true rows))
  delete_all_lem (t ∷ ts) rows =
      let rest = filter (λ r. not (text_eq r.thread_id t)) rows in
      delete_all_step t ts rows rest (works.deletes t rows)
      ∙ delete_all_lem ts rest
      ∙ ap (λ kept. (ok tt, kept))
          (filter-filter (λ r. not (elem r.thread_id ts)) (λ r. not (text_eq r.thread_id t)) rows
            ∙ filter_congr _ _ rows
                (All-intro _ rows (λ r. ground (arith, text_eq_comm t r.thread_id))))

pub elem-filter :
    (p : Text → Bool) (t : Text) (ts : List Text) → elem t (filter p ts) ≡ (elem t ts && p t)
unfolding elem
elem-filter p t [] = refl
elem-filter p t (x ∷ ts) = ground (arith, elem-filter p t ts, text_eq_iff x t)

elem-thread_ids :
    (row : Checkpoint) (rows : List Checkpoint)
    → elem row.thread_id (thread_ids (row ∷ rows)) ≡ true
unfolding elem thread_ids
elem-thread_ids row rows = ground (arith, text_eq_refl row.thread_id)

elem-thread_ids_cons :
    (t : Text) (row : Checkpoint) (rows : List Checkpoint)
    → elem t (thread_ids rows) ≡ true
    → elem t (thread_ids (row ∷ rows)) ≡ true
unfolding elem thread_ids
elem-thread_ids_cons t row rows h = ground arith

pub All-thread_ids :
    (rows : List Checkpoint) → All (λ r. elem r.thread_id (thread_ids rows) ≡ true) rows
All-thread_ids [] = tt
All-thread_ids (row ∷ rows) = (
  elem-thread_ids row rows,
  All-mono _ _ rows (λ r. elem-thread_ids_cons r.thread_id row rows) (All-thread_ids rows),
)

pub elem-find_stale_threads :
    (now retention_days : ℕ) (rows : List Checkpoint) (t : Text)
    → elem t (thread_ids rows) ≡ true
    → elem t (find_stale_threads now retention_days rows) ≡ is_stale now retention_days rows t
unfolding find_stale_threads
elem-find_stale_threads now retention_days rows t h =
    rw (elem-filter (is_stale now retention_days rows) t (thread_ids rows)) (rw h)

-- With a saver that deletes exactly the rows of a thread, a sweep keeps exactly the checkpoints of the
-- threads whose newest checkpoint is not older than the cutoff, each with its whole history, and
-- reports how many threads it deleted.
pub sweep_lem :
    (saver : Saver)
    → DeletesThread saver
    → (now retention_days : ℕ) (rows : List Checkpoint)
    → sweep saver now retention_days rows ≡ (
      ok (record {
        deleted = length (find_stale_threads now retention_days rows);
        retention_days = retention_days;
      }),
      filter (λ r. not (is_stale now retention_days rows r.thread_id)) rows,
    )
unfolding sweep
sweep_lem saver works now retention_days rows =
    rw (works.connects, sweep)
      (rw (delete_all_lem saver works (find_stale_threads now retention_days rows) rows) (
        rw (
          filter_congr (λ r. not (elem r.thread_id (find_stale_threads now retention_days rows)))
            (λ r. not (is_stale now retention_days rows r.thread_id)) rows
            (All-mono _ _ rows
              (λ r m. ap not (elem-find_stale_threads now retention_days rows r.thread_id m))
              (All-thread_ids rows)))))
